-- ===== src/Server/Manifests/Sessions.antt =====
-- registry.rs, the handlers of manifests, on upload sessions.
use jcr.Prelude.{ℕ, Bool, not, Option, none, some, List, [], ◌∷◌, Bytes}
use jcr.Digest
use jcr.Digest.{Digest}
use jcr.Manifest.{Json, ManifestDocument}
use jcr.Server.Error.{oci}
use jcr.Server.Types.{Repository, Authorized, Headers, Body, Platform}
use jcr.Server.Database.{Database}
use jcr.Server.Database.Rows.{Tag}
use jcr.Server.Database.Tables.{select}
use jcr.Server.Exec.{pure, throw, gets, modify, ◌>>=◌}
use jcr.Server.Exec.Keeps.{
  Keeps, Keeps-bind, Keeps-lift, Keeps-if, Keeps-throw, Keeps-modify, Keeps-gets, Keeps-fetch,
  Keeps-pure, Keeps-transaction,
}
use jcr.Server.Session.Invariant.{IsValid}
use jcr.Server.Commit.Sessions.{audited}
use jcr.Server.Manifests.{
  put_manifest, get_manifest, delete_manifest, delete_transaction, unlink_manifest, delete_tags,
  deleted_events, points_to, persist_manifest, persist_transaction, point_tag, store_manifest,
  set_tag, insert_tag_event, is_digest_reference, is_same,
}

stored :
    (now id : ℕ) (m : ManifestDocument) (db : Database)
    → IsValid db
    → IsValid (store_manifest now id m db)
unfolding store_manifest
stored now id m db v = record { unique = v.unique; sessions = v.sessions; owned = v.owned }

tagged :
    (id : ℕ) (name digest : Bytes) (db : Database)
    → IsValid db
    → IsValid (set_tag id name digest db)
unfolding set_tag
tagged id name digest db v = record { unique = v.unique; sessions = v.sessions; owned = v.owned }

recorded :
    (id : ℕ) (name : Bytes) (previous new : Option Bytes) (actor : ℕ) (db : Database)
    → IsValid db
    → IsValid (insert_tag_event id name previous new actor db)
unfolding insert_tag_event
recorded id name previous new actor db v = record {
  unique = v.unique;
  sessions = v.sessions;
  owned = v.owned;
}

unlinked :
    (now id : ℕ) (digest : Bytes) (db : Database)
    → IsValid db
    → IsValid (unlink_manifest now id digest db)
unfolding unlink_manifest
unlinked now id digest db v = record { unique = v.unique; sessions = v.sessions; owned = v.owned }

untagged :
    (id : ℕ) (digest : Bytes) (db : Database) → IsValid db → IsValid (delete_tags id digest db)
unfolding delete_tags
untagged id digest db v = record { unique = v.unique; sessions = v.sessions; owned = v.owned }

all_recorded :
    (id actor : ℕ) (digest : Bytes) (named : List Tag) (db : Database)
    → IsValid db
    → IsValid (deleted_events id actor digest named db)
all_recorded id actor digest [] db v = v
all_recorded id actor digest (t ∷ named) db v =
    all_recorded id actor digest named _ (recorded id t.name (some digest) none actor db v)

module _ {S Value : Type 0} (library : Json Value) (platform : Platform) where
  persist_manifest-Keeps :
      (now : ℕ) (repository : Repository) (actor : ℕ) (reference : Bytes) (m : ManifestDocument)
      → Keeps {S = S} IsValid (persist_manifest platform now repository actor reference m)
  unfolding persist_manifest persist_transaction point_tag
  persist_manifest-Keeps now repository actor reference m =
      Keeps-bind _ _
        (Keeps-transaction _ (
          Keeps-bind _ _ (Keeps-modify _ (stored now repository.id m)) (λ _.
            Keeps-if (is_digest_reference reference) (pure tt)
              (point_tag platform repository actor reference (Digest.to_string m.digest))
              (λ _. Keeps-pure _)
              (λ _. Keeps-bind _ _ (Keeps-lift _) (λ _. Keeps-bind _ _ (Keeps-gets _) (λ previous.
                Keeps-bind _ _ (Keeps-lift _) (λ _.
                  Keeps-bind _ _
                    (Keeps-modify _ (tagged repository.id reference (Digest.to_string m.digest)))
                    (λ _.
                      Keeps-if (is_same previous (Digest.to_string m.digest)) (pure tt)
                        (modify (
                          insert_tag_event repository.id reference previous
                            (some (Digest.to_string m.digest)) actor))
                        (λ _. Keeps-pure _)
                        (λ _. Keeps-modify _ (
                          recorded repository.id reference previous
                            (some (Digest.to_string m.digest)) actor))))))))))
        (λ _. Keeps-modify _ (
          audited (some actor) "manifest.pushed" (some repository.id) (some "manifest")
            (some (Digest.to_string m.digest))))

  pub put_manifest-Keeps :
      (now : ℕ) (authorized : Authorized) (reference : Bytes) (headers : Headers) (body : Body)
      → Keeps {S = S} IsValid (put_manifest library platform now authorized reference headers body)
  unfolding put_manifest
  put_manifest-Keeps now authorized reference headers body =
      Keeps-bind _ _ (Keeps-lift _) (λ repository. Keeps-bind _ _ (Keeps-lift _) (λ actor.
        Keeps-bind _ _ (Keeps-lift _) (λ bytes. Keeps-bind _ _ (Keeps-lift _) (λ m.
          Keeps-bind _ _ (Keeps-lift _) (λ _. Keeps-bind _ _ (Keeps-gets _) (λ checked.
            Keeps-bind _ _ (Keeps-lift _) (λ _.
              Keeps-bind _ _ (persist_manifest-Keeps now repository actor.id reference m)
                (λ _. Keeps-bind _ _ (Keeps-lift _) (λ response. Keeps-lift _)))))))))

module _ {S : Type 0} where
  pub get_manifest-Keeps :
      (authorized : Authorized) (reference : Bytes) (head_only : Bool)
      → Keeps {S = S} IsValid (get_manifest authorized reference head_only)
  unfolding get_manifest
  get_manifest-Keeps authorized reference head_only = Keeps-bind _ _ (Keeps-lift _) (λ repository.
      Keeps-bind _ _ (Keeps-fetch _ _) (λ row.
        Keeps-bind _ _ (Keeps-lift _)
          (λ typed. Keeps-bind _ _ (Keeps-lift _) (λ sized. Keeps-lift _))))

  pub delete_manifest-Keeps :
      (now : ℕ) (authorized : Authorized) (reference : Bytes)
      → Keeps {S = S} IsValid (delete_manifest now authorized reference)
  unfolding delete_manifest delete_transaction
  delete_manifest-Keeps now authorized reference = Keeps-bind _ _ (Keeps-lift _) (λ repository.
      Keeps-bind _ _ (Keeps-lift _) (λ actor. Keeps-bind _ _ (Keeps-lift _) (λ digest.
        Keeps-bind _ _
          (Keeps-transaction _ (
            Keeps-bind _ _ (Keeps-gets _) (λ changed.
              Keeps-if (not changed) (throw (oci 404 "MANIFEST_UNKNOWN"))
                (modify (unlink_manifest now repository.id (Digest.to_string digest)) >>= λ _.
                  gets (λ db. select (points_to repository.id (Digest.to_string digest)) db.tags)
                  >>= λ named. modify (delete_tags repository.id (Digest.to_string digest)) >>= λ _.
                      modify
                        (deleted_events repository.id actor.id (Digest.to_string digest) named))
                (λ _. Keeps-throw _)
                (λ _.
                  Keeps-bind _ _
                    (Keeps-modify _ (unlinked now repository.id (Digest.to_string digest)))
                    (λ _. Keeps-bind _ _ (Keeps-gets _) (λ named.
                      Keeps-bind _ _
                        (Keeps-modify _ (untagged repository.id (Digest.to_string digest)))
                        (λ _. Keeps-modify _ (
                          all_recorded repository.id actor.id (Digest.to_string digest)
                            named))))))))
          (λ _.
            Keeps-bind _ _
              (Keeps-modify _ (
                audited (some actor.id) "manifest.deleted" (some repository.id) (some "manifest")
                  (some (Digest.to_string digest))))
              (λ _. Keeps-pure _)))))
