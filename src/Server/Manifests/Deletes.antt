-- ===== src/Server/Manifests/Deletes.antt =====
-- registry.rs, delete_manifest, and lookups after it.
use jcr.Prelude.{
  true-false, err-ok, none-some, ℕ, String, ◌≡◌, refl, sym, ap, ◌∙◌, ◌≢◌, inl, inr, Bool, true,
  false, not, ◌&&◌, Option, none, some, List, [], ◌∷◌, arith, Bool-cases, Bytes, bytes_eq,
  eq_of_bytes_eq, ok, is_ok, ok-injective, Result-cases,
}
use mathlib.Core.Path.{subst}
use jcr.Digest
use jcr.Digest.{Digest, digest_eq, sha256}
use jcr.Digest.Laws.{from_str_sound}
use jcr.Server.Error.{oci}
use jcr.Server.Types.{User, Repository, require_repository}
use jcr.Server.Database.{Database}
use jcr.Server.Database.Rows.{ManifestRow, Tag}
use jcr.Server.Database.Tables.{select, holds_of_find}
use jcr.Server.Database.Tables.Upsert.{none-update}
use jcr.Server.Exec.{World, modify, gets, throw, ◌>>=◌}
use jcr.Server.Exec.Returns.{
  Returns, returned_ok, Returns-mono, Returns-bind, Returns-lift, Returns-gets, Returns-modify,
  Returns-if, Returns-pure, Returns-throw, Returns-transaction,
}
use jcr.Server.Commit.{insert_audit}
use jcr.Server.Manifests
use jcr.Server.Manifests.{
  manifest_limit, parsed_manifest, check_reference, lookup_manifest, live_row, is_live, is_link,
  tag_digest, store_manifest, set_tag, insert_tag_event, point_tag, persist_transaction,
  persist_manifest, put_manifest, is_digest_reference, points_to, deleted_events, unlink_manifest,
  delete_tags, delete_transaction, delete_manifest, by_digest,
}
use jcr.Server.Manifests.Resolves.{required_same}

by_digest_text :
    (reference : Bytes) (d : Digest)
    → by_digest (Digest.from_str reference) ≡ ok d
    → Digest.to_string d ≡ reference
by_digest_text reference d h = elim (Result-cases (Digest.from_str reference)) [
  | inr (x, failed) ↦ absurd (err-ok (rw failed at h))
  | inl (p, parsed) ↦
      (from_str_sound reference d (parsed ∙ ap ok (ok-injective (rw parsed at h)))).0
]

-- A deletion, row by row.
unlinked :
    (now repository_id : ℕ) (digest : Bytes) (db : Database)
    → is_live repository_id digest (unlink_manifest now repository_id digest db) ≡ false
unfolding unlink_manifest is_live
unlinked now repository_id digest db =
    none-update (λ r. is_link repository_id digest r && Manifests.is_none r.deleted_at)
      (λ r. record r { deleted_at = some now }) db.repository_manifests
      (λ r. and_false (is_link repository_id digest r))
  where
    and_false : (b : Bool) → b && false ≡ false
    and_false b = ground arith

events-live :
    (repository_id id actor : ℕ) (digest d : Bytes) (tags : List Tag) (db : Database)
    → is_live repository_id digest (Manifests.deleted_events id actor d tags db)
      ≡ is_live repository_id digest db
unfolding is_live insert_tag_event
events-live repository_id id actor digest d [] db = refl
events-live repository_id id actor digest d (t ∷ tags) db =
    events-live repository_id id actor digest d tags
      (insert_tag_event id t.name (some d) none actor db)

tags-live :
    (repository_id id : ℕ) (digest d : Bytes) (db : Database)
    → is_live repository_id digest (delete_tags id d db) ≡ is_live repository_id digest db
unfolding is_live delete_tags
tags-live repository_id id digest d db = refl

audit-live :
    (repository_id : ℕ) (digest : Bytes) (actor : Option ℕ) (action : String) (r : Option ℕ)
    (resource_type : Option String) (resource_id : Option Bytes) (db : Database)
    → is_live repository_id digest (insert_audit actor action r resource_type resource_id db)
      ≡ is_live repository_id digest db
unfolding is_live insert_audit
audit-live repository_id digest actor action r resource_type resource_id db = refl

-- What is not live is not found, under any reference.
live_row-other :
    (repository_id : ℕ) (digest : Bytes) (o : Option Bytes) (db : Database) (row : ManifestRow)
    → is_live repository_id digest db ≡ false
    → live_row repository_id db o ≡ some row
    → row.digest ≢ digest
live_row-other repository_id digest none db row dead h same = none-some h
live_row-other repository_id digest (some d) db row dead h same =
    elim (Bool-cases (is_live repository_id d db)) [
      | inr e ↦ none-some (rw e at h)
      | inl e ↦
          let of_row =
            eq_of_bytes_eq row.digest d
              (holds_of_find (λ m. bytes_eq m.digest d) db.manifests row (rw e at h)) in
          true-false
            (sym (subst (λ x. is_live repository_id x db ≡ true) (sym of_row ∙ same) e) ∙ dead)
    ]

module _ {S : Type 0} where
  delete_transaction-Returns :
      (now repository_id actor : ℕ) (digest : Bytes) (w : World S)
      → Returns
          (delete_transaction now repository_id actor digest)
          w
          (λ _ w'. is_live repository_id digest w'.db ≡ false)
  unfolding delete_transaction unlink_manifest
  delete_transaction-Returns now repository_id actor digest w = Returns-bind _ _ _ _ (
      Returns-gets _ _ _ (
        Returns-if (not (is_live repository_id digest w.db)) (throw (oci 404 "MANIFEST_UNKNOWN"))
          (modify (unlink_manifest now repository_id digest) >>= λ _.
            gets (λ db. select (points_to repository_id digest) db.tags) >>= λ tags.
            modify (delete_tags repository_id digest) >>= λ _.
            modify (deleted_events repository_id actor digest tags))
          _ _ (λ _. Returns-throw _ _ _)
          (λ _. Returns-bind _ _ _ _ (
            Returns-modify _ _ _ (
              Returns-bind _ _ _ _ (
                Returns-gets _ _ _ (
                  Returns-bind _ _ _ _ (
                    Returns-modify _ _ _ (
                      Returns-modify _ _ _ (
                        events-live repository_id repository_id actor digest digest
                          (select (points_to repository_id digest) w.db.tags) _
                        ∙ tags-live repository_id repository_id digest digest
                            (unlink_manifest now repository_id digest w.db)
                        ∙ unlinked now repository_id digest w.db))))))))))

  delete_manifest-Returns :
      (now : ℕ) (user : Option User) (repository : Repository) (reference : Bytes) (w : World S)
      → Returns
          (delete_manifest now (record { repository = some repository; user = user }) reference)
          w
          (λ _ w'. is_live repository.id reference w'.db ≡ false)
  unfolding delete_manifest
  delete_manifest-Returns now user repository reference w = Returns-bind _ _ _ _ (
      Returns-lift _ _ _ (λ r required. Returns-bind _ _ _ _ (
        Returns-lift _ _ _ (λ actor _. Returns-bind _ _ _ _ (
          Returns-lift _ _ _ (λ digest parsed. Returns-bind _ _ _ _ (
            Returns-mono _ _ _ _
              (Returns-transaction _ _ _
                (delete_transaction-Returns now r.id actor.id (Digest.to_string digest) w))
              (λ _ w1 dead. Returns-bind _ _ _ _ (
                Returns-modify _ _ _
                  (Returns-pure _ _ _ (gone r digest required parsed actor w1.db dead)))))))))))
    where
      gone :
          (r : Repository) (digest : Digest)
          → require_repository (some repository) ≡ ok r
          → by_digest (Digest.from_str reference) ≡ ok digest
          → (actor : User) (db : Database) → is_live r.id (Digest.to_string digest) db ≡ false
          → is_live repository.id reference (
              insert_audit
                (some actor.id)
                "manifest.deleted"
                (some r.id)
                (some "manifest")
                (some (Digest.to_string digest))
                db)
            ≡ false
      gone r digest required parsed actor db dead =
          audit-live repository.id reference (some actor.id) "manifest.deleted" (some r.id)
            (some "manifest") (some (Digest.to_string digest)) db
          ∙ subst (λ x. is_live x.id reference db ≡ false) (required_same repository r required)
              (subst (λ x. is_live r.id x db ≡ false) (by_digest_text reference digest parsed) dead)

  -- A deletion that is answered without an error leaves none-some of the digest to be found: whatever reference is
  -- looked up in the repository, a tag or a digest, no manifest with the deleted digest is found.
  pub delete_manifest-unresolved :
      (now : ℕ) (user : Option User) (repository : Repository) (reference name : Bytes)
      (row : ManifestRow) (w : World S)
      → is_ok
          (delete_manifest now (record { repository = some repository; user = user }) reference w).0
        ≡ true
      → lookup_manifest repository.id name
          (delete_manifest now
            (record { repository = some repository; user = user })
            reference
            w).1.db
        ≡ some row
      → row.digest ≢ reference
  unfolding lookup_manifest
  delete_manifest-unresolved now user repository reference name row w h found =
      let dead =
        returned_ok
          (delete_manifest now (record { repository = some repository; user = user }) reference) w
          (λ db. is_live repository.id reference db ≡ false)
          (delete_manifest-Returns now user repository reference w) h in
      elim (Bool-cases (is_digest_reference name)) [
        | inl e ↦
            live_row-other repository.id reference (some name) _ row dead
              (rw (e, lookup_manifest) at found)
        | inr e ↦
            live_row-other repository.id reference _ _ row dead (rw (e, lookup_manifest) at found)
      ]
