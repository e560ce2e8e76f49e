-- ===== src/Server/Manifests/Tags.antt =====
-- registry.rs, persist_manifest: immutable tags.
use jcr.Prelude.{
  err-ok, ℕ, String, ◌≡◌, refl, sym, inl, inr, Bool, true, false, ◌&&◌, Option, none, some, arith,
  ◌==◌, Bool-cases, &&-eq-true, Bytes, bytes_eq, bytes_eq_refl, eq_of_bytes_eq, ok,
}
use mathlib.Core.Path.{subst}
use jcr.Digest
use jcr.Digest.{Digest}
use jcr.Manifest.{Json, ManifestDocument}
use jcr.Server.Types.{User, Repository, Headers, Body, Platform, require_repository}
use jcr.Server.Database.{Database}
use jcr.Server.Database.Rows.{Tag}
use jcr.Server.Database.Tables.{find}
use jcr.Server.Database.Tables.Upsert.{upserted, find-upsert, find-upsert_other}
use jcr.Server.Session.Steps.{eq_refl}
use jcr.Server.Exec.{World, pure, modify}
use jcr.Server.Exec.Returns.{
  Returns, Returns-bind, Returns-lift, Returns-gets, Returns-modify, Returns-if, Returns-pure,
  Keeps-committed,
}
use jcr.Server.Exec.Keeps.{Keeps, Keeps-bind, Keeps-lift, Keeps-gets, Keeps-modify, Keeps-ok}
use jcr.Server.Commit.{insert_audit}
use jcr.Server.Manifests
use jcr.Server.Manifests.{
  is_tag, tag_digest, store_manifest, set_tag, insert_tag_event, check_immutable, point_tag,
  persist_transaction, persist_manifest, put_manifest, is_digest_reference,
}

-- A tag points to a digest.
abbrev pub PointsTo : ℕ → Bytes → Bytes → Database → Type 0
PointsTo repository_id name digest db = tag_digest repository_id name db ≡ some digest

module _ (repository_id : ℕ) (name digest : Bytes) where
  stored :
      (now id : ℕ) (m : ManifestDocument) (db : Database)
      → PointsTo repository_id name digest db
      → PointsTo repository_id name digest (store_manifest now id m db)
  unfolding store_manifest tag_digest
  stored now id m db h = h

  audited :
      (actor : Option ℕ) (action : String) (r : Option ℕ) (resource_type : Option String)
      (resource_id : Option Bytes) (db : Database)
      → PointsTo repository_id name digest db
      → PointsTo repository_id name digest
          (insert_audit actor action r resource_type resource_id db)
  unfolding insert_audit tag_digest
  audited actor action r resource_type resource_id db h = h

  recorded :
      (id : ℕ) (tag : Bytes) (previous new : Option Bytes) (actor : ℕ) (db : Database)
      → PointsTo repository_id name digest db
      → PointsTo repository_id name digest (insert_tag_event id tag previous new actor db)
  unfolding insert_tag_event tag_digest
  recorded id tag previous new actor db h = h

  apart :
      (k : ℕ) (n reference : Bytes)
      → bytes_eq reference name ≡ false
      → is_tag repository_id reference
          (record { repository_id = k; name = n; manifest_digest = digest })
        ≡ true
      → k == repository_id && bytes_eq n name ≡ false
  apart k n reference other h =
      let (same_repository, same_name) = &&-eq-true (k == repository_id) (bytes_eq n reference) h in
      rw (eq_of_bytes_eq n reference same_name, other) (and_false (k == repository_id))
    where
      and_false : (b : Bool) → b && false ≡ false
      and_false b = ground arith

  -- Setting another tag leaves it,
  set_other :
      (reference new : Bytes) (db : Database)
      → bytes_eq reference name ≡ false
      → PointsTo repository_id name digest db
      → PointsTo repository_id name digest (set_tag repository_id reference new db)
  unfolding set_tag tag_digest
  set_other reference new db n h =
      rw
        (find-upsert_other (is_tag repository_id name) (is_tag repository_id reference)
          (record { repository_id = repository_id; name = reference; manifest_digest = new })
          (λ t. record t { manifest_digest = new }) db.tags
          (apart repository_id reference reference n (own repository_id reference))
          (λ t e. (
            apart t.repository_id t.name reference n e,
            apart t.repository_id t.name reference n e,
          )))
        h
    where
      own : (k : ℕ) (s : Bytes) → k == k && bytes_eq s s ≡ true
      own k s = rw (eq_refl k, bytes_eq_refl s)

  -- and setting it makes it point to the new digest.
  pub set_own :
      (new : Bytes) (db : Database)
      → PointsTo repository_id name new (set_tag repository_id name new db)
  unfolding set_tag tag_digest
  set_own new db =
      rw
        (find-upsert (is_tag repository_id name)
          (record { repository_id = repository_id; name = name; manifest_digest = new })
          (λ t. record t { manifest_digest = new }) db.tags (own repository_id name) (λ t. refl))
        (pointed (find (is_tag repository_id name) db.tags))
    where
      own : (k : ℕ) (s : Bytes) → k == k && bytes_eq s s ≡ true
      own k s = rw (eq_refl k, bytes_eq_refl s)

      pointed :
          (o : Option Tag)
          → Manifests.digest_of_tag (
              some (
                upserted
                  (record { repository_id = repository_id; name = name; manifest_digest = new })
                  (λ t. record t { manifest_digest = new })
                  o))
            ≡ some new
      pointed none = refl
      pointed (some t) = refl

module _ (platform : Platform) (repository : Repository) (pattern name digest : Bytes)
    (immutable : repository.immutable_tag_pattern ≡ some pattern)
    (matches : platform.regex_match pattern name ≡ some true) where
  -- A check that is passed for this tag, which points to a digest, has the same digest.
  check_same :
      (new : Bytes)
      → check_immutable platform repository.immutable_tag_pattern name (some digest) new ≡ ok tt
      → digest ≡ new
  unfolding check_immutable
  check_same new h = elim (Bool-cases (bytes_eq digest new)) [
    | inl same ↦ eq_of_bytes_eq digest new same
    | inr other ↦ absurd (err-ok (rw (immutable, other, check_immutable, matches) at h))
  ]

  own_tag :
      (reference new : Bytes) (db : Database)
      → reference ≡ name
      → PointsTo repository.id name digest db
      → check_immutable platform repository.immutable_tag_pattern reference
          (tag_digest repository.id reference db)
          new
        ≡ ok tt
      → PointsTo repository.id name digest (set_tag repository.id reference new db)
  own_tag reference new db e h checked =
      let named =
        subst
          (λ r.
            check_immutable platform repository.immutable_tag_pattern r
              (tag_digest repository.id r db) new
            ≡ ok tt)
          e checked in
      let found =
        subst (λ o. check_immutable platform repository.immutable_tag_pattern name o new ≡ ok tt) h
          named in
      subst (λ d. PointsTo repository.id name d (set_tag repository.id reference new db))
        (sym (check_same new found))
        (subst (λ r. PointsTo repository.id name new (set_tag repository.id r new db)) (sym e)
          (set_own repository.id name digest new db))

  module _ {S : Type 0} where
    point_tag-PointsTo :
        (actor : ℕ) (reference new : Bytes) (w : World S)
        → PointsTo repository.id name digest w.db
        → Returns
            (point_tag platform repository actor reference new)
            w
            (λ _ w'. PointsTo repository.id name digest w'.db)
    unfolding point_tag
    point_tag-PointsTo actor reference new w h = Returns-bind _ _ _ _ (
        Returns-lift _ _ _ (λ _ valid. Returns-bind _ _ _ _ (
          Returns-gets _ _ _ (
            Returns-bind _ _ _ _ (
              Returns-lift _ _ _ (λ _ checked. Returns-bind _ _ _ _ (
                Returns-modify _ _ _ (
                  Returns-if (Manifests.is_same (tag_digest repository.id reference w.db) new)
                    (pure tt)
                    (modify (
                      insert_tag_event repository.id reference
                        (tag_digest repository.id reference w.db) (some new) actor))
                    _ _ (λ _. Returns-pure _ _ _ (kept checked))
                    (λ _. Returns-modify _ _ _ (
                      recorded repository.id name digest repository.id reference _ (some new) actor
                        _ (kept checked)))))))))))
      where
        kept :
            check_immutable platform repository.immutable_tag_pattern reference
                (tag_digest repository.id reference w.db)
                new
              ≡ ok tt
            → PointsTo repository.id name digest (set_tag repository.id reference new w.db)
        kept checked = elim (Bool-cases (bytes_eq reference name)) [
          | inr other ↦ set_other repository.id name digest reference new w.db other h
          | inl same ↦ own_tag reference new w.db (eq_of_bytes_eq reference name same) h checked
        ]

    persist_transaction-PointsTo :
        (now actor : ℕ) (reference : Bytes) (m : ManifestDocument) (w : World S)
        → PointsTo repository.id name digest w.db
        → Returns
            (persist_transaction platform now repository actor reference m)
            w
            (λ _ w'. PointsTo repository.id name digest w'.db)
    unfolding persist_transaction
    persist_transaction-PointsTo now actor reference m w h = Returns-bind _ _ _ _ (
        Returns-modify _ _ _ (
          Returns-if (is_digest_reference reference) (pure tt)
            (point_tag platform repository actor reference (Digest.to_string m.digest)) _ _
            (λ _. Returns-pure _ _ _ (stored repository.id name digest now repository.id m w.db h))
            (λ _.
              point_tag-PointsTo actor reference (Digest.to_string m.digest) _
                (stored repository.id name digest now repository.id m w.db h))))

    persist_manifest-PointsTo :
        (now actor : ℕ) (reference : Bytes) (m : ManifestDocument)
        → Keeps
            (PointsTo repository.id name digest)
            (persist_manifest {S = S} platform now repository actor reference m)
    unfolding persist_manifest
    persist_manifest-PointsTo now actor reference m =
        Keeps-bind _ _
          (Keeps-committed _ (λ w h. persist_transaction-PointsTo now actor reference m w h))
          (λ _. Keeps-modify _ (
            audited repository.id name digest (some actor) "manifest.pushed" (some repository.id)
              (some "manifest") (some (Digest.to_string m.digest))))

  module _ {S Value : Type 0} (library : Json Value) where
    put_manifest-Keeps :
        (now : ℕ) (user : Option User) (reference : Bytes) (headers : Headers) (body : Body)
        → Keeps (PointsTo repository.id name digest) (
            put_manifest {S = S} library platform now
              (record { repository = some repository; user = user })
              reference
              headers
              body)
    unfolding put_manifest require_repository
    put_manifest-Keeps now user reference headers body = Keeps-ok repository _ (
        Keeps-bind _ _ (Keeps-lift _) (λ actor. Keeps-bind _ _ (Keeps-lift _) (λ bytes.
          Keeps-bind _ _ (Keeps-lift _) (λ m. Keeps-bind _ _ (Keeps-lift _) (λ _.
            Keeps-bind _ _ (Keeps-gets _) (λ checked. Keeps-bind _ _ (Keeps-lift _) (λ _.
              Keeps-bind _ _ (persist_manifest-PointsTo now actor.id reference m)
                (λ _. Keeps-bind _ _ (Keeps-lift _) (λ _. Keeps-lift _)))))))))

-- A push never moves an immutable tag: a tag that matches the repository's pattern points to the same digest after
-- any push to the repository, under whatever reference and whether it is answered or fails.
pub put_manifest-immutable :
    {S Value : Type 0} (library : Json Value) (platform : Platform) (repository : Repository)
    (pattern name digest : Bytes) (now : ℕ) (user : Option User) (reference : Bytes)
    (headers : Headers) (body : Body) (w : World S)
    → repository.immutable_tag_pattern ≡ some pattern
    → platform.regex_match pattern name ≡ some true
    → tag_digest repository.id name w.db ≡ some digest
    → tag_digest repository.id name
        (put_manifest library platform now
          (record { repository = some repository; user = user })
          reference
          headers
          body
          w).1.db
      ≡ some digest
put_manifest-immutable library platform repository pattern name digest now user reference headers
      body w immutable matches h =
    (put_manifest-Keeps platform repository pattern name digest immutable matches library now user
        reference headers body).at
      w h
