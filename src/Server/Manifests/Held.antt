-- ===== src/Server/Manifests/Held.antt =====
-- The manifests that a repository holds, and what the statements of a push make of them.
use jcr.Prelude.{
  false-true, ℕ, String, ◌≡◌, refl, sym, ◌∙◌, ◌⊎◌, inl, inr, true, ◌&&◌, Option, some, arith, ◌==◌,
  if◌then◌else◌, &&-eq-true, Bytes, bytes_eq, bytes_eq_refl, eq_of_bytes_eq, ok, err, Result-cases,
}
use jcr.Digest
use jcr.Digest.{Digest, digest_eq, sha256}
use jcr.Digest.Laws.{from_str_sound}
use jcr.Manifest.{ManifestDocument}
use jcr.Server.Error.{oci}
use jcr.Server.Types.{Repository, Platform}
use jcr.Server.Database.{Database}
use jcr.Server.Database.Rows.{ManifestRow}
use jcr.Server.Database.Tables.{find, holds_of_find}
use jcr.Server.Database.Tables.Upsert.{any-upsert, find-insert_new}
use jcr.Server.Exec.{World, pure, modify}
use jcr.Server.Exec.Returns.{
  Returns, Returns-mono, Returns-bind, Returns-lift, Returns-gets, Returns-modify, Returns-if,
  Returns-pure, Returns-transaction,
}
use jcr.Server.Commit.{insert_audit}
use jcr.Server.Session.Steps.{eq_refl}
use jcr.Server.Manifests
use jcr.Server.Manifests.{
  manifest_limit, parsed_manifest, check_reference, lookup_manifest, live_row, is_live, is_link,
  tag_digest, store_manifest, set_tag, insert_tag_event, point_tag, persist_transaction,
  persist_manifest, put_manifest, is_digest_reference, unlink_manifest, delete_tags,
  delete_transaction, delete_manifest, by_digest,
}
use jcr.Server.Manifests.Tags.{set_own}

-- A manifest that the repository has, by its digest.
pub record IsHeld (repository_id : ℕ) (digest : Bytes) (db : Database) : Type 0 where
  pub row : ManifestRow
  pub live : is_live repository_id digest db ≡ true
  pub found : find (λ m. bytes_eq m.digest digest) db.manifests ≡ some row

module _ (repository_id : ℕ) (digest : Bytes) where
  pub held_digest : (db : Database) (h : IsHeld repository_id digest db) → h.row.digest ≡ digest
  held_digest db h =
      eq_of_bytes_eq h.row.digest digest
        (holds_of_find (λ m. bytes_eq m.digest digest) db.manifests h.row h.found)

  -- the lookup of the digest
  pub held_row :
      (db : Database) (h : IsHeld repository_id digest db)
      → live_row repository_id db (some digest) ≡ some h.row
  held_row db h = rw h.live h.found

  set_tag-IsHeld :
      (id : ℕ) (name new : Bytes) (db : Database)
      → IsHeld repository_id digest db
      → IsHeld repository_id digest (set_tag id name new db)
  unfolding set_tag is_live
  set_tag-IsHeld id name new db h = record { row = h.row; live = h.live; found = h.found }

  tag_event-IsHeld :
      (id : ℕ) (name : Bytes) (previous new : Option Bytes) (actor : ℕ) (db : Database)
      → IsHeld repository_id digest db
      → IsHeld repository_id digest (insert_tag_event id name previous new actor db)
  unfolding insert_tag_event is_live
  tag_event-IsHeld id name previous new actor db h = record {
    row = h.row;
    live = h.live;
    found = h.found;
  }

  pub audit-IsHeld :
      (actor : Option ℕ) (action : String) (r : Option ℕ) (resource_type : Option String)
      (resource_id : Option Bytes) (db : Database)
      → IsHeld repository_id digest db
      → IsHeld repository_id digest (insert_audit actor action r resource_type resource_id db)
  unfolding insert_audit is_live
  audit-IsHeld actor action r resource_type resource_id db h = record {
    row = h.row;
    live = h.live;
    found = h.found;
  }

store_manifest-IsHeld :
    (now repository_id : ℕ) (m : ManifestDocument) (db : Database)
    → IsHeld repository_id (Digest.to_string m.digest) (store_manifest now repository_id m db)
unfolding store_manifest is_live
store_manifest-IsHeld now repository_id m db =
    let (row, found) =
      find-insert_new (λ r. bytes_eq r.digest (Digest.to_string m.digest))
        (Manifests.manifest_row m) db.manifests (bytes_eq_refl (Digest.to_string m.digest)) in
    record {
      row = row;
      live =
          any-upsert
            (λ r.
              is_link repository_id (Digest.to_string m.digest) r && Manifests.is_none r.deleted_at)
            (is_link repository_id (Digest.to_string m.digest)) _ _ db.repository_manifests
            (own repository_id (Digest.to_string m.digest)) (λ a e. rw e refl);
      found = found;
    }
  where
    own : (k : ℕ) (s : Bytes) → (k == k && bytes_eq s s) && true ≡ true
    own k s = rw (eq_refl k, bytes_eq_refl s)

-- where the tag of a push leads
abbrev pub Leads : ℕ → Bytes → Bytes → Database → Type 0
Leads repository_id reference digest db =
    (is_digest_reference reference ≡ true) ⊎ (tag_digest repository_id reference db ≡ some digest)

tag_event-leads :
    (repository_id : ℕ) (reference digest : Bytes) (id : ℕ) (name : Bytes)
    (previous new : Option Bytes) (actor : ℕ) (db : Database)
    → tag_digest repository_id reference db ≡ some digest
    → tag_digest repository_id reference (insert_tag_event id name previous new actor db)
      ≡ some digest
unfolding insert_tag_event tag_digest
tag_event-leads repository_id reference digest id name previous new actor db h = h

audit-Leads :
    (repository_id : ℕ) (reference digest : Bytes) (actor : Option ℕ) (action : String)
    (r : Option ℕ) (resource_type : Option String) (resource_id : Option Bytes) (db : Database)
    → Leads repository_id reference digest db
    → Leads repository_id reference digest
        (insert_audit actor action r resource_type resource_id db)
unfolding insert_audit tag_digest
audit-Leads repository_id reference digest actor action r resource_type resource_id db h = h

abbrev pub Pushed : Repository → Bytes → ManifestDocument → Database → Type 0
Pushed repository reference m db =
    IsHeld repository.id (Digest.to_string m.digest) db
    × Leads repository.id reference (Digest.to_string m.digest) db

module _ {S : Type 0} (platform : Platform) where
  persist_transaction-Pushed :
      (now : ℕ) (repository : Repository) (actor : ℕ) (reference : Bytes) (m : ManifestDocument)
      (w : World S)
      → Returns
          (persist_transaction platform now repository actor reference m)
          w
          (λ _ w'. Pushed repository reference m w'.db)
  unfolding persist_transaction point_tag
  persist_transaction-Pushed now repository actor reference m w =
      let digest = Digest.to_string m.digest in
      let kept = store_manifest now repository.id m w.db in
      let held = store_manifest-IsHeld now repository.id m w.db in
      let set = set_tag repository.id reference digest kept in
      let set_held = set_tag-IsHeld repository.id digest repository.id reference digest kept held in
      let leads = set_own repository.id reference digest digest kept in
      let previous = tag_digest repository.id reference kept in
      Returns-bind _ _ _ _ (
        Returns-modify _ _ _ (
          Returns-if (is_digest_reference reference) (pure tt)
            (point_tag platform repository actor reference digest) _ _
            (λ e. Returns-pure _ _ _ (held, inl e))
            (λ _. Returns-bind _ _ _ _ (
              Returns-lift _ _ _ (λ _ valid. Returns-bind _ _ _ _ (
                Returns-gets _ _ _ (
                  Returns-bind _ _ _ _ (
                    Returns-lift _ _ _ (λ _ checked. Returns-bind _ _ _ _ (
                      Returns-modify _ _ _ (
                        Returns-if (Manifests.is_same previous digest) (pure tt)
                          (modify
                            (insert_tag_event repository.id reference previous (some digest) actor))
                          _ _ (λ _. Returns-pure _ _ _ (set_held, inr leads))
                          (λ _. Returns-modify _ _ _ (
                            tag_event-IsHeld repository.id digest repository.id reference previous
                                (some digest) actor set set_held,
                            inr (
                                tag_event-leads repository.id reference digest repository.id
                                  reference previous (some digest) actor set leads),
                          )))))))))))))

  pub persist_manifest-Pushed :
      (now : ℕ) (repository : Repository) (actor : ℕ) (reference : Bytes) (m : ManifestDocument)
      (w : World S)
      → Returns
          (persist_manifest platform now repository actor reference m)
          w
          (λ _ w'. Pushed repository reference m w'.db)
  unfolding persist_manifest
  persist_manifest-Pushed now repository actor reference m w = Returns-bind _ _ _ _ (
      Returns-mono _ _ _ _
        (Returns-transaction _ _ _ (persist_transaction-Pushed now repository actor reference m w))
        (λ _ w1 (held, leads). Returns-modify _ _ _ (
          audit-IsHeld repository.id (Digest.to_string m.digest) (some actor) "manifest.pushed"
              (some repository.id) (some "manifest") (some (Digest.to_string m.digest)) w1.db held,
          audit-Leads repository.id reference (Digest.to_string m.digest) (some actor)
              "manifest.pushed" (some repository.id) (some "manifest")
              (some (Digest.to_string m.digest)) w1.db leads,
        )))

-- A reference that is a digest and passes the check is the text of the manifest's digest.
pub checked_reference :
    (reference : Bytes) (actual : Digest)
    → is_digest_reference reference ≡ true
    → check_reference reference actual ≡ ok tt
    → reference ≡ Digest.to_string actual
unfolding check_reference digest_eq Digest.to_string
checked_reference reference actual e h = elim (Result-cases (Digest.from_str reference)) [
  | inr (x, failed) ↦ absurd (false-true (rw failed at e))
  | inl (d, parsed) ↦
      sym (from_str_sound reference d parsed).0
      ∙ same_text d actual (passed d (rw (parsed, check_reference) at h))
]
  where
    passed :
        (d : Digest)
        → (if digest_eq d actual then ok tt else err (oci 400 "DIGEST_INVALID")) ≡ ok tt
        → digest_eq d actual ≡ true
    passed d h = ground arith

    same_text : (d a : Digest) → digest_eq d a ≡ true → Digest.to_string d ≡ Digest.to_string a
    same_text d a h =
        let (algorithm, encoded) =
          &&-eq-true (bytes_eq d.algorithm a.algorithm) (bytes_eq d.encoded a.encoded) h in
        rw (
          eq_of_bytes_eq d.algorithm a.algorithm algorithm,
          eq_of_bytes_eq d.encoded a.encoded encoded,
        )
