-- ===== src/Server/Gc.antt =====
-- crates/jcrd/src/gc.rs, lines 35-146: one pass of the garbage collection.
pub mod Laws
pub mod Spares
use jcr.Prelude.{
  ℕ, zero, suc, ◌+◌, ◌-◌, ◌*◌, ◌/◌, ◌%◌, ◌^◌, ◌≤◌, ◌<◌, String, ◌≡◌, refl, sym, ap, ◌∙◌, ◌≢◌, ◌↔◌,
  ◌⊎◌, inl, inr, Bool, true, false, not, ◌&&◌, ◌||◌, Option, none, some, List, [], ◌∷◌, ◌++◌, map,
  reverse, arith, ltb, leb, ◌==◌, ==_iff, if◌then◌else◌, Bool-cases, Option-cases, &&-eq-true,
  ||-eq-false, length, all, any, is_empty, length-append, all-append, any-append, Bytes, codes,
  bytes_eq, bytes_eq_refl, eq_of_bytes_eq, bytes_eq_iff, Result, ok, err, ok_or, is_ok, to_option,
  map_err, ok-injective, Result-cases, All, All-concat,
}
use jcr.Storage.{BlobStore, StorageUpload, StorageError}
use jcr.Server.Error.{AppError, storage}
use jcr.Server.Database.{Database}
use jcr.Server.Database.Rows.{
  UploadSession, UploadStatus, Blob, BlobStatus, DescriptorEdge, Relationship,
}
use jcr.Server.Database.Tables.{select, update, delete, exists, take, order_by}
use jcr.Server.Exec.{Exec, pure, throw, gets, attempt, call_ignored, modify, ◌>>=◌, ◌>>◌}
use jcr.Server.Access.{is_none}
use jcr.Server.Upload.{Config}
use jcr.Server.Commit.{has_digest, is_committed}

-- `status IN ('uploading', 'finalizing')`
abbrev pub is_open : UploadStatus → Bool
is_open UploadStatus.uploading = true
is_open UploadStatus.finalizing = true
is_open _ = false

unfoldable pub expired_uploads : ℕ → Database → List UploadSession
expired_uploads now db = take 100 (
    order_by (λ u v. leb u.expires_at v.expires_at)
      (select (λ u. is_open u.status && leb u.expires_at now) db.upload_sessions))

unfoldable pub expire_session : ℕ → Database → Database
expire_session id db = record db {
  upload_sessions =
      update (λ u. u.id == id && is_open u.status) (λ u. record u { status = UploadStatus.failed })
        db.upload_sessions;
}

abbrev pub is_content : Relationship → Bool
is_content Relationship.config = true
is_content Relationship.layer = true
is_content _ = false

-- A manifest that some repository has names the digest as its config or a layer.
unfoldable pub is_referenced : Bytes → Database → Bool
is_referenced digest db =
    exists
      (λ e.
        bytes_eq e.child_digest digest
        && (is_content e.relationship
            && exists (λ r. bytes_eq r.digest e.parent_digest && is_none r.deleted_at)
                db.repository_manifests))
      db.descriptor_edges

-- the condition of the two statements
unfoldable pub is_garbage : ℕ → Database → Blob → Bool
is_garbage cutoff db b =
    is_committed b.status && (ltb b.created_at cutoff && not (is_referenced b.digest db))

unfoldable pub garbage_blobs : ℕ → Database → List Blob
garbage_blobs cutoff db =
    take 100
      (order_by (λ b c. leb b.created_at c.created_at) (select (is_garbage cutoff db) db.blobs))

abbrev pub is_claimed : ℕ → Bytes → Database → Blob → Bool
is_claimed cutoff digest db b = has_digest digest b && is_garbage cutoff db b

unfoldable pub claim_blob : ℕ → ℕ → Bytes → Database → Database
claim_blob now cutoff digest db = record db {
  blobs =
      update (is_claimed cutoff digest db)
        (λ b. record b { status = BlobStatus.tombstoned; tombstoned_at = some now }) db.blobs;
}

-- what a failed deletion takes back
unfoldable pub restore_blob : Bytes → Database → Database
restore_blob digest db = record db {
  blobs =
      update (λ b. has_digest digest b && not (is_committed b.status))
        (λ b. record b { status = BlobStatus.committed; tombstoned_at = none }) db.blobs;
}

unfoldable pub unlink_blob : Bytes → Database → Database
unlink_blob digest db = record db {
  repository_blobs = delete (λ r. bytes_eq r.digest digest) db.repository_blobs;
}

module _ {S : Type 0} (store : BlobStore S) where
  -- the loop over the expired uploads
  unfoldable pub expire_uploads : List UploadSession → Exec S (Unit {0})
  expire_uploads [] = pure tt
  expire_uploads (u ∷ uploads) = do
    call_ignored
        (store.abort_upload (record { key = u.object_key; upload_id = u.storage_upload_id }))
    modify (expire_session u.id)
    expire_uploads uploads

  unfoldable pub clean_expired_uploads : ℕ → Exec S (Unit {0})
  clean_expired_uploads now = gets (expired_uploads now) >>= λ uploads. expire_uploads uploads

  abbrev pub after_delete : Bytes → Result StorageError (Unit {0}) → Exec S (Unit {0})
  after_delete digest (err e) = modify (restore_blob digest) >> throw storage
  after_delete digest (ok done) = modify (unlink_blob digest)

  -- one blob, which may be referenced by now
  unfoldable pub collect_blob : ℕ → ℕ → Blob → Exec S (Unit {0})
  collect_blob now cutoff b = do
    claimed ← gets (λ db. exists (is_claimed cutoff b.digest db) db.blobs)
    modify (claim_blob now cutoff b.digest)
    if not claimed
        then pure tt
        else attempt (store.delete b.object_key) >>= λ result. after_delete b.digest result

  unfoldable pub collect_blobs : ℕ → ℕ → List Blob → Exec S (Unit {0})
  collect_blobs now cutoff [] = pure tt
  collect_blobs now cutoff (b ∷ blobs) = do
    collect_blob now cutoff b
    collect_blobs now cutoff blobs

  unfoldable pub clean_unreferenced_blobs : Config → ℕ → Exec S (Unit {0})
  clean_unreferenced_blobs config now = do
    blobs ← gets (garbage_blobs (now - config.gc_grace_days * 86400))
    collect_blobs now (now - config.gc_grace_days * 86400) blobs

  unfoldable pub run_once : Config → ℕ → Exec S (Unit {0})
  run_once config now = do clean_expired_uploads now; clean_unreferenced_blobs config now
