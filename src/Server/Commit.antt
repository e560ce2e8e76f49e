-- ===== src/Server/Commit.antt =====
-- crates/jcrd/src/registry.rs, lines 598-725 and 1342-1461: the completion of an upload.
pub mod Rows
pub mod Keys
pub mod Runs
pub mod Hashing
pub mod Laws
pub mod Sessions
use jcr.Prelude.{
  ℕ, zero, suc, ◌+◌, ◌-◌, ◌*◌, ◌/◌, ◌%◌, ◌^◌, ◌≤◌, ◌<◌, String, ◌≡◌, refl, sym, ap, ◌∙◌, ◌≢◌, ◌↔◌,
  ◌⊎◌, inl, inr, Bool, true, false, not, ◌&&◌, ◌||◌, Option, none, some, List, [], ◌∷◌, ◌++◌, map,
  reverse, arith, ltb, leb, ◌==◌, ==_iff, if◌then◌else◌, Bool-cases, Option-cases, &&-eq-true,
  ||-eq-false, length, all, any, is_empty, length-append, all-append, any-append, Bytes, codes,
  bytes_eq, bytes_eq_refl, eq_of_bytes_eq, bytes_eq_iff, Result, ok, err, ok_or, is_ok, to_option,
  map_err, ok-injective, Result-cases, All, All-concat,
}
use jcr.Digest
use jcr.Digest.{Digest, digest_eq, sha256}
use jcr.Storage.{BlobStore, CompletedPart, StorageUpload, StorageError}
use jcr.Server.Error.{AppError, oci, database, payload_too_large, storage}
use jcr.Server.Types.{
  User, Repository, full_name, Authorized, Headers, HeaderValue, HeaderName, Query, Body, Response,
  Platform, registry_response, read_body, require_repository, insert_header, location,
  docker_content_digest,
}
use jcr.Server.Database.{Database}
use jcr.Server.Database.Rows.{
  Blob, BlobStatus, RepositoryBlob, UploadStatus, UploadSession, AuditEvent,
}
use jcr.Server.Database.Tables.{find, update, exists, insert, insert_new, upsert}
use jcr.Server.Exec.{
  World, Exec, pure, throw, lift, gets, fetch, call, transaction, modify, execute, ◌>>=◌, ◌>>◌,
}
use jcr.Server.Range.{validate_content_range}
use jcr.Server.Session.{
  UploadRecord, fetch_upload, validate_upload, upload_unknown, persist_part, storage_upload,
  set_status, upload_parts, max_bigint,
}
use jcr.Server.Upload.{Config, check_chunk, parse_upload_id}

abbrev pub digest_invalid : AppError
digest_invalid = oci 400 "DIGEST_INVALID"

abbrev pub parsed_digest : {E : Type 0} → Result E Digest → Result AppError Digest
parsed_digest (ok d) = ok d
parsed_digest (err e) = err digest_invalid

abbrev pub expected_digest : Query → Result AppError Digest
expected_digest query = elim query.digest [
  | none ↦ err digest_invalid
  | some text ↦ parsed_digest (Digest.from_str text)
]

abbrev pub is_committed : BlobStatus → Bool
is_committed BlobStatus.committed = true
is_committed BlobStatus.tombstoned = false

-- The loop of `hash_stored_blob`: the size so far, the bytes hashed so far, the chunks to come.
unfoldable pub collect_chunks :
    ℕ → Bytes → List (Result StorageError Bytes) → Result AppError (Bytes × ℕ)
collect_chunks size seen [] = ok (seen, size)
collect_chunks size seen (err e ∷ chunks) = err storage
collect_chunks size seen (ok chunk ∷ chunks) =
    let rest = collect_chunks (size + length chunk) (seen ++ chunk) chunks in
    if ltb max_bigint (size + length chunk) then err payload_too_large else rest

abbrev pub digest_of : (Bytes → Bytes) → Result AppError (Bytes × ℕ) → Result AppError (Digest × ℕ)
digest_of hex_sha256 (ok (bytes, size)) = ok (sha256 hex_sha256 bytes, size)
digest_of hex_sha256 (err e) = err e

-- `hash_stored_blob`, on the chunks of the stream
unfoldable pub hash_chunks :
    (Bytes → Bytes) → List (Result StorageError Bytes) → Result AppError (Digest × ℕ)
unfolding collect_chunks sha256
hash_chunks hex_sha256 chunks = digest_of hex_sha256 (collect_chunks 0 [] chunks)

abbrev pub has_digest : Bytes → Blob → Bool
has_digest digest b = bytes_eq b.digest digest

-- `WHERE digest = $1 AND status = 'committed'`
abbrev key_of : Option Blob → Option Bytes
key_of none = none
key_of (some b) = some b.object_key

unfoldable pub committed_key : Bytes → Database → Option Bytes
committed_key digest db = key_of (find (λ b. has_digest digest b && is_committed b.status) db.blobs)

unfoldable pub tombstone : ℕ → Bytes → Bytes → Database → Database
tombstone now digest object_key db = record db {
  blobs =
      update
        (λ b. has_digest digest b && (bytes_eq b.object_key object_key && is_committed b.status))
        (λ b. record b { status = BlobStatus.tombstoned; tombstoned_at = some now }) db.blobs;
}

-- what the conflict clause makes of the row that is there
unfoldable pub merge_blob : ℕ → Bytes → Blob → Blob
merge_blob size object_key b = record b {
  size = if is_committed b.status then b.size else size;
  object_key = if is_committed b.status then b.object_key else object_key;
  status = BlobStatus.committed;
  tombstoned_at = none;
}

abbrev new_blob : ℕ → Bytes → ℕ → Bytes → Blob
new_blob now digest size object_key = record {
  digest = digest;
  size = size;
  object_key = object_key;
  status = BlobStatus.committed;
  created_at = now;
  tombstoned_at = none;
}

-- The unique object keys refuse a key that another blob has, where the statement sets the key.
unfoldable pub is_key_taken : Bytes → Bytes → Database → Bool
is_key_taken object_key digest db =
    exists (λ b. bytes_eq b.object_key object_key && not (has_digest digest b)) db.blobs
    && not (exists (λ b. has_digest digest b && is_committed b.status) db.blobs)

abbrev is_duplicate : Bytes → Option Blob → Bool
is_duplicate object_key none = false
is_duplicate object_key (some b) = is_committed b.status && not (bytes_eq b.object_key object_key)

-- the three statements of `commit_blob`
unfoldable pub committed_rows : ℕ → ℕ → ℕ → Bytes → Bytes → ℕ → Database → Database
unfolding merge_blob
committed_rows now repository_id upload_id object_key digest size db = record db {
  blobs =
      upsert (has_digest digest) (new_blob now digest size object_key) (merge_blob size object_key)
        db.blobs;
  repository_blobs =
      insert_new (λ r. r.repository_id == repository_id && bytes_eq r.digest digest)
        (record { repository_id = repository_id; digest = digest }) db.repository_blobs;
  upload_sessions =
      update (λ u. u.id == upload_id)
        (λ u. record u { status = UploadStatus.committed; accepted_offset = size })
        db.upload_sessions;
}

unfoldable pub commit_statements : ℕ → ℕ → ℕ → Bytes → Bytes → ℕ → Database → Option Database
commit_statements now repository_id upload_id object_key digest size db =
    if is_key_taken object_key digest db
    then none
    else some (committed_rows now repository_id upload_id object_key digest size db)

abbrev pub user_id : Option User → Option ℕ
user_id none = none
user_id (some u) = some u.id

-- `db::insert_audit`
unfoldable pub insert_audit :
    Option ℕ → String → Option ℕ → Option String → Option Bytes → Database → Database
insert_audit actor action repository_id resource_type resource_id db = record db {
  audit_events =
      insert
        (record {
          actor_user_id = actor;
          action = action;
          repository_id = repository_id;
          resource_type = resource_type;
          resource_id = resource_id;
        })
        db.audit_events;
}

module _ {S : Type 0} where
  unfoldable pub commit_blob : ℕ → ℕ → ℕ → Bytes → Bytes → ℕ → Exec S Bool
  commit_blob now repository_id upload_id object_key digest size = transaction (do
    duplicate ← gets (λ db. is_duplicate object_key (find (has_digest digest) db.blobs))
    execute (commit_statements now repository_id upload_id object_key digest size)
    pure duplicate)

module _ {S : Type 0} (store : BlobStore S) (platform : Platform) where
  -- the transaction at the start: the last chunk, where the body has one, and the change of the status
  unfoldable pub begin_completion : ℕ → ℕ → ℕ → HeaderValue → Bytes → Exec S UploadRecord
  begin_completion now repository_id id content_range final_bytes = do
    upload ← fetch (fetch_upload repository_id id) upload_unknown
    lift (validate_upload now upload)
    lift (validate_content_range content_range upload.session.accepted_offset (length final_bytes))
    if is_empty final_bytes then pure tt else do
      lift (check_chunk upload.session.uniform_part_size upload.last_part_size (length final_bytes))
      completed ←
          call
            (store.upload_part (storage_upload upload) upload.session.next_part_number final_bytes)
      execute (persist_part upload completed false)
    modify (set_status id UploadStatus.finalizing)
    pure upload

  -- the object behind the parts; an upload with no part is an empty object
  unfoldable pub assemble : UploadRecord → List CompletedPart → Exec S (Unit {0})
  assemble upload parts =
      if is_empty parts
      then (do
        call (store.abort_upload (storage_upload upload))
        call (store.put upload.session.object_key []))
      else call (store.complete_upload (storage_upload upload) parts)

  unfoldable pub hash_stored_blob : Bytes → Exec S (Digest × ℕ)
  hash_stored_blob key = do
    chunks ← call (store.stream key)
    lift (hash_chunks platform.hex_sha256 chunks)

  abbrev pub repair_key : ℕ → Bytes → Option Bytes → Exec S (Unit {0})
  repair_key now digest none = pure tt
  repair_key now digest (some object_key) = do
    present ← call (store.exists object_key)
    if present then pure tt else modify (tombstone now digest object_key)

  -- A committed blob whose object is gone is tombstoned, so that the new object replaces it.
  unfoldable pub repair_missing_blob_metadata : ℕ → Bytes → Exec S (Unit {0})
  repair_missing_blob_metadata now digest = do
    object_key ← gets (committed_key digest)
    repair_key now digest object_key

  -- what follows where the digest is the expected one
  unfoldable pub finish_upload :
      ℕ → Repository → Option User → ℕ → UploadRecord → Digest → ℕ → Exec S Response
  finish_upload now repository actor id upload expected size = do
    repair_missing_blob_metadata now (Digest.to_string expected)
    duplicate_key ←
        commit_blob now repository.id id upload.session.object_key (Digest.to_string expected) size
    if duplicate_key then call (store.delete upload.session.object_key) else pure tt
    modify (
        insert_audit (user_id actor) "blob.uploaded" (some repository.id) (some "blob")
          (some (Digest.to_string expected)))
    response ← lift (
        insert_header location
          (codes "/v2/" ++ (full_name repository ++ (codes "/blobs/" ++ Digest.to_string expected)))
          (registry_response 201))
    lift (insert_header docker_content_digest (Digest.to_string expected) response)

  -- what follows where it is not
  unfoldable pub refuse_upload : ℕ → UploadRecord → Exec S Response
  refuse_upload id upload = do
    call (store.delete upload.session.object_key)
    modify (set_status id UploadStatus.failed)
    throw digest_invalid

module _ {S : Type 0} (store : BlobStore S) (platform : Platform) (config : Config) where
  unfoldable pub complete_upload : ℕ → Authorized → Bytes → Headers → Query → Body → Exec S Response
  complete_upload now authorized id headers query body = do
    repository ← lift (require_repository authorized.repository)
    upload_id ← lift (parse_upload_id store platform config id)
    expected ← lift (expected_digest query)
    final_bytes ← lift (read_body body headers config.upload_chunk_limit)
    upload ← transaction (
        begin_completion store platform now repository.id upload_id headers.content_range
          final_bytes)
    parts ← gets (upload_parts upload_id)
    assemble store platform upload parts
    (actual, size) ← hash_stored_blob store platform upload.session.object_key
    if digest_eq actual expected
        then finish_upload store platform now repository authorized.user upload_id upload expected
            size
        else refuse_upload store platform upload_id upload
