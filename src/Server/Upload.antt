-- ===== src/Server/Upload.antt =====
-- crates/jcrd/src/registry.rs, lines 526-596 and 727-749: chunks, status and cancellation.
pub mod Laws
pub mod Cancellation
pub mod Offsets
use jcr.Prelude.{
  ℕ, zero, suc, ◌+◌, ◌-◌, ◌*◌, ◌/◌, ◌%◌, ◌^◌, ◌≤◌, ◌<◌, String, ◌≡◌, refl, sym, ap, ◌∙◌, ◌≢◌, ◌↔◌,
  ◌⊎◌, inl, inr, Bool, true, false, not, ◌&&◌, ◌||◌, Option, none, some, List, [], ◌∷◌, ◌++◌, map,
  reverse, arith, ltb, leb, ◌==◌, ==_iff, if◌then◌else◌, Bool-cases, Option-cases, &&-eq-true,
  ||-eq-false, length, all, any, is_empty, length-append, all-append, any-append, Bytes, codes,
  bytes_eq, bytes_eq_refl, eq_of_bytes_eq, bytes_eq_iff, Result, ok, err, ok_or, is_ok, to_option,
  map_err, ok-injective, Result-cases, All, All-concat,
}
use jcr.Storage.{BlobStore, CompletedPart, StorageUpload}
use jcr.Server.Error.{AppError, oci, database}
use jcr.Server.Types.{
  Repository, full_name, Authorized, Headers, HeaderValue, Body, Response, Platform,
  registry_response, read_body, require_repository,
}
use jcr.Server.Database.{Database}
use jcr.Server.Exec.{
  World, Exec, pure, throw, lift, gets, fetch, call, transaction, modify, execute, ◌>>=◌, ◌>>◌,
}
use jcr.Server.Range.{validate_content_range, set_upload_headers}
use jcr.Server.Session.{
  UploadRecord, fetch_upload, validate_upload, upload_unknown, persist_part, cancel_session,
  storage_upload,
}

-- `Config`
pub record Config : Type 0 where
  pub upload_chunk_limit : ℕ
  pub upload_session_hours : ℕ
  pub gc_grace_days : ℕ

abbrev pub upload_invalid : AppError
upload_invalid = oci 400 "BLOB_UPLOAD_INVALID"

abbrev pub is_short : Option ℕ → ℕ → Bool
is_short none size = false
is_short (some last) size = ltb last size

-- The tests on a chunk's size, once a first chunk has fixed it.
unfoldable pub check_chunk : Option ℕ → Option ℕ → ℕ → Result AppError (Unit {0})
check_chunk none last_part_size len = ok tt
check_chunk (some size) last_part_size len =
    if is_short last_part_size size
    then err upload_invalid
    else if ltb size len
    then err upload_invalid
    else ok tt

module _ {S : Type 0} (store : BlobStore S) (platform : Platform) (config : Config) where
  unfoldable pub parse_upload_id : Bytes → Result AppError ℕ
  parse_upload_id value = ok_or (platform.parse_uuid value) upload_unknown

  -- the transaction of `patch_upload`, which returns the new offset
  unfoldable pub patch_transaction : ℕ → ℕ → ℕ → HeaderValue → Bytes → Exec S ℕ
  patch_transaction now repository_id id content_range bytes = do
    upload ← fetch (fetch_upload repository_id id) upload_unknown
    lift (validate_upload now upload)
    lift (validate_content_range content_range upload.session.accepted_offset (length bytes))
    lift (check_chunk upload.session.uniform_part_size upload.last_part_size (length bytes))
    completed ←
        call (store.upload_part (storage_upload upload) upload.session.next_part_number bytes)
    execute (persist_part upload completed true)
    pure (upload.session.accepted_offset + completed.size)

  unfoldable pub patch_upload : ℕ → Authorized → Bytes → Headers → Body → Exec S Response
  patch_upload now authorized id headers body = do
    repository ← lift (require_repository authorized.repository)
    upload_id ← lift (parse_upload_id id)
    bytes ← lift (read_body body headers config.upload_chunk_limit)
    if is_empty bytes then throw upload_invalid else do
      new_offset ←
          transaction (patch_transaction now repository.id upload_id headers.content_range bytes)
      lift (
          set_upload_headers platform.uuid_text (full_name repository) upload_id new_offset
            (registry_response 202))

  unfoldable pub upload_status : ℕ → Authorized → Bytes → Exec S Response
  upload_status now authorized id = do
    repository ← lift (require_repository authorized.repository)
    upload_id ← lift (parse_upload_id id)
    upload ← fetch (fetch_upload repository.id upload_id) upload_unknown
    lift (validate_upload now upload)
    lift (
        set_upload_headers platform.uuid_text (full_name repository) upload_id
          upload.session.accepted_offset (registry_response 204))

  unfoldable pub cancel_upload : ℕ → Authorized → Bytes → Exec S Response
  cancel_upload now authorized id = do
    repository ← lift (require_repository authorized.repository)
    upload_id ← lift (parse_upload_id id)
    upload ← fetch (fetch_upload repository.id upload_id) upload_unknown
    lift (validate_upload now upload)
    call (store.abort_upload (storage_upload upload))
    modify (cancel_session upload_id)
    pure (registry_response 204)
