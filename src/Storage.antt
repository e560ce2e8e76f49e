-- ===== src/Storage.antt =====
-- crates/jcr-core/src/storage.rs: the interface of the object store, with its data and errors.
-- The state of the store is the interface's own.
use jcr.Prelude.{ℕ, Bool, Option, List, Bytes, Result}

pub record StorageUpload : Type 0 where
  pub key : Bytes
  pub upload_id : Bytes

pub record CompletedPart : Type 0 where
  pub part_number : ℕ
  pub etag : Bytes
  pub size : ℕ

pub data StorageError : Type 0 where
  not_found provider io invalid_state : StorageError

-- A call that may fail, and changes the state either way.
abbrev pub Call : Type 0 → Type 0 → Type 0
Call S A = S → Result StorageError A × S

-- `trait BlobStore`; a stream is the list of the chunks that it yields.
pub record BlobStore (S : Type 0) : Type 0 where
  pub initiate_upload : Bytes → Call S StorageUpload
  pub upload_part : StorageUpload → ℕ → Bytes → Call S CompletedPart
  pub complete_upload : StorageUpload → List CompletedPart → Call S (Unit {0})
  pub abort_upload : StorageUpload → Call S (Unit {0})
  pub put : Bytes → Bytes → Call S (Unit {0})
  pub exists : Bytes → Call S Bool
  pub stream : Bytes → Call S (List (Result StorageError Bytes))
  pub signed_get_url : Bytes → ℕ → Call S (Option Bytes)
  pub delete : Bytes → Call S (Unit {0})
