-- ===== src/Client/Upload.antt =====
-- crates/jcr/src/registry.rs, lines 25 and 86-227, and image.rs, lines 19-37: blobs are uploaded in chunks, and an image is pushed.
-- CHUNK_SIZE is the parameter `chunk_size`.
pub mod Asking
pub mod Missing
pub mod Chunked
pub mod Files
pub mod Starting
pub mod Rounds
pub mod Delivery
pub mod Blobs
pub mod Resumption
use jcr.Client.Ranges.{add_u64}
use jcr.Prelude.{
  ℕ, zero, suc, ◌+◌, ◌-◌, ◌/◌, ◌%◌, ◌^◌, Bool, true, false, not, ◌&&◌, ◌||◌, none, some, Option,
  List, [], ◌∷◌, ◌++◌, Bytes, codes, length, leb, ltb, ◌==◌, if◌then◌else◌, Result, ok, err, ok_or,
  map_err,
}
use mathlib.Core.Option
use jcr.Digest
use jcr.Digest.{Digest, digest_eq}
use jcr.Reference.{ImageReference, is_digest}
use jcr.Client.Exec.{
  ClientError, Environment, RegistryClient, Client, ResumeEntry, unreadable_file, unexpected_offset,
  wrong_digest, out_of_fuel, pure, lift, attempt, resume_get, resume_set, resume_remove, ◌>>=◌,
  ◌>>◌,
}
use jcr.Client.Requests.{
  UploadPosition, blob_exists, start_upload, upload_status, patch_upload, complete_upload,
  put_manifest,
}

-- `BlobFile`; the content of the file, none if it cannot be opened
pub record BlobFile : Type 0 where
  pub digest : Digest
  pub size : ℕ
  pub content : Option Bytes

pub record ManifestObject : Type 0 where
  pub digest : Digest
  pub media_type : Bytes
  pub bytes : Bytes

pub record PreparedImage : Type 0 where
  pub blobs : List BlobFile
  pub manifests : List ManifestObject
  pub root_digest : Digest

-- `seek`: what is left to read
unfoldable pub drop : ℕ → Bytes → Bytes
drop zero s = s
drop (suc n) [] = []
drop (suc n) (b ∷ s) = drop n s

-- `read_exact`: the bytes, and what is left
unfoldable pub read_exact : ℕ → Bytes → Option (Bytes × Bytes)
read_exact zero s = some ([], s)
read_exact (suc n) [] = none
read_exact (suc n) (b ∷ s) = Option.map (λ p. (b ∷ p.0, p.1)) (read_exact n s)

-- subtraction on `u64`, which wraps
unfoldable pub sub_u64 : ℕ → ℕ → ℕ
sub_u64 a b = (a + 2 ^ 64 - b) % 2 ^ 64

abbrev pub check_offset : ℕ → ℕ → Result ClientError (Unit {0})
check_offset acknowledged expected =
    if not (acknowledged == expected) then err (unexpected_offset acknowledged expected) else ok tt

abbrev pub as_entry : UploadPosition → ResumeEntry
as_entry position = record { location = position.location; offset = position.offset }

unfoldable pub upload_key : RegistryClient → Bytes → Digest → Bytes
upload_key client registry digest =
    registry ++ b'/' ∷ (client.repository ++ b'@' ∷ Digest.to_string digest)

module _ {N : Type 0} (environment : Environment N) (client : RegistryClient) (chunk_size : ℕ) where
  -- the body of the loop, and then `next`
  unfoldable pub upload_chunk : Bytes → UploadPosition → Bytes → Client N (UploadPosition × Bytes)
  upload_chunk key position rest = do
    (buffer, left) ← lift (ok_or (read_exact chunk_size rest) unreadable_file)
    next ← patch_upload environment client position.location position.offset buffer
    lift (check_offset next.offset (add_u64 position.offset chunk_size))
    resume_set environment key (as_entry next)
    pure (next, left)

  -- none where the fuel runs out
  -- `while blob.size - position.offset >= CHUNK_SIZE`
  unfoldable pub upload_chunks :
      ℕ → Bytes → ℕ → UploadPosition → Bytes → Client N (Option (UploadPosition × Bytes))
  upload_chunks zero key size position rest = pure none
  upload_chunks (suc fuel) key size position rest =
      if ltb (sub_u64 size position.offset) chunk_size
      then pure (some (position, rest))
      else upload_chunk key position rest >>= λ (next, left). upload_chunks fuel key size next left

  abbrev is_resumable : ℕ → UploadPosition → Bool
  is_resumable size position = leb position.offset size && position.offset % chunk_size == 0

  unfoldable pub restart : Bytes → Client N UploadPosition
  restart key = resume_remove environment key >> start_upload environment client

  unfoldable pub resume_or_start :
      Bytes → ℕ → Result ClientError UploadPosition → Client N UploadPosition
  resume_or_start key size (err e) = restart key
  resume_or_start key size (ok position) =
      if is_resumable size position then pure position else restart key

  unfoldable pub initial_position : Bytes → ℕ → Option ResumeEntry → Client N UploadPosition
  initial_position key size none = start_upload environment client
  initial_position key size (some saved) =
      attempt (upload_status environment client saved.location) >>= λ result.
      resume_or_start key size result

  -- what follows the position, in a file of `size` bytes
  unfoldable pub upload_from : Bytes → BlobFile → UploadPosition → Client N (Unit {0})
  upload_from key blob position = do
    content ← lift (ok_or blob.content unreadable_file)
    uploaded ←
        upload_chunks (blob.size / chunk_size + 1) key blob.size position
          (drop position.offset content)
    (end, rest) ← lift (ok_or uploaded out_of_fuel)
    (final_bytes, _) ← lift (ok_or (read_exact (sub_u64 blob.size end.offset) rest) unreadable_file)
    complete_upload environment client end.location end.offset blob.digest final_bytes

  unfoldable pub upload_missing : Bytes → BlobFile → Client N (Unit {0})
  upload_missing key blob = do
    saved ← resume_get key
    position ← initial_position key blob.size saved
    resume_set environment key (as_entry position)
    upload_from key blob position
    resume_remove environment key

  unfoldable pub upload_blob : Bytes → BlobFile → Client N (Unit {0})
  upload_blob registry blob = do
    found ← blob_exists environment client blob.digest
    if found
        then resume_remove environment (upload_key client registry blob.digest)
        else upload_missing (upload_key client registry blob.digest) blob

  -- The uploads, which the source runs `jobs` at a time, follow one another.
  unfoldable pub upload_blobs : Bytes → List BlobFile → Client N (Unit {0})
  upload_blobs registry [] = pure tt
  upload_blobs registry (blob ∷ blobs) = upload_blob registry blob >> upload_blobs registry blobs

  abbrev reference_of : ImageReference → Digest → ManifestObject → Bytes
  reference_of remote root_digest manifest =
      if digest_eq manifest.digest root_digest
      then remote.reference
      else Digest.to_string manifest.digest

  unfoldable pub put_manifests : ImageReference → Digest → List ManifestObject → Client N (Unit {0})
  put_manifests remote root_digest [] = pure tt
  put_manifests remote root_digest (manifest ∷ manifests) = do
    put_manifest environment client (reference_of remote root_digest manifest) manifest.media_type
        manifest.bytes
    put_manifests remote root_digest manifests

  abbrev check_root : ImageReference → Digest → Result ClientError (Unit {0})
  check_root remote root_digest = elim (is_digest remote) [
    | false ↦ ok tt
    | true ↦ elim (Digest.from_str remote.reference) [
      | err e ↦ err wrong_digest
      | ok digest ↦ if digest_eq digest root_digest then ok tt else err wrong_digest
    ]
  ]

  unfoldable pub push : PreparedImage → ImageReference → Client N (Unit {0})
  push image remote = do
    lift (check_root remote image.root_digest)
    upload_blobs remote.registry image.blobs
    put_manifests remote image.root_digest image.manifests
