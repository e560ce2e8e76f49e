-- ===== src/Tests/Uploads.antt =====
-- Uploads on the small registry.
use jcr.Prelude.{
  ℕ, ◌+◌, ◌≡◌, refl, sym, ap, inr, true, false, some, List, [], ◌∷◌, ◌++◌, length, Bytes, codes,
  bytes_eq, Result, ok, err, is_ok,
}
use jcr.Storage.{CompletedPart, StorageError}
use jcr.Server.Exec.{
  World, transaction, fetch, lift, call, call_ignored, execute, modify, gets, pure, ◌>>=◌,
}
use jcr.Server.Session.Invariant.{IsValid}
use jcr.Server.Database.Tables.{find, select, update, order_by, insert_by}
use jcr.Server.Session.{
  fetch_upload, greatest, validate_upload, persist_part, is_refused, advance, set_status,
  storage_upload, upload_parts,
}
use jcr.Server.Types.{require_repository, read_body, insert_header, full_name}
use jcr.Server.Range.{validate_content_range}
use jcr.Server.Upload.{parse_upload_id, check_chunk, patch_upload, cancel_upload}
use jcr.Server.Upload.Cancellation.{IsCancelled, cancel_upload-IsCancelled}
use jcr.Server.Upload.Laws.{ReportsParts, patch_upload-IsValid}
use jcr.Digest
use jcr.Digest.{sha256, digest_eq, check_parts}
use jcr.Text.{split_once}
use jcr.Server.Commit.{
  complete_upload, begin_completion, assemble, hash_stored_blob, hash_chunks, collect_chunks,
  finish_upload, repair_missing_blob_metadata, committed_key, commit_blob, commit_statements,
  is_key_taken, committed_rows, insert_audit, merge_blob,
}
use jcr.Server.Commit.Rows.{IsStored, commit_blob-IsStored}
use jcr.Server.Commit.Hashing.{collect_chunks-contents, contents, whole}
use jcr.Server.Commit.Laws.{IsCompleted, complete_upload-IsCompleted}
use jcr.Server.Commit.Sessions.{complete_upload-IsValid}
use jcr.Tests.Data.{
  Memory, memory, platform, db, world, config, authorized, no_headers, query, five,
}

-- The memory store reports the number and the size of each part.
pub memory-ReportsParts : ReportsParts memory
memory-ReportsParts = record {
  reported = λ upload number bytes s part s' h.
      (ap part_number_of (sym (ap (λ p. p.0) h)), ap size_of (sym (ap (λ p. p.0) h)));
}
  where
    part_number_of : Result StorageError CompletedPart → ℕ
    part_number_of (ok part) = part.part_number
    part_number_of (err e) = 0

    size_of : Result StorageError CompletedPart → ℕ
    size_of (ok part) = part.size
    size_of (err e) = 0

pub world-IsValid : IsValid world.db
unfolding select
world-IsValid = record {
  unique = (refl, tt);
  owned = tt;
  sessions = (record { numbered = tt; next = refl; offset = inr refl; sizes = inr refl }, tt);
}

patch_upload-IsValid_example :
    IsValid
      (patch_upload memory platform config 10 authorized
        (codes "seven")
        no_headers
        (some (codes "hello"))
        world).1.db
patch_upload-IsValid_example =
    patch_upload-IsValid memory platform config memory-ReportsParts 10 authorized (codes "seven")
      no_headers (some (codes "hello")) world world-IsValid

cancels : is_ok (cancel_upload memory platform config 10 authorized (codes "seven") world).0 ≡ true
unfolding cancel_upload fetch lift call modify pure ◌>>=◌ find fetch_upload greatest validate_upload
    storage_upload require_repository parse_upload_id bytes_eq select
cancels = refl

cancel_upload-IsCancelled_example :
    IsCancelled memory platform config 10 authorized
      (codes "seven")
      world.db
      (cancel_upload memory platform config 10 authorized (codes "seven") world).1.db
cancel_upload-IsCancelled_example =
    cancel_upload-IsCancelled memory platform config 10 authorized (codes "seven") world cancels

complete_upload-IsValid_example :
    IsValid
      (complete_upload memory platform config 10 authorized
        (codes "seven")
        no_headers
        query
        (some (codes "hello"))
        world).1.db
complete_upload-IsValid_example =
    complete_upload-IsValid memory platform config memory-ReportsParts 10 authorized (codes "seven")
      no_headers query (some (codes "hello")) world world-IsValid

-- The five bytes of the body are what the query names.
completes :
    is_ok
      (complete_upload memory platform config 10 authorized
        (codes "seven")
        no_headers
        query
        (some (codes "hello"))
        world).0
    ≡ true
unfolding complete_upload begin_completion assemble hash_stored_blob hash_chunks collect_chunks
    finish_upload repair_missing_blob_metadata committed_key commit_blob commit_statements
    is_key_taken committed_rows insert_audit merge_blob transaction fetch lift call call_ignored
    execute modify gets pure ◌>>=◌ find select update order_by insert_by fetch_upload greatest
    validate_upload persist_part is_refused advance set_status storage_upload upload_parts
    require_repository read_body insert_header full_name validate_content_range parse_upload_id
    check_chunk Digest.from_str check_parts Digest.to_string sha256 digest_eq split_once bytes_eq
    Digest.sha256_name
completes = refl

complete_upload-IsCompleted_example :
    IsCompleted memory platform config 10 authorized
      (codes "seven")
      query
      world.db
      (complete_upload memory platform config 10 authorized
        (codes "seven")
        no_headers
        query
        (some (codes "hello"))
        world).1.db
complete_upload-IsCompleted_example =
    complete_upload-IsCompleted memory platform config 10 authorized (codes "seven") no_headers
      query (some (codes "hello")) world completes

abbrev committed_world : World Memory
committed_world = record {
  store = [];
  db = committed_rows 10 3 7 (codes "uploads/seven") (Digest.to_string five) 5 db;
}

commits :
    commit_blob 10 3 7 (codes "uploads/seven") (Digest.to_string five) 5 world
    ≡ (ok false, committed_world)
unfolding commit_blob commit_statements is_key_taken transaction execute gets pure ◌>>=◌ find
    committed_rows
commits = refl

commit_blob-IsStored_example :
    IsStored 3 (Digest.to_string five) (codes "uploads/seven") false committed_world.db
commit_blob-IsStored_example =
    commit_blob-IsStored 10 3 7 (codes "uploads/seven") (Digest.to_string five) 5 world
      committed_world false commits

collect_chunks-contents_example :
    (cs : List Bytes) × ((ok (codes "he") ∷ ok (codes "llo") ∷ []) ≡ whole cs)
    × (codes "hello" ≡ [] ++ contents cs)
    × (5 ≡ 0 + length (contents cs))
unfolding collect_chunks
collect_chunks-contents_example =
    collect_chunks-contents 0 [] (ok (codes "he") ∷ ok (codes "llo") ∷ []) (codes "hello") 5 refl
