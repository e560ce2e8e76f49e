-- ===== src/Server/Upload/Offsets.antt =====
-- registry.rs, patch_upload: the offset of a session before and after a chunk.
use jcr.Prelude.{
  ℕ, ◌+◌, ◌-◌, ◌^◌, ◌≤◌, ◌≡◌, refl, sym, true, false, some, Bytes, length, is_empty, ◌==◌, ok,
}
use mathlib.Core.Path.{subst}
use jcr.Storage.{BlobStore, CompletedPart}
use jcr.Server.Database.{Database}
use jcr.Server.Database.Tables.Only.{find-update_within}
use jcr.Server.Types.{
  require_repository, Repository, Platform, Authorized, HeaderValue, Headers, Body, read_body,
  full_name, registry_response,
}
use jcr.Server.Range.{set_upload_headers}
use jcr.Server.Session.{
  UploadRecord, fetch_upload, is_session, persist_part, advance, persisted, storage_upload, size_of,
  greatest, parts_of,
}
use jcr.Server.Session.Steps.{eq_refl, persist_part-some}
use jcr.Server.Session.Limits.{found_row, persist_part-bound}
use jcr.Server.Exec.{World}
use jcr.Server.Exec.Returns.{
  Returns, Returns-bind, Returns-lift, Returns-fetch, Returns-call, Returns-execute, Returns-pure,
  Returns-transaction, Returns-if, Returns-throw, Returns-mono,
}
use jcr.Server.Upload.{Config, patch_transaction, patch_upload, parse_upload_id}
use jcr.Server.Upload.Laws.{ReportsParts}

-- The session before and after a chunk of `len` bytes that ends at `offset`.
pub record IsAdvanced (repository_id id len offset : ℕ) (before after : Database) : Type 0 where
  pub found : UploadRecord
  pub fetched : fetch_upload repository_id id before ≡ some found
  pub end : offset ≡ found.session.accepted_offset + len
  pub limited : offset ≤ 2 ^ 63 - 1
  pub kept : UploadRecord
  pub fetched_after : fetch_upload repository_id id after ≡ some kept
  pub accepted : kept.session.accepted_offset ≡ offset

persisted-IsAdvanced :
    (repository_id id : ℕ) (db db' : Database) (upload : UploadRecord) (part : CompletedPart)
    → fetch_upload repository_id id db ≡ some upload
    → persist_part upload part true db ≡ some db'
    → IsAdvanced repository_id id part.size (upload.session.accepted_offset + part.size) db db'
unfolding advance fetch_upload
persisted-IsAdvanced repository_id id db db' upload part h e =
    subst
      (λ d. IsAdvanced repository_id id part.size (upload.session.accepted_offset + part.size) db d)
      (sym (persist_part-some upload part true db db' e))
      (record {
        found = upload;
        fetched = h;
        end = refl;
        limited = persist_part-bound repository_id id upload part true db db' h e;
        kept = record {
          session = advance part.size true upload.session;
          last_part_size = size_of (
              greatest (
                parts_of upload.session.id
                  (persisted upload.session.id part true db).upload_parts));
        };
        fetched_after =
            rw
              (find-update_within (is_session repository_id id) (λ u. u.id == upload.session.id)
                (advance part.size true) db.upload_sessions upload.session (λ u. refl)
                (found_row repository_id id db upload h) (eq_refl upload.session.id))
              refl;
        accepted = refl;
      })

module _ {S : Type 0} (store : BlobStore S) (platform : Platform) (config : Config)
    (reports : ReportsParts store) where
  patch_transaction-IsAdvanced :
      (now repository_id id : ℕ) (range : HeaderValue) (bytes : Bytes) (w : World S)
      → Returns
          (patch_transaction store platform config now repository_id id range bytes)
          w
          (λ offset w'. IsAdvanced repository_id id (length bytes) offset w.db w'.db)
  unfolding patch_transaction
  patch_transaction-IsAdvanced now repository_id id range bytes w = Returns-bind _ _ _ _ (
      Returns-fetch _ _ _ _ (λ upload found. Returns-bind _ _ _ _ (
        Returns-lift _ _ _ (λ _ valid. Returns-bind _ _ _ _ (
          Returns-lift _ _ _ (λ _ ranged. Returns-bind _ _ _ _ (
            Returns-lift _ _ _ (λ _ checked. Returns-bind _ _ _ _ (
              Returns-call _ _ _ (λ part s sent. Returns-bind _ _ _ _ (
                Returns-execute _ _ _ (λ d stored. Returns-pure _ _ _ (
                  subst
                    (λ len.
                      IsAdvanced repository_id id len (upload.session.accepted_offset + part.size)
                        w.db d)
                    ((reports.reported (storage_upload upload) upload.session.next_part_number bytes
                      w.store part s sent).1)
                    (persisted-IsAdvanced repository_id id w.db d upload part found
                      stored))))))))))))))

  -- the answer, and what it says of the session
  pub patch_upload-Returns :
      (now : ℕ) (authorized : Authorized) (id : Bytes) (headers : Headers) (body : Body)
      (w : World S)
      → Returns (patch_upload store platform config now authorized id headers body) w (λ r w'.
        (repository : Repository) × (upload_id : ℕ) × (bytes : Bytes) × (offset : ℕ)
        × (require_repository authorized.repository ≡ ok repository)
        × (parse_upload_id store platform config id ≡ ok upload_id)
        × (read_body body headers config.upload_chunk_limit ≡ ok bytes)
        × (is_empty bytes ≡ false)
        × IsAdvanced repository.id upload_id (length bytes) offset w.db w'.db
        × (set_upload_headers platform.uuid_text
              (full_name repository)
              upload_id
              offset
              (registry_response 202)
            ≡ ok r))
  unfolding patch_upload
  patch_upload-Returns now authorized id headers body w = Returns-bind _ _ _ _ (
      Returns-lift _ _ _ (λ repository named. Returns-bind _ _ _ _ (
        Returns-lift _ _ _ (λ upload_id parsed. Returns-bind _ _ _ _ (
          Returns-lift _ _ _ (λ bytes sent.
            Returns-if _ _ _ _ _ (λ _. Returns-throw _ _ _)
              (λ filled. Returns-bind _ _ _ _ (
                Returns-mono _ _ _ _
                  (Returns-transaction _ _ _ (
                    patch_transaction-IsAdvanced now repository.id upload_id headers.content_range
                      bytes w))
                  (λ offset w' advanced. Returns-lift _ _ _ (λ r answer. (
                    repository, upload_id, bytes, offset, named, parsed, sent, filled, advanced,
                    answer,
                  )))))))))))
