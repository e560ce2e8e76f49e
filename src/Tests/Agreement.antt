-- ===== src/Tests/Agreement.antt =====
-- A chunk and a question for the status on the small registry, as the client reads their answers.
use jcr.Prelude.{◌+◌, ◌≡◌, ℕ, refl, some, ◌∷◌, length, Bytes, codes, bytes_eq, ok}
use jcr.Server.Exec.{World, transaction, fetch, lift, call, execute, pure, ◌>>=◌}
use jcr.Server.Database.Tables.{find, select, update}
use jcr.Server.Session.{
  UploadRecord, fetch_upload, greatest, validate_upload, persist_part, is_refused, advance,
  storage_upload,
}
use jcr.Server.Types.{
  Repository, Response, HeaderName, registry_response, require_repository, read_body, insert_header,
  full_name,
}
use jcr.Server.Range.{validate_content_range, set_upload_headers, upload_location}
use jcr.Server.Upload.{parse_upload_id, check_chunk, patch_upload, upload_status}
use jcr.Client.Requests.{status_offset, acknowledged_offset}
use jcr.Client.Ranges.Laws.{received}
use jcr.Client.Ranges.Agreement.{upload_status-patch_upload}
use jcr.Text.Decimal.{decimal, digits_onto}
use jcr.Tests.Data.{Memory, memory, platform, world, config, authorized, no_headers}
use jcr.Tests.Uploads.{memory-ReportsParts}

abbrev after_chunk : World Memory
after_chunk =
    (patch_upload memory platform config 10 authorized (codes "seven") no_headers
      (some (codes "hello")) world).1

abbrev upload_answer : ℕ → Response
upload_answer code = record {
  status = code;
  headers =
      (HeaderName.range, codes "0-4")
      ∷ (HeaderName.docker_upload_uuid, platform.uuid_text 7)
      ∷ (HeaderName.location, codes "/v2/ada/tool/blobs/uploads/seven")
      ∷ (registry_response code).headers;
  body = (registry_response code).body;
}

patch_answered :
    patch_upload memory platform config 10 authorized
      (codes "seven")
      no_headers
      (some (codes "hello"))
      world
    ≡ (ok (upload_answer 202), after_chunk)
unfolding patch_upload upload_status jcr.Server.Upload.patch_transaction transaction fetch lift call
    execute pure ◌>>=◌ find select update fetch_upload greatest validate_upload persist_part
    is_refused advance storage_upload require_repository read_body insert_header full_name
    validate_content_range set_upload_headers upload_location parse_upload_id check_chunk bytes_eq
    decimal digits_onto
patch_answered = refl

status_answered :
    upload_status memory platform config 11 authorized (codes "seven") after_chunk
    ≡ (ok (upload_answer 204), after_chunk)
unfolding patch_upload upload_status jcr.Server.Upload.patch_transaction transaction fetch lift call
    execute pure ◌>>=◌ find select update fetch_upload greatest validate_upload persist_part
    is_refused advance storage_upload require_repository read_body insert_header full_name
    validate_content_range set_upload_headers upload_location parse_upload_id check_chunk bytes_eq
    decimal digits_onto
status_answered = refl

upload_status-patch_upload_example :
    (repository : Repository) × (upload_id : ℕ) × (bytes : Bytes) × (before : UploadRecord)
    × (require_repository authorized.repository ≡ ok repository)
    × (parse_upload_id memory platform config (codes "seven") ≡ ok upload_id)
    × (read_body (some (codes "hello")) no_headers config.upload_chunk_limit ≡ ok bytes)
    × (fetch_upload repository.id upload_id world.db ≡ some before)
    × (acknowledged_offset (received (upload_answer 202))
        ≡ ok (before.session.accepted_offset + length bytes))
    × (status_offset (received (upload_answer 204))
        ≡ ok (before.session.accepted_offset + length bytes))
upload_status-patch_upload_example =
    upload_status-patch_upload memory platform config memory-ReportsParts 10 11 authorized
      (codes "seven") no_headers (some (codes "hello")) world after_chunk after_chunk
      (upload_answer 202) (upload_answer 204) patch_answered status_answered
