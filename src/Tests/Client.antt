-- ===== src/Tests/Client.antt =====
-- Runs of the client against a small registry.
use jcr.Prelude.{
  none-some, ℕ, ◌+◌, ◌-◌, ◌/◌, ◌^◌, ◌<◌, ◌≤◌, ◌⊎◌, ◌≡◌, inl, inr, refl, true, false, none, some,
  Option, List, [], ◌∷◌, ◌++◌, Bytes, codes, length, arith, Result, ok, err,
}
use jcr.Digest.{Digest}
use jcr.Client.Exec.{RegistryClient, ClientState, ClientError, ResumeEntry}
use jcr.Scope.{pull, new_scope}
use jcr.Server.Authorize.{challenge_response}
use jcr.Client.Login.Discovery.{challenge_of}
use jcr.Client.Login.Laws.{challenge_of-challenge_response}
use jcr.Client.Requests.{UploadPosition, patch_upload, status_offset}
use jcr.Client.Ranges.Laws.{status_offset-set_upload_headers, received}
use jcr.Server.Types.{Response, HeaderName, registry_response}
use jcr.Server.Range.{set_upload_headers, upload_location}
use jcr.Client.Upload.{BlobFile, upload_blob, upload_chunks, upload_key}
use jcr.Client.Requests.Chunks.{IsSent, patch_upload-once}
use jcr.Client.Registry.{IsClean}
use jcr.Client.Upload.Blobs.{upload_blob-delivers}
use jcr.Client.Upload.Rounds.{upload_chunks-ends}
use jcr.Tests.Registry.{Remote, remote, held_by, StoredBy, remote-IsFaithful, remote-is_upload}

abbrev pub client : RegistryClient
client = record {
  repository = codes "ada/tool";
  username = codes "ada";
  secret = codes "pat";
  challenge = record { realm = codes "realm"; service = codes "jcr" };
}

abbrev pub file : BlobFile
file = record {
  digest = record { algorithm = codes "sha256"; encoded = codes "5" };
  size = 5;
  content = some (codes "layer");
}

-- an upload that holds a part, and nothing stored
abbrev pub holding : Bytes → Remote
holding held = record { held = held; blob = none }

abbrev pub start : ClientState Remote
start = record { network = holding []; token = codes "token"; uploads = [] }

abbrev pub end : ClientState Remote
end = record {
  network = record { held = codes "layer"; blob = some (codes "layer") };
  token = codes "token";
  uploads = [];
}

abbrev resumed : ClientState Remote
resumed = record {
  network = holding (codes "la");
  token = codes "token";
  uploads =
      (
        upload_key client (codes "registry") file.digest,
        record { location = codes "url"; offset = 2 },
      )
      ∷ [];
}

-- one chunk is there already
continued : upload_blob remote client 2 (codes "registry") file resumed ≡ (ok tt, end)
unfolding upload_blob jcr.Client.Exec.◌>>=◌ jcr.Client.Requests.blob_exists jcr.Client.Exec.lift
    jcr.Client.Requests.registry_url jcr.Client.Requests.retry jcr.Client.Requests.send_authorized
    jcr.Client.Exec.current_token jcr.Client.Exec.send jcr.Client.Exec.pure
    jcr.Client.Requests.proceed jcr.Client.Requests.exists_answer jcr.Client.Upload.upload_missing
    jcr.Client.Exec.resume_get jcr.Client.Upload.initial_position jcr.Client.Requests.start_upload
    jcr.Client.Requests.start_answer jcr.Client.Requests.upload_position jcr.Client.Exec.attempt
    jcr.Client.Exec.resume_remove jcr.Client.Exec.resume_set jcr.Client.Exec.set_token
    jcr.Client.Exec.throw jcr.Client.Ranges.content_range jcr.Client.Ranges.add_u64
    jcr.Client.Ranges.last_byte jcr.Client.Ranges.parse_range_offset
    jcr.Client.Requests.acknowledged_offset jcr.Client.Requests.check_committed
    jcr.Client.Requests.check_position jcr.Client.Requests.complete_answer
    jcr.Client.Requests.complete_upload jcr.Client.Requests.exchange_token
    jcr.Client.Requests.exchanged jcr.Client.Requests.patch_answer patch_upload
    jcr.Client.Requests.refresh_token jcr.Client.Requests.resolve_location
    jcr.Client.Requests.status_answer jcr.Client.Requests.status_offset
    jcr.Client.Requests.upload_status jcr.Client.Upload.drop jcr.Client.Upload.read_exact
    jcr.Client.Upload.restart jcr.Client.Upload.resume_or_start jcr.Client.Upload.sub_u64
    jcr.Client.Upload.upload_chunk upload_chunks jcr.Client.Upload.upload_from upload_key
    jcr.Digest.to_string jcr.Manifest.trim jcr.Manifest.trim_front jcr.Prelude.bytes_eq
    jcr.Text.Decimal.decimal jcr.Text.Decimal.digits_onto jcr.Text.Decimal.digits_value
    jcr.Text.Decimal.parse_below jcr.Text.Decimal.parse_u64 jcr.Text.split_once
continued = refl

upload_blob-delivers_example :
    StoredBy file.digest (codes "layer") end.network
    × IsClean StoredBy file.digest (codes "layer") end.network
upload_blob-delivers_example =
    upload_blob-delivers remote client held_by StoredBy (remote-IsFaithful client) 2 (codes "layer")
      (codes "registry") file resumed end (omega arith) refl refl (omega arith)
      (
        λ entry e url at. (remote-is_upload client url, (codes "yer", refl)),
        λ other there. absurd (none-some there),
      )
      continued

chunk_sent : patch_upload remote client (codes "url") 2 (codes "ye") resumed ≡ (
  ok (record { location = codes "url"; offset = 4 }),
  record resumed { network = holding (codes "laye") },
)
unfolding jcr.Client.Exec.◌>>=◌ jcr.Client.Requests.blob_exists jcr.Client.Exec.lift
    jcr.Client.Requests.registry_url jcr.Client.Requests.retry jcr.Client.Requests.send_authorized
    jcr.Client.Exec.current_token jcr.Client.Exec.send jcr.Client.Exec.pure
    jcr.Client.Requests.proceed jcr.Client.Requests.exists_answer jcr.Client.Upload.upload_missing
    jcr.Client.Exec.resume_get jcr.Client.Upload.initial_position jcr.Client.Requests.start_upload
    jcr.Client.Requests.start_answer jcr.Client.Requests.upload_position jcr.Client.Exec.attempt
    jcr.Client.Exec.resume_remove jcr.Client.Exec.resume_set jcr.Client.Exec.set_token
    jcr.Client.Exec.throw jcr.Client.Ranges.content_range jcr.Client.Ranges.add_u64
    jcr.Client.Ranges.last_byte jcr.Client.Ranges.parse_range_offset
    jcr.Client.Requests.acknowledged_offset jcr.Client.Requests.check_committed
    jcr.Client.Requests.check_position jcr.Client.Requests.complete_answer
    jcr.Client.Requests.complete_upload jcr.Client.Requests.exchange_token
    jcr.Client.Requests.exchanged jcr.Client.Requests.patch_answer patch_upload
    jcr.Client.Requests.refresh_token jcr.Client.Requests.resolve_location
    jcr.Client.Requests.status_answer jcr.Client.Requests.status_offset
    jcr.Client.Requests.upload_status jcr.Client.Upload.drop jcr.Client.Upload.read_exact
    jcr.Client.Upload.restart jcr.Client.Upload.resume_or_start jcr.Client.Upload.sub_u64
    jcr.Client.Upload.upload_chunk upload_chunks jcr.Client.Upload.upload_from upload_key
    jcr.Digest.to_string jcr.Manifest.trim jcr.Manifest.trim_front jcr.Prelude.bytes_eq
    jcr.Text.Decimal.decimal jcr.Text.Decimal.digits_onto jcr.Text.Decimal.digits_value
    jcr.Text.Decimal.parse_below jcr.Text.Decimal.parse_u64 jcr.Text.split_once
chunk_sent = refl

patch_upload-once_example :
    IsSent remote held_by
      (codes "url")
      (codes "la")
      (codes "ye")
      (ok (record { location = codes "url"; offset = 4 }))
      (holding (codes "laye"))
patch_upload-once_example =
    patch_upload-once remote client held_by StoredBy (remote-IsFaithful client) (codes "url")
      (codes "la") (codes "ye") (codes "url") resumed
      (record resumed { network = holding (codes "laye") })
      (ok (record { location = codes "url"; offset = 4 })) (omega arith) (omega arith) refl
      (remote-is_upload client (codes "url")) refl chunk_sent

abbrev four_read : Option (UploadPosition × Bytes)
four_read = some (record { location = codes "url"; offset = 4 }, codes "r")

chunked :
    upload_chunks remote client 2
      (5 / 2 + 1)
      []
      5
      (record { location = codes "url"; offset = 0 })
      (codes "layer")
      start
    ≡ (
      ok four_read,
      record end {
        network = holding (codes "laye");
        uploads = ([], record { location = codes "url"; offset = 4 }) ∷ [];
      },
    )
unfolding jcr.Client.Exec.◌>>=◌ jcr.Client.Requests.blob_exists jcr.Client.Exec.lift
    jcr.Client.Requests.registry_url jcr.Client.Requests.retry jcr.Client.Requests.send_authorized
    jcr.Client.Exec.current_token jcr.Client.Exec.send jcr.Client.Exec.pure
    jcr.Client.Requests.proceed jcr.Client.Requests.exists_answer jcr.Client.Upload.upload_missing
    jcr.Client.Exec.resume_get jcr.Client.Upload.initial_position jcr.Client.Requests.start_upload
    jcr.Client.Requests.start_answer jcr.Client.Requests.upload_position jcr.Client.Exec.attempt
    jcr.Client.Exec.resume_remove jcr.Client.Exec.resume_set jcr.Client.Exec.set_token
    jcr.Client.Exec.throw jcr.Client.Ranges.content_range jcr.Client.Ranges.add_u64
    jcr.Client.Ranges.last_byte jcr.Client.Ranges.parse_range_offset
    jcr.Client.Requests.acknowledged_offset jcr.Client.Requests.check_committed
    jcr.Client.Requests.check_position jcr.Client.Requests.complete_answer
    jcr.Client.Requests.complete_upload jcr.Client.Requests.exchange_token
    jcr.Client.Requests.exchanged jcr.Client.Requests.patch_answer patch_upload
    jcr.Client.Requests.refresh_token jcr.Client.Requests.resolve_location
    jcr.Client.Requests.status_answer jcr.Client.Requests.status_offset
    jcr.Client.Requests.upload_status jcr.Client.Upload.drop jcr.Client.Upload.read_exact
    jcr.Client.Upload.restart jcr.Client.Upload.resume_or_start jcr.Client.Upload.sub_u64
    jcr.Client.Upload.upload_chunk upload_chunks jcr.Client.Upload.upload_from upload_key
    jcr.Digest.to_string jcr.Manifest.trim jcr.Manifest.trim_front jcr.Prelude.bytes_eq
    jcr.Text.Decimal.decimal jcr.Text.Decimal.digits_onto jcr.Text.Decimal.digits_value
    jcr.Text.Decimal.parse_below jcr.Text.Decimal.parse_u64 jcr.Text.split_once
chunked = refl

upload_chunks-ends_example :
    (last : UploadPosition) × (left : Bytes) × (four_read ≡ some (last, left))
    × (last.offset ≤ 5)
    × (5 - last.offset < 2)
upload_chunks-ends_example =
    upload_chunks-ends remote client 2 5 [] (record { location = codes "url"; offset = 0 })
      (codes "layer") start
      (record end {
        network = holding (codes "laye");
        uploads = ([], record { location = codes "url"; offset = 4 }) ∷ [];
      })
      _ (omega arith) (omega arith) (omega arith) chunked

abbrev answered : Response
answered = record {
  status = 202;
  headers =
      (HeaderName.range, codes "0-3")
      ∷ (HeaderName.docker_upload_uuid, codes "u")
      ∷ (HeaderName.location, codes "/v2/ada/tool/blobs/uploads/u")
      ∷ (registry_response 202).headers;
  body = (registry_response 202).body;
}

set_upload_headers-run :
    set_upload_headers (λ n. codes "u") (codes "ada/tool") 7 4 (registry_response 202) ≡ ok answered
unfolding set_upload_headers jcr.Server.Range.upload_location jcr.Server.Types.insert_header
    jcr.Text.Decimal.decimal jcr.Text.Decimal.digits_onto
set_upload_headers-run = refl

status_offset-set_upload_headers_example :
    (status_offset (received answered) ≡ ok 4)
    × ((received answered).location
        ≡ some (some (upload_location (λ n. codes "u") (codes "ada/tool") 7)))
status_offset-set_upload_headers_example =
    status_offset-set_upload_headers (λ n. codes "u") (codes "ada/tool") 7 4 202 answered
      (omega arith) set_upload_headers-run

abbrev address : Bytes
address = codes "https://registry.example/"

challenge_of-challenge_response_example :
    challenge_of some (
      ok (
        received (
          challenge_response
            (address ++ codes "auth/token")
            (some (new_scope (codes "ada/tool") (pull ∷ []))))))
    ≡ ok (record { realm = address ++ codes "auth/token"; service = codes "jcr" })
challenge_of-challenge_response_example =
    challenge_of-challenge_response some address (address ++ codes "auth/token")
      (some (new_scope (codes "ada/tool") (pull ∷ []))) refl refl
