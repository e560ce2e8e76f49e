-- ===== src/Client/Requests.antt =====
-- crates/jcr/src/registry.rs, lines 26, 51-54, 229-503 and 577-627: the requests of the client, each with its retries.
pub mod Sending
pub mod Retries
pub mod Chunks
pub mod Completion
use jcr.Prelude.{
  ℕ, zero, suc, ◌+◌, ◌-◌, ◌%◌, ◌^◌, Bool, true, false, ◌&&◌, ◌||◌, none, some, Option, List, [],
  ◌∷◌, ◌++◌, Bytes, codes, is_empty, length, leb, ltb, ◌==◌, if◌then◌else◌, Result, ok, err, ok_or,
}
use jcr.Digest
use jcr.Digest.{Digest}
use jcr.Server.Types.{HeaderValue, to_str}
use jcr.Client.Exec.{
  Method, Authorization, Request, HttpResponse, TokenResponse, TransportError, unreachable, broken,
  ClientError, Environment, RegistryClient, Client, transport, invalid_url, exhausted, refused,
  missing_location, missing_range, invalid_token_response, empty_token, bearer, basic, pure, throw,
  lift, attempt, current_token, set_token, send, ◌>>=◌, ◌>>◌,
}
use jcr.Client.Ranges.{add_u64, last_byte, parse_range_offset, content_range, transient, is_success}

abbrev pub max_attempts : ℕ
max_attempts = 5

-- `UploadPosition`
pub record UploadPosition : Type 0 where
  pub location : Bytes
  pub offset : ℕ

-- what a loop does after a response
pub data Next (A : Type 0) : Type 0 where
  finish : Result ClientError A → Next A
  refresh again : Next A

-- the arms that end most matches
abbrev pub retried : {A : Type 0} → ℕ → Next A
retried status =
    if status == 401
    then refresh
    else if transient status
    then again
    else finish (err (refused status))

abbrev pub failed : {A : Type 0} → TransportError → Next A
failed unreachable = again
failed broken = finish (err transport)

-- `upload_position`
unfoldable pub upload_position : HttpResponse → ℕ → Result ClientError UploadPosition
upload_position response fallback_offset = elim (to_str response.location) [
  | none ↦ err missing_location
  | some location ↦ ok (record { location = location; offset = fallback_offset })
]

abbrev pub positioned : HttpResponse → Result ClientError ℕ → Result ClientError UploadPosition
positioned response (err e) = err e
positioned response (ok offset) = upload_position response offset

-- `exchange_token`, behind its response
abbrev or_default : Option Bytes → Option Bytes → Bytes
or_default (some token) o = token
or_default none (some token) = token
or_default none none = []

abbrev token_of : TokenResponse → Result ClientError Bytes
token_of r =
    let token = or_default r.token r.access_token in
    if is_empty token then err empty_token else ok token

unfoldable pub exchanged : Result TransportError HttpResponse → Result ClientError Bytes
exchanged (err e) = err transport
exchanged (ok response) =
    if is_success response.status
    then elim response.json [ none ↦ err invalid_token_response | some r ↦ token_of r ]
    else err (refused response.status)

-- `unwrap_or(false)`
abbrev pub or_false : Result ClientError Bool → Bool
or_false (ok b) = b
or_false (err e) = false

-- the range of a status response, from the first byte where there is none
unfoldable pub status_offset : HttpResponse → Result ClientError ℕ
status_offset response = elim (to_str response.range) [
  | none ↦ ok 0
  | some value ↦ parse_range_offset value
]

unfoldable pub acknowledged_offset : HttpResponse → Result ClientError ℕ
acknowledged_offset response = elim (to_str response.range) [
  | none ↦ err missing_range
  | some value ↦ parse_range_offset value
]

abbrev pub with_scope : Option Bytes → List (Bytes × Bytes)
with_scope none = []
with_scope (some scope) = (codes "scope", scope) ∷ []

unfoldable pub exists_answer : Result TransportError HttpResponse → Next Bool
exists_answer (err e) = failed e
exists_answer (ok response) =
    if is_success response.status
    then finish (ok true)
    else if response.status == 404
    then finish (ok false)
    else retried response.status

unfoldable pub start_answer : Result TransportError HttpResponse → Next UploadPosition
start_answer (err e) = failed e
start_answer (ok response) =
    if response.status == 202 || response.status == 201
    then finish (upload_position response 0)
    else retried response.status

unfoldable pub status_answer : Result TransportError HttpResponse → Next UploadPosition
status_answer (err e) = failed e
status_answer (ok response) =
    if is_success response.status
    then finish (positioned response (status_offset response))
    else retried response.status

-- what a status says after a chunk whose answer is lost
abbrev pub reached : ℕ → Result ClientError UploadPosition → Next UploadPosition
reached end (err e) = again
reached end (ok position) = if leb end position.offset then finish (ok position) else again

-- where the answer is no 201: the digest may be there all the same
abbrev pub committed_or : Next (Unit {0}) → Result ClientError Bool → Next (Unit {0})
committed_or otherwise found = if or_false found then finish (ok tt) else otherwise

abbrev pub final_range : ℕ → Bytes → Option Bytes
final_range offset bytes =
    if is_empty bytes then none else some (content_range offset (last_byte offset (length bytes)))

unfoldable pub manifest_answer : Result TransportError HttpResponse → Next (Unit {0})
manifest_answer (err e) = failed e
manifest_answer (ok response) =
    if response.status == 201 then finish (ok tt) else retried response.status

module _ {N : Type 0} (environment : Environment N) (client : RegistryClient) where
  unfoldable pub exchange_token : Option Bytes → Client N Bytes
  exchange_token scope = do
    response ← send environment (record {
      method = Method.get;
      url =
          environment.with_pairs client.challenge.realm
            ((codes "service", client.challenge.service) ∷ with_scope scope);
      authorization = basic client.username client.secret;
      content_type = none;
      content_range = none;
      body = [];
    })
    lift (exchanged response)

  unfoldable pub refresh_token : Client N (Unit {0})
  refresh_token =
      exchange_token (some (codes "repository:" ++ (client.repository ++ codes ":pull,push")))
      >>= λ token. set_token token

  -- `registry_url`
  unfoldable pub registry_url : Bytes → Result ClientError Bytes
  registry_url suffix =
      ok_or (environment.join (codes "v2/" ++ (client.repository ++ b'/' ∷ suffix))) invalid_url

  unfoldable pub resolve_location : Bytes → Result ClientError Bytes
  resolve_location location = ok_or (environment.resolve location) invalid_url

  unfoldable pub send_authorized :
      Method
      → Bytes
      → Option Bytes
      → Option Bytes
      → Bytes
      → Client N (Result TransportError HttpResponse)
  send_authorized method url content_type content_range body = current_token >>= λ token.
      send environment (record {
        method = method;
        url = url;
        authorization = bearer token;
        content_type = content_type;
        content_range = content_range;
        body = body;
      })

  module _ {A : Type 0} where
    unfoldable pub proceed : Client N A → Next A → Client N A
    proceed rest (finish result) = lift result
    proceed rest refresh = refresh_token >> rest
    proceed rest again = rest

    -- `for attempt in 0..MAX_ATTEMPTS`; the delays between attempts are left out
    unfoldable pub retry :
        ℕ
        → Client N (Result TransportError HttpResponse)
        → (Result TransportError HttpResponse → Client N (Next A))
        → Client N A
    retry zero try classify = throw exhausted
    retry (suc attempts) try classify = do
      response ← try
      next ← classify response
      proceed (retry attempts try classify) next

  unfoldable pub blob_exists : Digest → Client N Bool
  blob_exists digest = do
    url ←
        lift (registry_url (codes "blobs/" ++ environment.percent_encode (Digest.to_string digest)))
    retry max_attempts (send_authorized Method.head url none none [])
        (λ response. pure (exists_answer response))

  unfoldable pub start_upload : Client N UploadPosition
  start_upload = do
    url ← lift (registry_url (codes "blobs/uploads/"))
    retry max_attempts (send_authorized Method.post url none none [])
        (λ response. pure (start_answer response))

  unfoldable pub upload_status : Bytes → Client N UploadPosition
  upload_status location = do
    url ← lift (resolve_location location)
    retry max_attempts (send_authorized Method.get url none none [])
        (λ response. pure (status_answer response))

  unfoldable pub check_position : Bytes → ℕ → Client N (Next UploadPosition)
  check_position location end =
      attempt (upload_status location) >>= λ result. pure (reached end result)

  unfoldable pub patch_answer :
      Bytes → ℕ → Result TransportError HttpResponse → Client N (Next UploadPosition)
  patch_answer location end (err unreachable) = check_position location end
  patch_answer location end (err broken) = pure (finish (err transport))
  patch_answer location end (ok response) =
      if response.status == 202
      then pure (finish (positioned response (acknowledged_offset response)))
      else if response.status == 401
      then pure refresh
      else if transient response.status
      then check_position location end
      else pure (finish (err (refused response.status)))

  unfoldable pub patch_upload : Bytes → ℕ → Bytes → Client N UploadPosition
  patch_upload location offset bytes = do
    url ← lift (resolve_location location)
    retry max_attempts
        (send_authorized Method.patch url (some (codes "application/octet-stream"))
          (some (content_range offset (last_byte offset (length bytes)))) bytes)
        (patch_answer location (add_u64 offset (length bytes)))

  unfoldable pub check_committed : Digest → Next (Unit {0}) → Client N (Next (Unit {0}))
  check_committed digest otherwise =
      attempt (blob_exists digest) >>= λ found. pure (committed_or otherwise found)

  unfoldable pub complete_answer :
      Digest → Result TransportError HttpResponse → Client N (Next (Unit {0}))
  complete_answer digest (err unreachable) = check_committed digest again
  complete_answer digest (err broken) = pure (finish (err transport))
  complete_answer digest (ok response) =
      if response.status == 201
      then pure (finish (ok tt))
      else if response.status == 401
      then pure refresh
      else if transient response.status
      then check_committed digest again
      else check_committed digest (finish (err (refused response.status)))

  unfoldable pub complete_upload : Bytes → ℕ → Digest → Bytes → Client N (Unit {0})
  complete_upload location offset digest bytes = do
    url ← lift (resolve_location location)
    retry max_attempts
        (send_authorized Method.put
          (environment.with_pairs url ((codes "digest", Digest.to_string digest) ∷ []))
          (some (codes "application/octet-stream")) (final_range offset bytes) bytes)
        (complete_answer digest)

  unfoldable pub put_manifest : Bytes → Bytes → Bytes → Client N (Unit {0})
  put_manifest reference media_type bytes = do
    url ← lift (registry_url (codes "manifests/" ++ environment.percent_encode reference))
    retry max_attempts (send_authorized Method.put url (some media_type) none bytes)
        (λ response. pure (manifest_answer response))
