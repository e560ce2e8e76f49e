-- ===== src/Client/Registry.antt =====
-- What the client relies on of a registry behind a network that may lose requests and answers: the
-- behaviour of uploads that the OCI distribution API documents.
use jcr.Prelude.{
  ℕ, ◌+◌, ◌<◌, ◌≡◌, ◌⊎◌, Bool, true, false, none, some, Option, [], ◌∷◌, ◌++◌, Bytes, codes, length,
  ◌==◌, Result, ok, err,
}
use jcr.Digest
use jcr.Digest.{Digest}
use jcr.Client.Exec.{
  Method, bearer, basic, Request, HttpResponse, TransportError, ClientError, transport, Environment,
  RegistryClient, ResumeData,
}
use jcr.Client.Ranges.{last_byte, content_range, is_success}
use jcr.Client.Requests.{
  UploadPosition, positioned, status_offset, acknowledged_offset, upload_position, final_range,
}

abbrev pub has_status : ℕ → Result TransportError HttpResponse → Bool
has_status status (ok response) = response.status == status
has_status status (err e) = false

abbrev pub succeeded : Result TransportError HttpResponse → Bool
succeeded (ok response) = is_success response.status
succeeded (err e) = false

-- a position of the upload at `url`
pub record IsAt (resolve : Bytes → Option Bytes) (url : Bytes) (offset : ℕ)
    (result : Result ClientError UploadPosition) : Type 0 where
  pub location : Bytes
  pub resolved : resolve location ≡ some url
  pub position : result ≡ ok (record { location = location; offset = offset })

abbrev pub status_position : Result TransportError HttpResponse → Result ClientError UploadPosition
status_position (ok response) = positioned response (status_offset response)
status_position (err e) = err transport

abbrev pub chunk_position : Result TransportError HttpResponse → Result ClientError UploadPosition
chunk_position (ok response) = positioned response (acknowledged_offset response)
chunk_position (err e) = err transport

abbrev pub start_position : Result TransportError HttpResponse → Result ClientError UploadPosition
start_position (ok response) = upload_position response 0
start_position (err e) = err transport

abbrev octet_stream : Option Bytes
octet_stream = some (codes "application/octet-stream")

abbrev pub bare_request : Method → Bytes → Bytes → Request
bare_request method url token = record {
  method = method;
  url = url;
  authorization = bearer token;
  content_type = none;
  content_range = none;
  body = [];
}

abbrev pub patch_request : Bytes → Bytes → ℕ → Bytes → Request
patch_request url token offset body = record {
  method = Method.patch;
  url = url;
  authorization = bearer token;
  content_type = octet_stream;
  content_range = some (content_range offset (last_byte offset (length body)));
  body = body;
}

abbrev pub put_request : Bytes → Bytes → ℕ → Bytes → Request
put_request url token offset body = record {
  method = Method.put;
  url = url;
  authorization = bearer token;
  content_type = octet_stream;
  content_range = final_range offset body;
  body = body;
}

abbrev pub token_request : Bytes → Bytes → Bytes → Request
token_request url username secret = record {
  method = Method.get;
  url = url;
  authorization = basic username secret;
  content_type = none;
  content_range = none;
  body = [];
}

-- A body at an offset is appended, if it stands there, or ignored; in either case the answer may be lost.
pub data Appended (before after body : Bytes) (offset : ℕ) (acknowledged : Bool) : Type 0 where
  ignored : acknowledged ≡ false → after ≡ before → Appended before after body offset acknowledged
  taken :
      (0 < length body → length before ≡ offset)
      → after ≡ before ++ body
      → Appended before after body offset acknowledged

-- whether a request may store content: the methods that write no blob do not
abbrev pub may_store : Method → Bool
may_store Method.put = true
may_store Method.post = true
may_store _ = false

-- No content but the one is stored under the digest.
abbrev pub IsClean : {N : Type 0} → (Digest → Bytes → N → Type 0) → Digest → Bytes → N → Type 0
IsClean stored digest content n = (other : Bytes) → stored digest other n → other ≡ content

-- What requests that store nothing keep.
abbrev pub IsQuiet : {N : Type 0} → Environment N → (N → Type 0) → Type 0
IsQuiet {N} environment Keep =
    (r : Request) (n : N) → may_store r.method ≡ false → Keep n → Keep (environment.send r n).1

-- where uploads of a repository are started
abbrev pub uploads_url : {N : Type 0} → Environment N → RegistryClient → Option Bytes
uploads_url environment client =
    environment.join (codes "v2/" ++ (client.repository ++ b'/' ∷ codes "blobs/uploads/"))

-- `received` is what the upload at a URL holds, and `stored` says that a digest's content is stored.
pub record IsFaithful {N : Type 0} (environment : Environment N) (client : RegistryClient)
    (received : Bytes → N → Bytes) (stored : Digest → Bytes → N → Type 0) : Type 0 where
  -- which URLs are of uploads
  pub is_upload : Bytes → Bool
  -- a chunk that is acknowledged has been appended, and is acknowledged with the new offset
  pub patched :
      (url token : Bytes) (offset : ℕ) (body : Bytes) (n : N)
      → 0 < length body
      → Appended
          (received url n)
          (received url (environment.send (patch_request url token offset body) n).1)
          body
          offset
          (has_status 202 (environment.send (patch_request url token offset body) n).0)
  pub acknowledged :
      (url token : Bytes) (offset : ℕ) (body : Bytes) (n : N)
      → 0 < length body
      → has_status 202 (environment.send (patch_request url token offset body) n).0 ≡ true
      → IsAt environment.resolve url
          (offset + length body)
          (chunk_position (environment.send (patch_request url token offset body) n).0)
  -- a question for the status changes nothing, and is answered with the length of what is there
  pub asked :
      (url token : Bytes) (n : N)
      → received url (environment.send (bare_request Method.get url token) n).1 ≡ received url n
  pub answered :
      (url token : Bytes) (n : N)
      → is_upload url ≡ true
      → succeeded (environment.send (bare_request Method.get url token) n).0 ≡ true
      → IsAt environment.resolve url
          (length (received url n))
          (status_position (environment.send (bare_request Method.get url token) n).0)
  -- a new upload is empty
  pub started :
      (target token : Bytes) (n : N)
      → uploads_url environment client ≡ some target
      → has_status 202 (environment.send (bare_request Method.post target token) n).0 ≡ true
        ⊎ has_status 201 (environment.send (bare_request Method.post target token) n).0 ≡ true
      → (url : Bytes) × (is_upload url ≡ true)
        × IsAt environment.resolve url 0
            (start_position (environment.send (bare_request Method.post target token) n).0)
        × (received url (environment.send (bare_request Method.post target token) n).1 ≡ [])
  -- a completion that is answered has appended the last bytes, if there are any, and stored the whole
  pub completed :
      (url token : Bytes) (offset : ℕ) (digest : Digest) (body : Bytes) (n : N)
      → let target = environment.with_pairs url ((codes "digest", Digest.to_string digest) ∷ []) in
        Appended
          (received url n)
          (received url (environment.send (put_request target token offset body) n).1)
          body
          offset
          (has_status 201 (environment.send (put_request target token offset body) n).0)
  pub committed :
      (url token : Bytes) (offset : ℕ) (digest : Digest) (body : Bytes) (n : N)
      → let target = environment.with_pairs url ((codes "digest", Digest.to_string digest) ∷ []) in
        has_status 201 (environment.send (put_request target token offset body) n).0 ≡ true
        → stored digest
            (received url (environment.send (put_request target token offset body) n).1)
            (environment.send (put_request target token offset body) n).1
  -- what a question for a digest, a token, and the file of the client change
  pub headed :
      (url target token : Bytes) (n : N)
      → received url (environment.send (bare_request Method.head target token) n).1 ≡ received url n
  pub found :
      (digest : Digest) (target token : Bytes) (n : N)
      → environment.join (
          codes "v2/"
          ++ (client.repository
              ++ b'/' ∷ (codes "blobs/" ++ environment.percent_encode (Digest.to_string digest))))
        ≡ some target
      → succeeded (environment.send (bare_request Method.head target token) n).0 ≡ true
      → (content : Bytes) × stored digest content
          (environment.send (bare_request Method.head target token) n).1
  pub authenticated :
      (url target : Bytes) (n : N)
      → received url (environment.send (token_request target client.username client.secret) n).1
        ≡ received url n
  pub saved :
      (url : Bytes) (uploads : ResumeData) (n : N)
      → received url (environment.save uploads n).1 ≡ received url n
  pub kept :
      (digest : Digest) (content : Bytes) (uploads : ResumeData) (n : N)
      → stored digest content n
      → stored digest content (environment.save uploads n).1
  -- What is stored under a digest was stored before, or is what an upload held that was completed with it.
  pub unstored :
      (r : Request) (digest : Digest) (content : Bytes) (n : N)
      → may_store r.method ≡ false
      → stored digest content (environment.send r n).1
      → stored digest content n
  pub opened :
      (target token : Bytes) (digest : Digest) (content : Bytes) (n : N)
      → uploads_url environment client ≡ some target
      → stored digest content (environment.send (bare_request Method.post target token) n).1
      → stored digest content n
  pub replaced :
      (url token : Bytes) (offset : ℕ) (digest : Digest) (body content : Bytes) (n : N)
      → let target = environment.with_pairs url ((codes "digest", Digest.to_string digest) ∷ []) in
        stored digest content (environment.send (put_request target token offset body) n).1
        → stored digest content n
          ⊎ ((content ≡ received url (environment.send (put_request target token offset body) n).1)
              × (received url (environment.send (put_request target token offset body) n).1
                  ≡ received url n ++ body)
              × (0 < length body → length (received url n) ≡ offset))
  pub unsaved :
      (digest : Digest) (content : Bytes) (uploads : ResumeData) (n : N)
      → stored digest content (environment.save uploads n).1
      → stored digest content n

pub IsClean-IsQuiet :
    {N : Type 0} (environment : Environment N) (client : RegistryClient)
    (received : Bytes → N → Bytes) (stored : Digest → Bytes → N → Type 0)
    → IsFaithful environment client received stored
    → (digest : Digest) (content : Bytes) → IsQuiet environment (IsClean stored digest content)
IsClean-IsQuiet environment client received stored faithful digest content r n h clean other there =
    clean other (faithful.unstored r digest other n h there)
