-- ===== src/Client/Ranges/Agreement.antt =====
-- The server's answers to a chunk and to a question for the status, as the client reads them.
use jcr.Prelude.{
  ℕ, ◌+◌, ◌^◌, ◌<◌, ◌≡◌, sym, ap, ◌∙◌, false, some, Option-cases, Bytes, [], ◌∷◌, length, is_empty,
  arith, ok, inl, inr, ok-injective,
}
use mathlib.Core.Path.{subst}
use jcr.Storage.{BlobStore}
use jcr.Server.Types.{
  Platform, Authorized, Repository, Headers, Body, Response, read_body, full_name, to_str,
  require_repository, registry_response,
}
use jcr.Server.Range.{set_upload_headers}
use jcr.Server.Session.{UploadRecord, fetch_upload}
use jcr.Server.Database.{Database}
use jcr.Server.Exec.{World}
use jcr.Server.Exec.Returns.{Returns, Returns-bind, Returns-lift, Returns-fetch}
use jcr.Server.Upload.{Config, patch_upload, upload_status, parse_upload_id}
use jcr.Server.Upload.Laws.{ReportsParts}
use jcr.Server.Upload.Offsets.{patch_upload-Returns}
use jcr.Client.Exec.{HttpResponse}
use jcr.Client.Requests.{status_offset, acknowledged_offset}
use jcr.Client.Ranges.Laws.{received, status_offset-set_upload_headers}

-- An offset behind a chunk is in a header.
acknowledged_offset-status :
    (response : HttpResponse) (offset : ℕ)
    → 0 < offset
    → status_offset response ≡ ok offset
    → acknowledged_offset response ≡ ok offset
unfolding status_offset acknowledged_offset
acknowledged_offset-status response offset positive h =
    elim (Option-cases (to_str response.range)) [
      | inl e ↦ absurd (start (ok-injective (rw (e, status_offset) at h)))
      | inr (value, e) ↦ rw (e, acknowledged_offset) (rw (e, status_offset) at h)
    ]
  where
    start : 0 ≡ offset → ⊥
    start k = omega arith

some_bytes : (bytes : Bytes) → is_empty bytes ≡ false → 0 < length bytes
some_bytes [] e = cc
some_bytes (b ∷ bytes) e = omega arith

module _ {S : Type 0} (store : BlobStore S) (platform : Platform) (config : Config) where
  upload_status-Returns :
      (now : ℕ) (authorized : Authorized) (id : Bytes) (w : World S)
      → Returns (upload_status store platform config now authorized id) w (λ r w'.
        (repository : Repository) × (upload_id : ℕ) × (upload : UploadRecord) × (require_repository
            authorized.repository
          ≡ ok repository)
        × (parse_upload_id store platform config id ≡ ok upload_id)
        × (fetch_upload repository.id upload_id w.db ≡ some upload)
        × (set_upload_headers platform.uuid_text
              (full_name repository)
              upload_id
              upload.session.accepted_offset
              (registry_response 204)
            ≡ ok r))
  unfolding upload_status
  upload_status-Returns now authorized id w = Returns-bind _ _ _ _ (
      Returns-lift _ _ _ (λ repository named. Returns-bind _ _ _ _ (
        Returns-lift _ _ _ (λ upload_id parsed. Returns-bind _ _ _ _ (
          Returns-fetch _ _ _ _ (λ upload found. Returns-bind _ _ _ _ (
            Returns-lift _ _ _ (λ _ valid.
              Returns-lift _ _ _
                (λ r answer. (repository, upload_id, upload, named, parsed, found, answer))))))))))

same_upload :
    (repository repository' : Repository) (id id' : ℕ) (db : Database) (u u' : UploadRecord)
    → repository' ≡ repository
    → id' ≡ id
    → fetch_upload repository'.id id' db ≡ some u'
    → fetch_upload repository.id id db ≡ some u
    → u' ≡ u
same_upload repository repository' id id' db u u' e k found' found = upload_of (
    sym found'
    ∙ (ap (λ r. fetch_upload r.id id' db) e
        ∙ (ap (λ i. fetch_upload repository.id i db) k ∙ found)))
  where
    upload_of : some u' ≡ some u → u' ≡ u
    upload_of h = cc

-- The server behaves as the client expects of it. A chunk that it answers with 202 is acknowledged at the
-- offset that the session had before and the length of the chunk, as the client reads it, and a question
-- for the status that is answered after it gives the same offset, given that the store reports of a part
-- the number and the size of what it was sent.
pub upload_status-patch_upload :
    {S : Type 0} (store : BlobStore S) (platform : Platform) (config : Config)
    → ReportsParts store
    → (now later : ℕ) (authorized : Authorized) (id : Bytes) (headers : Headers) (body : Body)
      (w w' w'' : World S) (r r' : Response)
    → patch_upload store platform config now authorized id headers body w ≡ (ok r, w')
    → upload_status store platform config later authorized id w' ≡ (ok r', w'')
    → (repository : Repository) × (upload_id : ℕ) × (bytes : Bytes) × (before : UploadRecord)
      × (require_repository authorized.repository ≡ ok repository)
      × (parse_upload_id store platform config id ≡ ok upload_id)
      × (read_body body headers config.upload_chunk_limit ≡ ok bytes)
      × (fetch_upload repository.id upload_id w.db ≡ some before)
      × (acknowledged_offset (received r) ≡ ok (before.session.accepted_offset + length bytes))
      × (status_offset (received r') ≡ ok (before.session.accepted_offset + length bytes))
upload_status-patch_upload store platform config reports now later authorized id headers body w w'
      w'' r r' patched asked =
    let (repository, upload_id, bytes, offset, named, parsed, sent, filled, advanced, answer) =
      (patch_upload-Returns store platform config reports now authorized id headers body w).at r w'
        patched in
    let (repository', upload_id', upload, named', parsed', found, answer') =
      (upload_status-Returns store platform config later authorized id w').at r' w'' asked in
    let small : offset < 2 ^ 64 = omega (arith, advanced.limited) in
    let positive : 0 < offset = omega (arith, advanced.end, some_bytes bytes filled) in
    let same_repository : repository' ≡ repository = ok-injective (sym named' ∙ named) in
    let same_id : upload_id' ≡ upload_id = ok-injective (sym parsed' ∙ parsed) in
    let same_record : upload ≡ advanced.kept =
      same_upload repository repository' upload_id upload_id' w'.db advanced.kept upload
        same_repository same_id found advanced.fetched_after in
    let same_offset : upload.session.accepted_offset ≡ offset =
      ap (λ u. u.session.accepted_offset) same_record ∙ advanced.accepted in
    let read =
      (status_offset-set_upload_headers platform.uuid_text (full_name repository) upload_id offset
        202 r small answer).0 in
    let read' =
      (status_offset-set_upload_headers platform.uuid_text (full_name repository') upload_id'
        upload.session.accepted_offset 204 r' (subst (λ n. n < 2 ^ 64) (sym same_offset) small)
        answer').0 in
    (
      repository,
      upload_id,
      bytes,
      advanced.found,
      named,
      parsed,
      sent,
      advanced.fetched,
      acknowledged_offset-status (received r) offset positive read ∙ ap ok advanced.end,
      read' ∙ ap ok (same_offset ∙ advanced.end),
    )
