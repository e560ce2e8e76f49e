-- ===== src/Server/Upload/Laws.antt =====
-- registry.rs, patch_upload and cancel_upload, on the invariant of upload sessions.
use jcr.Prelude.{
  ℕ, ◌<◌, ◌≡◌, refl, sym, inr, true, false, Option, none, some, [], ◌∷◌, arith, length, is_empty,
  Bytes, ok,
}
use mathlib.Core.Path.{subst}
use jcr.Storage.{BlobStore, CompletedPart, StorageUpload}
use jcr.Server.Types.{Authorized, Headers, HeaderValue, Body, Platform}
use jcr.Server.Exec.{World}
use jcr.Server.Exec.Returns.{
  Returns, Returns-bind, Returns-fetch, Returns-lift, Returns-call, Returns-execute, Returns-pure,
  Keeps-committed,
}
use jcr.Server.Exec.Keeps.{
  Keeps, Keeps-bind, Keeps-lift, Keeps-if, Keeps-throw, Keeps-modify, Keeps-fetch, Keeps-call,
  Keeps-pure,
}
use jcr.Server.Session.{UploadRecord, validate_upload, storage_upload, is_uploading}
use jcr.Server.Session.Invariant.{IsValid, Allowed}
use jcr.Server.Session.Steps.{IsAccepted, patch-IsValid, cancel-IsValid}
use jcr.Server.Upload.{Config, check_chunk, patch_transaction, patch_upload, cancel_upload}

-- What the store reports of a part: the number it was given, and the size of its bytes.
pub record ReportsParts {S : Type 0} (store : BlobStore S) : Type 0 where
  pub reported :
      (upload : StorageUpload) (number : ℕ) (bytes : Bytes) (s : S) (part : CompletedPart) (s' : S)
      → store.upload_part upload number bytes s ≡ (ok part, s')
      → (part.part_number ≡ number) × (part.size ≡ length bytes)

pub check_chunk-Allowed :
    (uniform last : Option ℕ) (len : ℕ)
    → check_chunk uniform last len ≡ ok tt
    → Allowed uniform last len
unfolding check_chunk
check_chunk-Allowed none last len h = tt
check_chunk-Allowed (some s) none len h = ground arith
check_chunk-Allowed (some s) (some l) len h = (ground arith, inr (l, refl, ground arith))

pub validate_upload-open :
    (now : ℕ) (u : UploadRecord)
    → validate_upload now u ≡ ok tt
    → is_uploading u.session.status ≡ true
unfolding validate_upload
validate_upload-open now u h = ground arith

module _ {S : Type 0} (store : BlobStore S) where
  -- What the handlers check, and what the store reports of the part that it was sent.
  pub accepted :
      ReportsParts store
      → (now : ℕ) (upload : UploadRecord) (bytes : Bytes) (s s' : S) (part : CompletedPart)
      → validate_upload now upload ≡ ok tt
      → 0 < length bytes
      → check_chunk upload.session.uniform_part_size upload.last_part_size (length bytes) ≡ ok tt
      → store.upload_part (storage_upload upload) upload.session.next_part_number bytes s
        ≡ (ok part, s')
      → IsAccepted upload part
  accepted reports now upload bytes s s' part valid pos checked sent =
      let (number, size) =
        reports.reported (storage_upload upload) upload.session.next_part_number bytes s part s'
          sent in
      record {
        open_still = validate_upload-open now upload valid;
        number = number;
        nonempty = subst (λ n. 0 < n) (sym size) pos;
        allowed =
            subst (Allowed upload.session.uniform_part_size upload.last_part_size) (sym size) (
              check_chunk-Allowed upload.session.uniform_part_size upload.last_part_size
                (length bytes) checked);
      }

module _ {S : Type 0} (store : BlobStore S) (platform : Platform) (config : Config) where
  -- A committed PATCH keeps the invariant of sessions.
  patch_transaction-IsValid :
      ReportsParts store
      → (now repository_id id : ℕ) (range : HeaderValue) (bytes : Bytes) → 0 < length bytes
      → (w : World S) → IsValid w.db
      → Returns
          (patch_transaction store platform config now repository_id id range bytes)
          w
          (λ offset w'. IsValid w'.db)
  unfolding patch_transaction
  patch_transaction-IsValid reports now repository_id id range bytes pos w v =
      Returns-bind _ _ _ _ (
        Returns-fetch _ _ _ _ (λ upload found. Returns-bind _ _ _ _ (
          Returns-lift _ _ _ (λ _ valid. Returns-bind _ _ _ _ (
            Returns-lift _ _ _ (λ _ ranged. Returns-bind _ _ _ _ (
              Returns-lift _ _ _ (λ _ checked. Returns-bind _ _ _ _ (
                Returns-call _ _ _ (λ part s sent. Returns-bind _ _ _ _ (
                  Returns-execute _ _ _ (λ d stored. Returns-pure _ _ _ (
                    patch-IsValid repository_id id w.db upload v found part
                      (accepted store reports now upload bytes w.store s part valid pos checked
                        sent)
                      d stored)))))))))))))

  nonempty : (bytes : Bytes) → is_empty bytes ≡ false → 0 < length bytes
  nonempty [] e = cc
  nonempty (b ∷ bs) e = omega arith

  pub patch_upload-Keeps :
      ReportsParts store
      → (now : ℕ) (authorized : Authorized) (id : Bytes) (headers : Headers) (body : Body)
      → Keeps IsValid (patch_upload store platform config now authorized id headers body)
  unfolding patch_upload
  patch_upload-Keeps reports now authorized id headers body =
      Keeps-bind _ _ (Keeps-lift _) (λ repository. Keeps-bind _ _ (Keeps-lift _) (λ upload_id.
        Keeps-bind _ _ (Keeps-lift _) (λ bytes.
          Keeps-if _ _ _ (λ e. Keeps-throw _)
            (λ e.
              Keeps-bind _ _
                (Keeps-committed _ (λ w v.
                  patch_transaction-IsValid reports now repository.id upload_id
                    headers.content_range bytes (nonempty bytes e) w v))
                (λ offset. Keeps-lift _)))))

  pub cancel_upload-Keeps :
      (now : ℕ) (authorized : Authorized) (id : Bytes)
      → Keeps IsValid (cancel_upload store platform config now authorized id)
  unfolding cancel_upload
  cancel_upload-Keeps now authorized id = Keeps-bind _ _ (Keeps-lift _) (λ repository.
      Keeps-bind _ _ (Keeps-lift _) (λ upload_id. Keeps-bind _ _ (Keeps-fetch _ _) (λ upload.
        Keeps-bind _ _ (Keeps-lift _) (λ _.
          Keeps-bind _ _ (Keeps-call _) (λ _.
            Keeps-bind _ _ (Keeps-modify _ (cancel-IsValid upload_id)) (λ _. Keeps-pure _))))))

  -- The PATCH handler keeps the invariant of upload sessions, whether it answers or fails at any step, for a
  -- store that reports the number and the size of the part that it was sent: the offset is the total of the
  -- parts, the parts are numbered from 1 without a gap, and where a session has a uniform size, that of its first part, all parts but the
  -- last have it and the last is not larger.
  pub patch_upload-IsValid :
      ReportsParts store
      → (now : ℕ) (authorized : Authorized) (id : Bytes) (headers : Headers) (body : Body)
        (w : World S)
      → IsValid w.db
      → IsValid (patch_upload store platform config now authorized id headers body w).1.db
  patch_upload-IsValid reports now authorized id headers body w v =
      (patch_upload-Keeps reports now authorized id headers body).at w v
