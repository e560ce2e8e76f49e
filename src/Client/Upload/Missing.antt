-- ===== src/Client/Upload/Missing.antt =====
-- registry.rs, upload_blob: the position from which a missing blob is sent, remembered or new.
use jcr.Prelude.{
  none-some, refl, ℕ, ◌%◌, ◌^◌, ◌<◌, ◌≡◌, inl, inr, sym, ap, ◌∙◌, refl, true, ◌&&◌, none, some,
  Option, [], ◌++◌, Bytes, length, leb, ◌==◌, Option-cases, Result, ok, err,
}
use jcr.Digest.{Digest}
use jcr.Client.Exec.{
  ClientState, ClientError, ResumeEntry, ResumeData, resume_entry, Environment, RegistryClient,
  invalid_url, resume_get,
}
use jcr.Client.Runs.{
  Runs, Runs-pure, Runs-lift, Runs-mono, Runs-if, Runs-bind, Runs-attempt, Either,
}
use jcr.Client.Requests.{UploadPosition, resolve_location, upload_status}
use jcr.Client.Requests.Retries.{Position, upload_status-Runs}
use jcr.Client.Registry.{IsFaithful, IsClean, IsQuiet, IsClean-IsQuiet}
use jcr.Client.Upload.{
  BlobFile, drop, as_entry, restart, resume_or_start, initial_position, upload_missing,
}
use jcr.Client.Upload.Files.{drop-append}
use jcr.Client.Upload.Starting.{Fresh, start_upload-Runs, resume_set-Runs, resume_remove-Runs}
use jcr.Client.Upload.Delivery.{CanResume, IsStored, upload_from-Runs}
use jcr.Client.Upload.Chunked.{Loop-IsResumable, saved-Loop}

module _ {N : Type 0} (environment : Environment N) (client : RegistryClient)
    (received : Bytes → N → Bytes) (stored : Digest → Bytes → N → Type 0)
    (faithful : IsFaithful environment client received stored) (chunk_size : ℕ)
    (positive : 0 < chunk_size) (content : Bytes) (blob : BlobFile)
    (readable : blob.content ≡ some content) (sized : length content ≡ blob.size)
    (bounded : blob.size < 2 ^ 64) (key : Bytes) where
  abbrev Clean : N → Type 0
  Clean = IsClean stored blob.digest content

  quiet : IsQuiet environment Clean
  quiet = IsClean-IsQuiet environment client received stored faithful blob.digest content

  saved_clean : (uploads : ResumeData) (n : N) → Clean n → Clean (environment.save uploads n).1
  saved_clean uploads n clean other there =
      clean other (faithful.unsaved blob.digest other uploads n there)

  -- a position, of which nothing is remembered yet
  record Start (position : UploadPosition) (s : ClientState N) : Type 0 where
    url : Bytes
    resolved : environment.resolve position.location ≡ some url
    held : Bytes
    offset : position.offset ≡ length held
    holds : received url s.network ≡ held
    is_one : faithful.is_upload url ≡ true
    clean : Clean s.network
    whole : held ++ drop position.offset content ≡ content

  abbrev Stored : Unit {0} → ClientState N → Type 0
  Stored =
      IsStored environment client received stored faithful chunk_size positive content blob readable
        sized bounded key

  abbrev IsPrefix : Bytes → Type 0
  IsPrefix held = (rest : Bytes) × (held ++ rest ≡ content)

  abbrev pub Resumable : ClientState N → Type 0
  Resumable =
      CanResume environment client received stored faithful chunk_size positive content blob
        readable sized bounded key

  vacant-Resumable :
      (s : ClientState N) → resume_entry key s.uploads ≡ none → Clean s.network → Resumable s
  vacant-Resumable s v clean = (λ entry e. absurd (none-some (sym v ∙ e)), clean)

  pub saved-Resumable :
      (s : ClientState N) (uploads : ResumeData)
      → resume_entry key uploads ≡ none
      → Clean s.network
      → Resumable (record s { network = (environment.save uploads s.network).1; uploads = uploads })
  saved-Resumable s uploads v clean =
      vacant-Resumable
        (record s { network = (environment.save uploads s.network).1; uploads = uploads }) v
        (saved_clean uploads s.network clean)

  new_upload-At :
      (position : UploadPosition) (s : ClientState N)
      → Fresh environment client received stored faithful key blob.digest content position s
      → Start position s
  unfolding drop
  new_upload-At position s (url, resolved, is_one, zero_offset, empty, clean) = record {
    is_one = is_one;
    clean = clean;
    url = url;
    resolved = resolved;
    held = [];
    offset = zero_offset;
    holds = empty;
    whole = ap (λ n. drop n content) zero_offset;
  }

  known_upload-At :
      (url : Bytes) (position : UploadPosition) (s : ClientState N)
      → Position environment client received stored faithful url
          (λ c u. IsPrefix c)
          Clean
          quiet
          position
          s
      → faithful.is_upload url ≡ true
      → Start position s
  known_upload-At url position s (resolved, offset, ((rest, prefix), clean)) is_one = record {
    is_one = is_one;
    clean = clean;
    url = url;
    resolved = resolved;
    held = received url s.network;
    offset = offset;
    holds = refl;
    whole =
        ap (λ n. received url s.network ++ drop n content) offset
        ∙ (ap (λ c. received url s.network ++ drop (length (received url s.network)) c) (sym prefix)
            ∙ (ap (λ r. received url s.network ++ r) (drop-append (received url s.network) rest)
                ∙ prefix));
  }

  restart-Runs :
      (s : ClientState N)
      → Clean s.network
      → Runs (restart environment client chunk_size key) s Start (λ s'. Resumable s')
  unfolding restart
  restart-Runs s clean = Runs-bind _ _ _ _ _ (
      resume_remove-Runs environment client received stored faithful key s _ _ (λ uploads v. (
        Runs-mono _ _ _ _ _ _ (λ position s' f. new_upload-At position s' f)
            (λ s' (v, clean). vacant-Resumable s' v clean)
            (start_upload-Runs environment client received stored faithful key blob.digest content _
              (v, saved_clean uploads s.network clean)),
        saved-Resumable s uploads v clean,
      )))

  resume_or_start-Runs :
      (url : Bytes) (result : Result ClientError UploadPosition) (s : ClientState N)
      → ((position : UploadPosition) → result ≡ ok position → faithful.is_upload url ≡ true)
      → Either
          (Position environment client received stored faithful url (λ c u. IsPrefix c) Clean quiet)
          (λ s. Clean s.network)
          result
          s
      → Runs
          (resume_or_start environment client chunk_size key blob.size result)
          s
          Start
          (λ s'. Resumable s')
  unfolding resume_or_start
  resume_or_start-Runs url (err e) s one h = restart-Runs s h
  resume_or_start-Runs url (ok position) s one h =
      Runs-if _ _ _ (leb position.offset blob.size && position.offset % chunk_size == 0) _ _
        (λ _. Runs-pure _ _ _ _ (known_upload-At url position s h (one position refl)))
        (λ _. restart-Runs s h.2.1)

  -- a remembered location that is no URL
  after_lost :
      (result : Result ClientError UploadPosition) (s : ClientState N)
      → Either (λ position s. ⊥) (λ s. Clean s.network) result s
      → Runs
          (resume_or_start environment client chunk_size key blob.size result)
          s
          Start
          (λ s'. Resumable s')
  unfolding resume_or_start
  after_lost (err e) s h = restart-Runs s h
  after_lost (ok position) s h = absurd h

  unresolved-Runs :
      (location : Bytes) (s : ClientState N) (Q : UploadPosition → ClientState N → Type 0)
      → environment.resolve location ≡ none
      → Clean s.network
      → Runs (upload_status environment client location) s Q (λ s. Clean s.network)
  unfolding upload_status resolve_location
  unresolved-Runs location s Q e clean =
      rw e (Runs-bind _ _ _ _ _ (Runs-lift _ _ _ _ (λ target h. absurd (never target h)) clean))
    where
      never :
          (target : Bytes) → ◌≡◌ {A = Result ClientError Bytes} (err invalid_url) (ok target) → ⊥
      never target h = cc

  initial_position-Runs :
      (saved : Option ResumeEntry) (s : ClientState N)
      → resume_entry key s.uploads ≡ saved
      → Resumable s
      → Runs
          (initial_position environment client chunk_size key blob.size saved)
          s
          Start
          (λ s'. Resumable s')
  unfolding initial_position
  initial_position-Runs none s known h =
      Runs-mono _ _ _ _ _ _ (λ position s' f. new_upload-At position s' f)
        (λ s' (v, clean). vacant-Resumable s' v clean)
        (start_upload-Runs environment client received stored faithful key blob.digest content s
          (known, h.1))
  initial_position-Runs (some entry) s known h =
      elim (Option-cases (environment.resolve entry.location)) [
        | inl lost ↦ Runs-bind _ _ _ _ _ (
            Runs-mono _ _ _ _ _ _ (λ result s' e. after_lost result s' e) (λ s' i. i)
              (Runs-attempt _ _ (λ _ _. ⊥) (λ s. Clean s.network) Resumable
                (unresolved-Runs entry.location s _ lost h.1)))
        | inr (url, at) ↦
            let (is_one, prefix) = h.0 entry known url at in
            Runs-bind _ _ _ _ _ (
              Runs-mono _ _ _ _ _ _
                (λ result s' e. resume_or_start-Runs url result s' (λ _ _. is_one) e) (λ s' i. i)
                (Runs-attempt _ _
                  (Position environment client received stored faithful url (λ c u. IsPrefix c)
                    Clean quiet)
                  (λ s. Clean s.network) Resumable
                  (Runs-mono _ _ _ _ _ _ (λ position s' p. p) (λ s' k. k.1)
                    (upload_status-Runs environment client received stored faithful url
                      (λ c u. IsPrefix c) Clean quiet entry.location s at is_one (prefix, h.1)))))
      ]

  pub kept-Stored :
      (uploads : ResumeData) (s : ClientState N)
      → Stored tt s
      → Stored tt (record s { network = (environment.save uploads s.network).1; uploads = uploads })
  kept-Stored uploads s (h, clean) =
      (faithful.kept blob.digest content uploads s.network h, saved_clean uploads s.network clean)

  resume_get-Runs :
      (s : ClientState N) (Q : Option ResumeEntry → ClientState N → Type 0)
      (E : ClientState N → Type 0)
      → Q (resume_entry key s.uploads) s
      → Runs (resume_get key) s Q E
  unfolding resume_get
  resume_get-Runs s Q E q = record { at = q }

  pub upload_missing-Runs :
      (s : ClientState N)
      → Resumable s
      → Runs (upload_missing environment client chunk_size key blob) s Stored (λ s'. Resumable s')
  unfolding upload_missing
  upload_missing-Runs s h = Runs-bind _ _ _ _ _ (
      resume_get-Runs s _ _ (
        Runs-bind _ _ _ _ _ (
          Runs-mono _ _ _ _ _ _
            (λ position s' l. Runs-bind _ _ _ _ _ (
              resume_set-Runs environment client received stored faithful key s' _ _
                (as_entry position)
                (λ uploads set.
                  let l' =
                    saved-Loop environment client received stored faithful chunk_size positive
                      content blob.size sized bounded key blob.digest position
                      (drop position.offset content) s' uploads l.url l.held set l.resolved l.offset
                      l.holds l.whole l.is_one l.clean in
                  (
                    Runs-bind _ _ _ _ _ (
                        Runs-mono _ _ _ _ _ _
                          (λ _ s'' d.
                            resume_remove-Runs environment client received stored faithful key s'' _
                              _
                              (λ others v.
                                (kept-Stored others s'' d, saved-Resumable s'' others v d.1)))
                          (λ s'' i. i)
                          (upload_from-Runs environment client received stored faithful chunk_size
                            positive content blob readable sized bounded key position _ l')),
                    Loop-IsResumable environment client received stored faithful chunk_size positive
                        content blob.size sized bounded key blob.digest position
                        (drop position.offset content) _ l',
                  ))))
            (λ s' i. i) (initial_position-Runs (resume_entry key s.uploads) s refl h))))
