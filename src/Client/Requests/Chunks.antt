-- ===== src/Client/Requests/Chunks.antt =====
-- registry.rs, patch_upload, whatever requests and answers are lost.
use jcr.Prelude.{
  true-false, ℕ, ◌^◌, ◌+◌, ◌≤◌, ◌<◌, ◌≡◌, ◌⊎◌, inl, inr, sym, ap, ◌∙◌, refl, Bool, true, false,
  some, ◌++◌, Bytes, codes, length, length-append, leb, ◌==◌, if◌then◌else◌, arith, Bool-cases,
  Result, ok, err,
}
use mathlib.Core.Path.{subst}
use jcr.Digest.{Digest}
use jcr.Client.Exec.{
  ResumeData, Method, ClientState, ClientError, Environment, RegistryClient, HttpResponse,
  TransportError, unreachable, broken, refused, pure,
}
use jcr.Client.Runs.{
  returned, failed, Runs, Runs-pure, Runs-lift, Runs-mono, Runs-bind, Runs-attempt, Either,
}
use jcr.Client.Ranges.{add_u64, last_byte, content_range, transient}
use jcr.Client.Requests.{
  UploadPosition, Next, finish, refresh, max_attempts, resolve_location, send_authorized,
  positioned, acknowledged_offset, reached, check_position, patch_answer, patch_upload,
}
use jcr.Client.Requests.Retries.{token_kept, token_changed, Position, upload_status-Runs}
use jcr.Client.Requests.Sending.{After, retry-Runs, send_authorized-Runs}
use jcr.Client.Registry.{
  IsFaithful, IsQuiet, IsAt, Appended, ignored, taken, has_status, chunk_position, patch_request,
}

pub add_u64_lem : (a b : ℕ) → a + b < 2 ^ 64 → add_u64 a b ≡ a + b
unfolding add_u64
add_u64_lem a b h = omega arith

module _ {N : Type 0} (environment : Environment N) (client : RegistryClient)
    (received : Bytes → N → Bytes) (stored : Digest → Bytes → N → Type 0)
    (faithful : IsFaithful environment client received stored) (url held body : Bytes)
    (some_bytes : 0 < length body) (fits : length held + length body < 2 ^ 64)
    (is_one : faithful.is_upload url ≡ true) (Keep : N → Type 0) (quiet : IsQuiet environment Keep)
    (uploads : ResumeData) where
  -- the chunk is not there yet, or is
  abbrev Pending : Bytes → Type 0
  Pending content = (content ≡ held) ⊎ (content ≡ held ++ body)

  -- what the requests keep: that, and what is remembered of resumable uploads
  abbrev J : Bytes → ResumeData → Type 0
  J content remembered = Pending content × (remembered ≡ uploads)

  abbrev I : ClientState N → Type 0
  I s = J (received url s.network) s.uploads × Keep s.network

  -- a position behind the chunk
  abbrev Behind : UploadPosition → ClientState N → Type 0
  Behind position s =
      (environment.resolve position.location ≡ some url)
      × (position.offset ≡ length held + length body)
      × (received url s.network ≡ held ++ body)
      × (s.uploads ≡ uploads)
      × Keep s.network

  abbrev NextAfter : Next UploadPosition → ClientState N → Type 0
  NextAfter =
      After environment client I
        (token_kept environment client received stored faithful url (λ c u. J c u) Keep quiet)
        (token_changed environment client received stored faithful url (λ c u. J c u) Keep quiet)
        Behind

  twice : (before : Bytes) → before ≡ held ++ body → length before ≡ length held → ⊥
  twice before e h = omega (arith, ap length e, length-append {0} held body)

  once-Pending :
      (before after : Bytes) (acknowledged : Bool)
      → Pending before
      → Appended before after body (length held) acknowledged
      → Pending after × (acknowledged ≡ true → after ≡ held ++ body)
  once-Pending before after acknowledged (inl e) (ignored a same) =
      (inl (same ∙ e), λ t. absurd (true-false (sym t ∙ a)))
  once-Pending before after acknowledged (inl e) (taken at grown) =
      (inr (grown ∙ ap (λ x. x ++ body) e), λ t. grown ∙ ap (λ x. x ++ body) e)
  once-Pending before after acknowledged (inr e) (ignored a same) = (inr (same ∙ e), λ t. same ∙ e)
  once-Pending before after acknowledged (inr e) (taken at grown) =
      absurd (twice before e (at some_bytes))

  short :
      (content : Bytes)
      → Pending content
      → length held + length body ≤ length content
      → content ≡ held ++ body
  short content (inl e) h = absurd (omega (arith, ap length e))
  short content (inr e) h = e

  reached-After :
      (result : Result ClientError UploadPosition) (s : ClientState N)
      → Either
          (Position environment client received stored faithful url (λ c u. J c u) Keep quiet)
          (λ s. I s)
          result
          s
      → NextAfter (reached (length held + length body) result) s
  reached-After (err e) s k = k
  reached-After (ok position) s (at, offset, k) =
      elim (Bool-cases (leb (length held + length body) position.offset)) [
        | inl far ↦
            let whole = short (received url s.network) k.0.0 (ground arith) in
            rw far (at, offset ∙ (ap length whole ∙ length-append held body), whole, k.0.1, k.1)
        | inr near ↦ rw near k
      ]

  check_position-Runs :
      (location : Bytes) (s : ClientState N)
      → environment.resolve location ≡ some url
      → I s
      → Runs
          (check_position environment client location (length held + length body))
          s
          NextAfter
          (λ s'. I s')
  unfolding check_position
  check_position-Runs location s at k = Runs-bind _ _ _ _ _ (
      Runs-mono _ _ _ _ _ _ (λ result s' e. Runs-pure _ _ _ _ (reached-After result s' e))
        (λ s' e. e)
        (Runs-attempt _ _ _ _ (λ s'. I s')
          (upload_status-Runs environment client received stored faithful url (λ c u. J c u) Keep
            quiet location s at is_one k)))

  patch_answer-Runs :
      (location : Bytes) (response : Result TransportError HttpResponse) (s : ClientState N)
      → environment.resolve location ≡ some url
      → I s
      → (has_status 202 response ≡ true → received url s.network ≡ held ++ body)
      → (has_status 202 response ≡ true
          → IsAt environment.resolve url (length held + length body) (chunk_position response))
      → Runs
          (patch_answer environment client location (length held + length body) response)
          s
          NextAfter
          (λ s'. I s')
  unfolding patch_answer
  patch_answer-Runs location (err unreachable) s at k whole answered =
      check_position-Runs location s at k
  patch_answer-Runs location (err broken) s at k whole answered = Runs-pure _ _ _ _ k
  patch_answer-Runs location (ok response) s at k whole answered =
      elim (Bool-cases (response.status == 202)) [
        | inl accepted ↦
            rw accepted (Runs-pure _ _ _ _ (located (answered accepted) (whole accepted) k.0.1 k.1))
        | inr other ↦ rw other (by_status (response.status == 401) (transient response.status))
      ]
    where
      located :
          IsAt environment.resolve url
            (length held + length body)
            (positioned response (acknowledged_offset response))
          → received url s.network ≡ held ++ body
          → s.uploads ≡ uploads
          → Keep s.network
          → NextAfter (finish (positioned response (acknowledged_offset response))) s
      located there w same clean =
          subst (λ r. NextAfter (finish r) s) (sym there.position)
            (there.resolved, refl, w, same, clean)

      by_status :
          (a b : Bool)
          → Runs
              (if a
                then pure refresh
                else if b
                then check_position environment client location (length held + length body)
                else pure (finish (err (refused response.status))))
              s
              NextAfter
              (λ s'. I s')
      by_status true b = Runs-pure _ _ _ _ k
      by_status false true = check_position-Runs location s at k
      by_status false false = Runs-pure _ _ _ _ k

  abbrev Step : Bytes → Bytes → ClientState N → Type 0
  Step location target s =
      Runs
        (send_authorized environment client Method.patch target
          (some (codes "application/octet-stream"))
          (some (content_range (length held) (last_byte (length held) (length body)))) body)
        s
        (λ response s'.
          Runs (patch_answer environment client location (length held + length body) response) s'
            NextAfter (λ s''. I s''))
        (λ s'. I s')

  pub patch_upload-Runs :
      (location : Bytes) (offset : ℕ) (s : ClientState N)
      → offset ≡ length held
      → environment.resolve location ≡ some url
      → I s
      → Runs (patch_upload environment client location offset body) s Behind (λ s'. I s')
  unfolding patch_upload resolve_location
  patch_upload-Runs location offset s o at k =
      rw (o, at, add_u64_lem (length held) (length body) fits)
        (Runs-bind _ _ _ _ _ (
          Runs-lift _ _ _ _
            (λ target e.
              retry-Runs environment client I
                (token_kept environment client received stored faithful url (λ c u. J c u) Keep
                  quiet)
                (token_changed environment client received stored faithful url (λ c u. J c u) Keep
                  quiet)
                Behind _ _ (step target (target_of target e)) max_attempts s k)
            k))
    where
      target_of :
          (target : Bytes) → ◌≡◌ {A = Result ClientError Bytes} (ok url) (ok target) → url ≡ target
      target_of target e = cc

      step : (target : Bytes) → url ≡ target → (s : ClientState N) → I s → Step location target s
      step target same s k =
          subst (λ t. Step location t s) same
            (send_authorized-Runs environment client _ _ _ _ _ s _ _ (
              let (pending, whole) =
                once-Pending _ _ _ k.0.0
                  (faithful.patched url s.token (length held) body s.network some_bytes) in
              patch_answer-Runs location _ _ at
                (
                  (pending, k.0.1),
                  quiet (patch_request url s.token (length held) body) s.network refl k.1,
                )
                whole
                (λ accepted.
                  faithful.acknowledged url s.token (length held) body s.network some_bytes
                    accepted)))

-- How a call leaves the upload at `url` that held `held`.
abbrev pub IsSent :
    {N : Type 0}
    → Environment N
    → (Bytes → N → Bytes)
    → Bytes
    → Bytes
    → Bytes
    → Result ClientError UploadPosition
    → N
    → Type 0
IsSent environment received url held body (ok position) network =
    (position.offset ≡ length held + length body)
    × (environment.resolve position.location ≡ some url)
    × (received url network ≡ held ++ body)
IsSent environment received url held body (err e) network =
    (received url network ≡ held) ⊎ (received url network ≡ held ++ body)

-- A chunk is appended exactly once. If the upload at `url` holds `held` before, a call that returns has
-- left `held` with the chunk behind it, at the offset that it returns; one that fails has left either
-- the same or the content from before. The URL is one of the registry's uploads; the registry keeps to the
-- documented behaviour of uploads, and the network may lose any request and any answer; offsets stay below
-- 2 ^ 64.
pub patch_upload-once :
    {N : Type 0} (environment : Environment N) (client : RegistryClient)
    (received : Bytes → N → Bytes) (stored : Digest → Bytes → N → Type 0)
    (faithful : IsFaithful environment client received stored) (url held body location : Bytes)
    (s s' : ClientState N) (answer : Result ClientError UploadPosition)
    → 0 < length body
    → length held + length body < 2 ^ 64
    → environment.resolve location ≡ some url
    → faithful.is_upload url ≡ true
    → received url s.network ≡ held
    → patch_upload environment client location (length held) body s ≡ (answer, s')
    → IsSent environment received url held body answer s'.network
patch_upload-once {N} environment client received stored faithful url held body location s s'
      (ok position) some_bytes fits at is_one holds h =
    let (resolved, offset, whole, _, _) =
      returned _ s _ _ position s'
        (patch_upload-Runs environment client received stored faithful url held body some_bytes fits
          is_one (λ _. Unit) (λ _ _ _ _. tt) s.uploads location (length held) s refl at
          ((inl holds, refl), tt))
        h in
    (offset, resolved, whole)
patch_upload-once {N} environment client received stored faithful url held body location s s'
      (err e) some_bytes fits at is_one holds h =
    (failed _ s _ _ e s'
      (patch_upload-Runs environment client received stored faithful url held body some_bytes fits
        is_one (λ _. Unit) (λ _ _ _ _. tt) s.uploads location (length held) s refl at
        ((inl holds, refl), tt))
      h).0.0
