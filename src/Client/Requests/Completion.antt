-- ===== src/Client/Requests/Completion.antt =====
-- registry.rs, complete_upload, whatever requests and answers are lost.
use jcr.Prelude.{
  refl, true-false, ℕ, ◌<◌, ◌≡◌, ◌⊎◌, inl, inr, sym, ap, ◌∙◌, Bool, true, false, some, [], ◌∷◌,
  ◌++◌, Bytes, codes, length, length-append, ◌==◌, if◌then◌else◌, arith, Bool-cases, Result, ok,
  err,
}
use mathlib.Core.Path.{subst}
use mathlib.Core.List.{append-nil}
use jcr.Digest
use jcr.Digest.{Digest}
use jcr.Client.Exec.{
  ResumeData, Method, ClientState, ClientError, Environment, RegistryClient, HttpResponse,
  TransportError, unreachable, broken, refused, pure,
}
use jcr.Client.Runs.{Runs, Runs-pure, Runs-lift, Runs-mono, Runs-bind, Runs-attempt, Either}
use jcr.Client.Ranges.{transient}
use jcr.Client.Requests.{
  Next, finish, refresh, again, max_attempts, resolve_location, send_authorized, committed_or,
  check_committed, complete_answer, final_range, complete_upload,
}
use jcr.Client.Requests.Retries.{token_kept, token_changed, HasDigest, blob_exists-Runs}
use jcr.Client.Requests.Sending.{After, retry-Runs, send_authorized-Runs}
use jcr.Client.Registry.{
  IsFaithful, IsClean, IsQuiet, IsClean-IsQuiet, Appended, ignored, taken, put_request, has_status,
}

module _ {N : Type 0} (environment : Environment N) (client : RegistryClient)
    (received : Bytes → N → Bytes) (stored : Digest → Bytes → N → Type 0)
    (faithful : IsFaithful environment client received stored) (url held body : Bytes)
    (digest : Digest) (uploads : ResumeData) where
  abbrev Pending : Bytes → Type 0
  Pending content = (content ≡ held) ⊎ (content ≡ held ++ body)

  abbrev J : Bytes → ResumeData → Type 0
  J content remembered = Pending content × (remembered ≡ uploads)

  abbrev I : ClientState N → Type 0
  I s = J (received url s.network) s.uploads × IsClean stored digest (held ++ body) s.network

  quiet : IsQuiet environment (IsClean stored digest (held ++ body))
  quiet = IsClean-IsQuiet environment client received stored faithful digest (held ++ body)

  abbrev Done : Unit {0} → ClientState N → Type 0
  Done _ s = stored digest (held ++ body) s.network × IsClean stored digest (held ++ body) s.network

  abbrev NextAfter : Next (Unit {0}) → ClientState N → Type 0
  NextAfter =
      After environment client I
        (token_kept environment client received stored faithful url (λ c u. J c u)
          (IsClean stored digest (held ++ body)) quiet)
        (token_changed environment client received stored faithful url (λ c u. J c u)
          (IsClean stored digest (held ++ body)) quiet)
        Done

  no_more :
      (b before after : Bytes)
      → before ≡ held ++ b
      → after ≡ before ++ b
      → (0 < length b → length before ≡ length held)
      → after ≡ held ++ b
  no_more [] before after e grown at = grown ∙ (append-nil before ∙ e)
  no_more (x ∷ b) before after e grown at =
      absurd (omega (arith, ap length e, length-append {0} held (x ∷ b), at (omega arith)))

  once-Pending :
      (before after : Bytes) (acknowledged : Bool)
      → Pending before
      → Appended before after body (length held) acknowledged
      → Pending after × (acknowledged ≡ true → after ≡ held ++ body)
  once-Pending before after acknowledged (inl e) (ignored a same) =
      (inl (same ∙ e), λ t. absurd (true-false (sym t ∙ a)))
  once-Pending before after acknowledged (inl e) (taken at grown) =
      (inr (grown ∙ ap (λ x. x ++ body) e), λ t. grown ∙ ap (λ x. x ++ body) e)
  once-Pending before after acknowledged (inr e) (ignored a same) = (inr (same ∙ e), λ t. same ∙ e)
  once-Pending before after acknowledged (inr e) (taken at grown) =
      let whole = no_more body before after e grown at in (inr whole, λ t. whole)

  -- where the digest is there, the upload is done
  otherwise_After :
      (otherwise : Next (Unit {0})) (result : Result ClientError Bool) (s : ClientState N)
      → ((s : ClientState N) → I s → NextAfter otherwise s)
      → Either
          (HasDigest environment client received stored faithful url
            (λ c u. J c u)
            (IsClean stored digest (held ++ body))
            quiet
            digest)
          (λ s. I s)
          result
          s
      → NextAfter (committed_or otherwise result) s
  otherwise_After otherwise (err e) s o k = o s k
  otherwise_After otherwise (ok true) s o (k, (other, there)) =
      (subst (λ c. stored digest c s.network) (k.1 other there) there, k.1)
  otherwise_After otherwise (ok false) s o k = o s k

  check_committed-Runs :
      (otherwise : Next (Unit {0})) (s : ClientState N)
      → ((s : ClientState N) → I s → NextAfter otherwise s)
      → I s
      → Runs (check_committed environment client digest otherwise) s NextAfter (λ s'. I s')
  unfolding check_committed
  check_committed-Runs otherwise s o k = Runs-bind _ _ _ _ _ (
      Runs-mono _ _ _ _ _ _
        (λ result s' e. Runs-pure _ _ _ _ (otherwise_After otherwise result s' o e)) (λ s' e. e)
        (Runs-attempt _ _ _ _ (λ s'. I s')
          (blob_exists-Runs environment client received stored faithful url (λ c u. J c u)
            (IsClean stored digest (held ++ body)) quiet digest s k)))

  complete_answer-Runs :
      (response : Result TransportError HttpResponse) (s : ClientState N)
      → I s
      → (has_status 201 response ≡ true → stored digest (held ++ body) s.network)
      → Runs (complete_answer environment client digest response) s NextAfter (λ s'. I s')
  unfolding complete_answer
  complete_answer-Runs (err unreachable) s k there = check_committed-Runs again s (λ s i. i) k
  complete_answer-Runs (err broken) s k there = Runs-pure _ _ _ _ k
  complete_answer-Runs (ok response) s k there = elim (Bool-cases (response.status == 201)) [
    | inl created ↦ rw created (Runs-pure _ _ _ _ (there created, k.1))
    | inr other ↦ rw other (by_status (response.status == 401) (transient response.status))
  ]
    where
      by_status :
          (a b : Bool)
          → Runs
              (if a
                then pure refresh
                else if b
                then check_committed environment client digest again
                else check_committed environment client digest
                    (finish (err (refused response.status))))
              s
              NextAfter
              (λ s'. I s')
      by_status true b = Runs-pure _ _ _ _ k
      by_status false true = check_committed-Runs again s (λ s i. i) k
      by_status false false =
          check_committed-Runs (finish (err (refused response.status))) s (λ s i. i) k

  abbrev Step : Bytes → ClientState N → Type 0
  Step target s =
      Runs
        (send_authorized environment client Method.put
          (environment.with_pairs target ((codes "digest", Digest.to_string digest) ∷ []))
          (some (codes "application/octet-stream")) (final_range (length held) body) body)
        s
        (λ response s'.
          Runs (complete_answer environment client digest response) s' NextAfter (λ s''. I s''))
        (λ s'. I s')

  pub complete_upload-Runs :
      (location : Bytes) (offset : ℕ) (s : ClientState N)
      → offset ≡ length held
      → environment.resolve location ≡ some url
      → I s
      → Runs (complete_upload environment client location offset digest body) s Done (λ s'. I s')
  unfolding complete_upload resolve_location
  complete_upload-Runs location offset s o at k =
      rw (o, at)
        (Runs-bind _ _ _ _ _ (
          Runs-lift _ _ _ _
            (λ target e.
              retry-Runs environment client I
                (token_kept environment client received stored faithful url (λ c u. J c u)
                  (IsClean stored digest (held ++ body)) quiet)
                (token_changed environment client received stored faithful url (λ c u. J c u)
                  (IsClean stored digest (held ++ body)) quiet)
                Done _ _ (step target (target_of target e)) max_attempts s k)
            k))
    where
      target_of :
          (target : Bytes) → ◌≡◌ {A = Result ClientError Bytes} (ok url) (ok target) → url ≡ target
      target_of target e = cc

      replaced_clean :
          (token : Bytes) (n : N)
          → Pending (received url n)
          → IsClean stored digest (held ++ body) n
          → IsClean stored digest
              (held ++ body)
              (environment.send
                (put_request
                  (environment.with_pairs url ((codes "digest", Digest.to_string digest) ∷ []))
                  token
                  (length held)
                  body)
                n).1
      replaced_clean token n pending clean other there =
          elim (faithful.replaced url token (length held) digest body other n there) [
            | inl before ↦ clean other before
            | inr (same, grown, at) ↦ same ∙ (once-Pending _ _ true pending (taken at grown)).1 refl
          ]

      step : (target : Bytes) → url ≡ target → (s : ClientState N) → I s → Step target s
      step target same s k =
          subst (λ t. Step t s) same
            (send_authorized-Runs environment client _ _ _ _ _ s _ _ (
              let (pending, whole) =
                once-Pending _ _ _ k.0.0
                  (faithful.completed url s.token (length held) digest body s.network) in
              complete_answer-Runs _ _
                ((pending, k.0.1), replaced_clean s.token s.network k.0.0 k.1)
                (λ created.
                  subst
                    (λ c.
                      stored digest c
                        (environment.send
                          (put_request
                            (environment.with_pairs url
                              ((codes "digest", Digest.to_string digest) ∷ []))
                            s.token (length held) body)
                          s.network).1)
                    (whole created)
                    (faithful.committed url s.token (length held) digest body s.network created))))
