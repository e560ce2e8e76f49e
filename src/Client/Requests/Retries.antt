-- ===== src/Client/Requests/Retries.antt =====
-- registry.rs, blob_exists and upload_status: rules for the requests that leave an upload as it is.
use jcr.Prelude.{
  err-ok, ◌≡◌, inl, inr, sym, refl, Bool, true, false, none, some, Option, List, [], ◌∷◌, ◌++◌,
  Bytes, codes, length, ◌==◌, if◌then◌else◌, Bool-cases, Result, ok, err, ok_or,
}
use mathlib.Core.Path.{subst}
use jcr.Digest
use jcr.Digest.{Digest}
use jcr.Client.Exec.{
  Method, ClientState, ClientError, ResumeEntry, Environment, RegistryClient, HttpResponse,
  TransportError, unreachable, broken, refused, invalid_url, pure,
}
use jcr.Client.Runs.{Runs, Runs-pure, Runs-lift, Runs-bind}
use jcr.Client.Ranges.{is_success, transient}
use jcr.Client.Requests.{
  UploadPosition, finish, refresh, again, retried, max_attempts, registry_url, resolve_location,
  send_authorized, exists_answer, blob_exists, status_answer, upload_status, positioned,
  status_offset,
}
use jcr.Client.Registry.{
  IsFaithful, IsQuiet, IsAt, bare_request, token_request, succeeded, status_position,
}
use jcr.Client.Requests.Sending.{After, retry-Runs, send_authorized-Runs}

module _ {N : Type 0} (environment : Environment N) (client : RegistryClient)
    (received : Bytes → N → Bytes) (stored : Digest → Bytes → N → Type 0)
    (faithful : IsFaithful environment client received stored) (url : Bytes)
    (J : Bytes → List (Bytes × ResumeEntry) → Type 0) (Keep : N → Type 0)
    (quiet : IsQuiet environment Keep) where
  -- what is known of the content of the upload, and of what is stored
  abbrev Known : ClientState N → Type 0
  Known s = J (received url s.network) s.uploads × Keep s.network

  pub token_kept :
      (target : Bytes) (s : ClientState N)
      → Known s
      → Known (record s {
        network =
            (environment.send (token_request target client.username client.secret) s.network).1;
      })
  token_kept target s k = (
    subst (λ c. J c s.uploads) (sym (faithful.authenticated url target s.network)) k.0,
    quiet (token_request target client.username client.secret) s.network refl k.1,
  )

  pub token_changed :
      (token : Bytes) (s : ClientState N) → Known s → Known (record s { token = token })
  token_changed token s k = k

  abbrev pub HasDigest : Digest → Bool → ClientState N → Type 0
  HasDigest digest true s = Known s × ((content : Bytes) × stored digest content s.network)
  HasDigest digest false s = Known s

  exists_answer-After :
      (digest : Digest) (response : Result TransportError HttpResponse) (s : ClientState N)
      → Known s
      → (succeeded response ≡ true → (content : Bytes) × stored digest content s.network)
      → After environment client Known token_kept token_changed
          (HasDigest digest)
          (exists_answer response)
          s
  unfolding exists_answer
  exists_answer-After digest (err unreachable) s k f = k
  exists_answer-After digest (err broken) s k f = k
  exists_answer-After digest (ok response) s k f = elim (Bool-cases (is_success response.status)) [
    | inl good ↦ rw good (k, f good)
    | inr bad ↦ rw bad (other (response.status == 404))
  ]
    where
      retried-After :
          (a b : Bool)
          → After environment client Known token_kept token_changed
              (HasDigest digest)
              (if a then refresh else if b then again else finish (err (refused response.status)))
              s
      retried-After true b = k
      retried-After false true = k
      retried-After false false = k

      other :
          (missing : Bool)
          → After environment client Known token_kept token_changed
              (HasDigest digest)
              (if missing then finish (ok false) else retried response.status)
              s
      other true = k
      other false = retried-After (response.status == 401) (transient response.status)

  pub blob_exists-Runs :
      (digest : Digest) (s : ClientState N)
      → Known s
      → Runs (blob_exists environment client digest) s (HasDigest digest) (λ s'. Known s')
  unfolding blob_exists registry_url
  blob_exists-Runs digest s k = Runs-bind _ _ _ _ _ (
      Runs-lift _ _ _ _
        (λ target e.
          retry-Runs environment client Known token_kept token_changed (HasDigest digest) _ _
            (step target (joined _ target e)) max_attempts s k)
        k)
    where
      joined :
          (o : Option Bytes) (target : Bytes) → ok_or o invalid_url ≡ ok target → o ≡ some target
      joined none target e = absurd (err-ok e)
      joined (some a) target e = cc

      step :
          (target : Bytes)
          → environment.join (
              codes "v2/"
              ++ (client.repository
                  ++ b'/'
                    ∷ (codes "blobs/" ++ environment.percent_encode (Digest.to_string digest))))
            ≡ some target
          → (s : ClientState N) → Known s
          → Runs
              (send_authorized environment client Method.head target none none [])
              s
              (λ response s'.
                Runs
                  (pure (exists_answer response))
                  s'
                  (After environment client Known token_kept token_changed (HasDigest digest))
                  (λ s''. Known s''))
              (λ s'. Known s')
      step target j s k = send_authorized-Runs environment client _ _ _ _ _ s _ _ (
          Runs-pure _ _ _ _ (
            exists_answer-After digest _ _
              (
                subst (λ c. J c s.uploads) (sym (faithful.headed url target s.token s.network)) k.0,
                quiet (bare_request Method.head target s.token) s.network refl k.1,
              )
              (λ good. faithful.found digest target s.token s.network j good)))

  -- the position that a status tells
  abbrev pub Position : UploadPosition → ClientState N → Type 0
  Position position s =
      (environment.resolve position.location ≡ some url)
      × (position.offset ≡ length (received url s.network))
      × Known s

  status_answer-After :
      (response : Result TransportError HttpResponse) (s : ClientState N)
      → Known s
      → (succeeded response ≡ true
          → IsAt environment.resolve url
              (length (received url s.network))
              (status_position response))
      → After environment client Known token_kept token_changed Position (status_answer response) s
  unfolding status_answer
  status_answer-After (err unreachable) s k f = k
  status_answer-After (err broken) s k f = k
  status_answer-After (ok response) s k f = elim (Bool-cases (is_success response.status)) [
    | inl good ↦ rw good (located (f good))
    | inr bad ↦ rw bad (retried-After (response.status == 401) (transient response.status))
  ]
    where
      located :
          IsAt environment.resolve url
            (length (received url s.network))
            (positioned response (status_offset response))
          → After environment client Known token_kept token_changed Position
              (finish (positioned response (status_offset response)))
              s
      located at =
          subst (λ r. After environment client Known token_kept token_changed Position (finish r) s)
            (sym at.position) (at.resolved, refl, k)

      retried-After :
          (a b : Bool)
          → After environment client Known token_kept token_changed Position
              (if a then refresh else if b then again else finish (err (refused response.status)))
              s
      retried-After true b = k
      retried-After false true = k
      retried-After false false = k

  pub upload_status-Runs :
      (location : Bytes) (s : ClientState N)
      → environment.resolve location ≡ some url
      → faithful.is_upload url ≡ true
      → Known s
      → Runs (upload_status environment client location) s Position (λ s'. Known s')
  unfolding upload_status resolve_location
  upload_status-Runs location s at is_one k = rw at (
      Runs-bind _ _ _ _ _ (
        Runs-lift _ _ _ _
          (λ target e.
            retry-Runs environment client Known token_kept token_changed Position _ _
              (step target (target_of target e)) max_attempts s k)
          k))
    where
      target_of :
          (target : Bytes) → ◌≡◌ {A = Result ClientError Bytes} (ok url) (ok target) → url ≡ target
      target_of target e = cc

      step :
          (target : Bytes)
          → url ≡ target
          → (s : ClientState N) → Known s
          → Runs
              (send_authorized environment client Method.get target none none [])
              s
              (λ response s'.
                Runs
                  (pure (status_answer response))
                  s'
                  (After environment client Known token_kept token_changed Position)
                  (λ s''. Known s''))
              (λ s'. Known s')
      step target same s k =
          subst
            (λ t.
              Runs (send_authorized environment client Method.get t none none []) s
                (λ response s'.
                  Runs (pure (status_answer response)) s'
                    (After environment client Known token_kept token_changed Position)
                    (λ s''. Known s''))
                (λ s'. Known s'))
            same
            (send_authorized-Runs environment client _ _ _ _ _ s _ _ (
              Runs-pure _ _ _ _ (
                status_answer-After _ _
                  (
                    subst (λ c. J c s.uploads) (sym (faithful.asked url s.token s.network)) k.0,
                    quiet (bare_request Method.get url s.token) s.network refl k.1,
                  )
                  (λ good.
                    subst
                      (λ x. IsAt environment.resolve url (length x) (
                        status_position
                          (environment.send (bare_request Method.get url s.token) s.network).0))
                      (sym (faithful.asked url s.token s.network))
                      (faithful.answered url s.token s.network is_one good)))))
