-- ===== src/Client/Requests/Sending.antt =====
-- The rules for requests and their retries.
use jcr.Prelude.{ℕ, zero, suc, Option, Bytes, Result, ok, err}
use jcr.Client.Exec.{
  Method, Request, Client, ClientState, Environment, RegistryClient, HttpResponse, TransportError,
  bearer, lift, current_token, set_token,
}
use jcr.Client.Runs.{Runs, Runs-throw, Runs-lift, Runs-mono, Runs-bind, Runs-send}
use jcr.Client.Requests.{
  Next, finish, refresh, again, exchange_token, refresh_token, send_authorized, proceed, retry,
}
use jcr.Client.Registry.{token_request}

abbrev with_token : Method → Bytes → Option Bytes → Option Bytes → Bytes → Bytes → Request
with_token method url content_type content_range body token = record {
  method = method;
  url = url;
  authorization = bearer token;
  content_type = content_type;
  content_range = content_range;
  body = body;
}

module _ {N : Type 0} (environment : Environment N) (client : RegistryClient) where
  current_token-Runs :
      (s : ClientState N) (Q : Bytes → ClientState N → Type 0) (E : ClientState N → Type 0)
      → Q s.token s
      → Runs current_token s Q E
  unfolding current_token
  current_token-Runs s Q E q = record { at = q }

  pub send_authorized-Runs :
      (method : Method) (url : Bytes) (content_type content_range : Option Bytes) (body : Bytes)
      (s : ClientState N) (Q : Result TransportError HttpResponse → ClientState N → Type 0)
      (E : ClientState N → Type 0)
      → Q
          (environment.send
            (with_token method url content_type content_range body s.token)
            s.network).0
          (record s {
            network =
                (environment.send
                  (with_token method url content_type content_range body s.token)
                  s.network).1;
          })
      → Runs (send_authorized environment client method url content_type content_range body) s Q E
  unfolding send_authorized
  send_authorized-Runs method url content_type content_range body s Q E q =
      Runs-bind _ _ _ _ _ (current_token-Runs s _ _ (Runs-send _ _ _ _ _ q))

  module _ (I : ClientState N → Type 0)
      (kept : (target : Bytes) (s : ClientState N)
        → I s
        → I (record s {
          network =
              (environment.send (token_request target client.username client.secret) s.network).1;
        }))
      (changed : (token : Bytes) (s : ClientState N) → I s → I (record s { token = token })) where
    refresh_token-Runs :
        (s : ClientState N)
        → I s
        → Runs (refresh_token environment client) s (λ _ s'. I s') (λ s'. I s')
    unfolding refresh_token exchange_token set_token
    refresh_token-Runs s i = Runs-bind _ _ _ _ _ (
        Runs-bind _ _ _ _ _ (
          Runs-send _ _ _ _ _ (
            Runs-lift _ _ _ _ (λ token h. record { at = changed token _ (kept _ s i) })
              (kept _ s i))))

    module _ {A : Type 0} (Q : A → ClientState N → Type 0) where
      -- what a classified response leaves
      abbrev pub After : Next A → ClientState N → Type 0
      After (finish (ok a)) s = Q a s
      After (finish (err e)) s = I s
      After refresh s = I s
      After again s = I s

      proceed-Runs :
          (rest : Client N A) (next : Next A) (s : ClientState N)
          → ((s : ClientState N) → I s → Runs rest s Q (λ s'. I s'))
          → After next s
          → Runs (proceed environment client rest next) s Q (λ s'. I s')
      unfolding proceed lift
      proceed-Runs rest (finish (ok a)) s k h = record { at = h }
      proceed-Runs rest (finish (err e)) s k h = record { at = h }
      proceed-Runs rest refresh s k h =
          Runs-bind _ _ _ _ _
            (Runs-mono _ _ _ _ _ _ (λ _ s'. k s') (λ s' i. i) (refresh_token-Runs s h))
      proceed-Runs rest again s k h = k s h

      pub retry-Runs :
          (try : Client N (Result TransportError HttpResponse))
          (classify : Result TransportError HttpResponse → Client N (Next A))
          → ((s : ClientState N)
              → I s
              → Runs try s
                  (λ response s'. Runs (classify response) s' After (λ s''. I s''))
                  (λ s'. I s'))
          → (attempts : ℕ) (s : ClientState N) → I s
          → Runs (retry environment client attempts try classify) s Q (λ s'. I s')
      unfolding retry
      retry-Runs try classify step zero s i = Runs-throw _ _ _ _ i
      retry-Runs try classify step (suc attempts) s i = Runs-bind _ _ _ _ _ (
          Runs-mono _ _ _ _ _ _
            (λ response s' classified. Runs-bind _ _ _ _ _ (
              Runs-mono _ _ _ _ _ _
                (λ next s'' after.
                  proceed-Runs (retry environment client attempts try classify) next s''
                    (retry-Runs try classify step attempts) after)
                (λ s'' e. e) classified))
            (λ s' e. e) (step s i))
