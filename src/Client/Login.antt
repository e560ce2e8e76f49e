-- ===== src/Client/Login.antt =====
-- crates/jcr/src/registry.rs, lines 57-84 and 537-575: a client finds the challenge of a registry and gets its
-- first token.
pub mod Discovery
pub mod Laws
use jcr.Prelude.{none, some, Option, [], ◌++◌, Bytes, codes, Result, ok_or}
use jcr.Reference.{ImageReference}
use jcr.Client.Exec.{
  Method, ClientError, Environment, Challenge, RegistryClient, Client, anonymous, invalid_url, pure,
  lift, send, set_token, ◌>>=◌, ◌>>◌,
}
use jcr.Client.Requests.{exchange_token}
use jcr.Client.Login.Discovery.{Origin, normalize_registry, scheme_of, challenge_of}

-- Code of other packages: `Url::parse`, for its parts and for a URL that is kept, and what is called below a base.
pub record Web (N : Type 0) : Type 0 where
  pub parse : Bytes → Option Origin
  pub url : Bytes → Option Bytes
  pub below : Bytes → Environment N

-- `registry_base`, from the normalized name
abbrev base_url : Bytes → Bytes
base_url registry = scheme_of registry ++ (codes "://" ++ (registry ++ codes "/"))

module _ {N : Type 0} (web : Web N) where
  unfoldable pub registry_base : Bytes → Client N Bytes
  registry_base value = do
    registry ← lift (normalize_registry web.parse value)
    lift (ok_or (web.url (base_url registry)) invalid_url)

  unfoldable pub discover_challenge : Bytes → Client N Challenge
  discover_challenge base = do
    target ← lift (ok_or ((web.below base).join (codes "v2/")) invalid_url)
    response ← send (web.below base) (record {
      method = Method.get;
      url = target;
      authorization = anonymous;
      content_type = none;
      content_range = none;
      body = [];
    })
    lift (challenge_of web.url response)

  -- the client, and what is called below its base; its token is the token of the state
  unfoldable pub for_push :
      ImageReference → Bytes → Bytes → Client N (Environment N × RegistryClient)
  for_push remote username secret = do
    base ← registry_base remote.registry
    challenge ← discover_challenge base
    let client : RegistryClient = record {
      repository = remote.repository;
      username = username;
      secret = secret;
      challenge = challenge;
    }
    token ←
        exchange_token (web.below base) client
          (some (codes "repository:" ++ (remote.repository ++ codes ":pull,push")))
    set_token token
    pure (web.below base, client)

  unfoldable pub validate_login : Bytes → Bytes → Bytes → Client N (Unit {0})
  validate_login registry username secret = do
    base ← registry_base registry
    challenge ← discover_challenge base
    let client : RegistryClient = record {
      repository = [];
      username = username;
      secret = secret;
      challenge = challenge;
    }
    exchange_token (web.below base) client none
    pure tt
