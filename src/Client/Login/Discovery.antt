-- ===== src/Client/Login/Discovery.antt =====
-- crates/jcr/src/registry.rs, lines 506-575 and 609-614: the origin of a registry, and the challenge in a response.
use mathlib.Core.Option
use jcr.Prelude.{
  ℕ, Bool, true, false, not, ◌||◌, Option, none, some, [], ◌∷◌, ◌++◌, reverse, ◌==◌, if◌then◌else◌,
  is_empty, Bytes, codes, bytes_eq, Result, ok, err, ok_or, ◌>>=◌,
}
use jcr.Text.{contains, split_once, split_once_at, starts_with}
use jcr.Text.Decimal.{decimal}
use jcr.Manifest.{trim}
use jcr.Reference.{is_local}
use jcr.Server.Types.{to_str}
use jcr.Client.Exec.{
  HttpResponse, TransportError, ClientError, Challenge, transport, invalid_url, no_challenge,
  omitted_challenge, other_authentication, omitted_realm, invalid_registry,
}

-- what is read of a parsed URL
pub record Origin : Type 0 where
  pub scheme : Bytes
  pub host : Option Bytes
  pub port : Option ℕ
  pub path : Bytes
  pub query : Option Bytes
  pub fragment : Option Bytes

abbrev trim_front_slashes : Bytes → Bytes
trim_front_slashes [] = []
trim_front_slashes (b ∷ s) = let rest = trim_front_slashes s in if b == b'/' then rest else b ∷ s

-- `trim_end_matches('/')`
abbrev trim_slashes : Bytes → Bytes
trim_slashes s = reverse (trim_front_slashes (reverse s))

abbrev pub is_found : {A : Type 0} → Option A → Bool
is_found none = false
is_found (some a) = true

abbrev has_port : Bytes → Option ℕ → Bytes
has_port host none = host
has_port host (some port) = host ++ b':' ∷ decimal port

unfoldable pub origin_of : Origin → Result ClientError Bytes
origin_of origin =
    if not (bytes_eq origin.scheme (codes "http") || bytes_eq origin.scheme (codes "https"))
      || (not (is_found origin.host)
          || (not (is_empty origin.path || bytes_eq origin.path (codes "/"))
              || (is_found origin.query || is_found origin.fragment)))
    then err invalid_registry
    else elim origin.host [
      | none ↦ err invalid_registry
      | some host ↦ ok (has_port host origin.port)
    ]

unfoldable pub normalize_registry : (Bytes → Option Origin) → Bytes → Result ClientError Bytes
normalize_registry parse untrimmed =
    let value = trim_slashes (trim untrimmed) in
    if is_empty value
    then err invalid_registry
    else if is_found (split_once_at (codes "://") value)
    then elim (parse value) [ none ↦ err invalid_registry | some origin ↦ origin_of origin ]
    else if contains b'/' value || (contains b'?' value || contains b'#' value)
    then err invalid_registry
    else ok value

abbrev pub scheme_of : Bytes → Bytes
scheme_of registry = if is_local registry then codes "http" else codes "https"

-- `challenge_field`: what stands behind `name="`, up to the next quote
unfoldable pub challenge_field : Bytes → Bytes → Option Bytes
challenge_field challenge name = elim (split_once_at (name ++ codes "=\"") challenge) [
  | none ↦ none
  | some (_, remainder) ↦ Option.map (λ p. p.0) (split_once b'"' remainder)
]

abbrev pub or_jcr : Option Bytes → Bytes
or_jcr none = codes "jcr"
or_jcr (some service) = service

unfoldable pub challenge_in : (Bytes → Option Bytes) → Bytes → Result ClientError Challenge
challenge_in url value =
    if not (starts_with (codes "Bearer ") value) then err other_authentication else do
      field ← ok_or (challenge_field value (codes "realm")) omitted_realm
      realm ← ok_or (url field) invalid_url
      ok (record { realm = realm; service = or_jcr (challenge_field value (codes "service")) })

-- `discover_challenge`, behind its response
unfoldable pub challenge_of :
    (Bytes → Option Bytes) → Result TransportError HttpResponse → Result ClientError Challenge
challenge_of url (err e) = err transport
challenge_of url (ok response) =
    if not (response.status == 401)
    then err (no_challenge response.status)
    else elim (to_str response.www_authenticate) [
      | none ↦ err omitted_challenge
      | some value ↦ challenge_in url value
    ]
