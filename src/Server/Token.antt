-- ===== src/Server/Token.antt =====
-- crates/jcrd/src/auth.rs, lines 81-157: the token service.
pub mod Laws
use jcr.Prelude.{
  ℕ, zero, suc, ◌+◌, ◌-◌, ◌*◌, ◌/◌, ◌%◌, ◌^◌, ◌≤◌, ◌<◌, String, ◌≡◌, refl, sym, ap, ◌∙◌, ◌≢◌, ◌↔◌,
  ◌⊎◌, inl, inr, Bool, true, false, not, ◌&&◌, ◌||◌, Option, none, some, List, [], ◌∷◌, ◌++◌, map,
  reverse, arith, ltb, leb, ◌==◌, ==_iff, if◌then◌else◌, Bool-cases, Option-cases, &&-eq-true,
  ||-eq-false, length, all, any, is_empty, length-append, all-append, any-append, Bytes, codes,
  bytes_eq, bytes_eq_refl, eq_of_bytes_eq, bytes_eq_iff, Result, ok, err, ok_or, is_ok, to_option,
  map_err, ok-injective, All, All-concat,
}
use jcr.Text.{split_once, strip_prefix}
use jcr.Scope
use jcr.Scope.{AccessAction, RepositoryScope, new_scope, permits, elements, action_eq}
use jcr.Server.Error.{AppError, oci, unauthorized, bad_request, internal}
use jcr.Server.Types.{
  User, Repository, Authorized, Headers, HeaderValue, HeaderName, Response, Platform, to_str,
  is_public, registry_response, into_oci_response, www_authenticate,
}
use jcr.Server.Database.{Database}
use jcr.Server.Database.Rows.{UserRow, PersonalAccessToken}
use jcr.Server.Database.Tables.{find, update, exists}
use jcr.Server.Exec.{World, Exec, pure, throw, lift, gets, modify, ◌>>=◌, ◌>>◌}
use jcr.Server.Access.{
  find_repository, authorize_repository, authorize_repository_name, is_none, is_pull,
}
use jcr.Server.Auth.{
  Principal, principal_permits, Credentials, TokenAccess, TokenClaims, token_lifetime_minutes,
  basic_credentials, validate_pat, authenticate, scopes_of,
}

module _ (platform : Platform) where
  -- The loop over the requested actions: those that the database grants.
  unfoldable pub granted_actions :
      Option User → Bytes → List AccessAction → Database → Result AppError (List AccessAction)
  granted_actions user repository [] db = ok []
  granted_actions user repository (action ∷ actions) db =
      let rest = granted_actions user repository actions db in
      elim (authorize_repository_name platform user repository action db) [
        | err e ↦ err e
        | ok allowed ↦ elim rest [
          | err e ↦ err e
          | ok granted ↦ ok (if allowed then action ∷ granted else granted)
        ]
      ]

abbrev parse_scope : Option Bytes → Result AppError (Option RepositoryScope)
parse_scope none = ok none
parse_scope (some text) = elim (Scope.from_str text) [
  | ok s ↦ ok (some s)
  | err e ↦ err bad_request
]

module _ (platform : Platform) where
  unfoldable pub granted_scopes :
      Option User → Option RepositoryScope → Database → Result AppError (List RepositoryScope)
  unfolding granted_actions
  granted_scopes user none db = ok []
  granted_scopes user (some requested) db =
      elim (granted_actions platform user requested.repository (elements requested.actions) db) [
        | err e ↦ err e
        | ok granted ↦ ok (new_scope requested.repository granted ∷ [])
      ]

abbrev pub access_of : RepositoryScope → TokenAccess
access_of scope = record {
  resource_type = codes "repository";
  name = scope.repository;
  actions = elements scope.actions;
}

abbrev name_of : Option User → Bytes
name_of none = []
name_of (some u) = u.username

abbrev id_of : Option User → Option ℕ
id_of none = none
id_of (some u) = some u.id

unfoldable pub claims_for :
    Bytes → Bytes → Bytes → ℕ → Option User → List RepositoryScope → TokenClaims
claims_for issuer service jti now user scopes = record {
  iss = issuer;
  sub = name_of user;
  aud = service;
  exp = now + token_lifetime_minutes * 60;
  nbf = now - 5;
  iat = now;
  jti = jti;
  user_id = id_of user;
  access = map access_of scopes;
}

module _ {S : Type 0} (platform : Platform) (credentials : Credentials) where
  -- the user of a token request
  unfoldable pub token_user : ℕ → HeaderValue → Exec S (Option User)
  token_user now v = elim (basic_credentials credentials v) [
    | none ↦ pure none
    | some (username, token) ↦ do
      found ← validate_pat platform credentials now username token
      user ← lift (ok_or found unauthorized)
      pure (some user)
  ]

  -- `token`: the token that is issued
  unfoldable pub issue_token : Bytes → Bytes → Bytes → ℕ → Option Bytes → HeaderValue → Exec S Bytes
  unfolding token_user granted_scopes claims_for
  issue_token issuer service jti now scope authorization = do
    user ← token_user now authorization
    requested ← lift (parse_scope scope)
    granted ← gets (granted_scopes platform user requested)
    scopes ← lift granted
    lift (ok_or (credentials.encode (claims_for issuer service jti now user scopes)) internal)
