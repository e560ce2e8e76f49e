-- ===== src/Server/Authorize.antt =====
-- crates/jcrd/src/registry.rs, lines 83-86 and 273-345, and auth.rs, lines 226-246: the decision on
-- a request.
pub mod Laws
pub mod Sessions
use jcr.Prelude.{
  ℕ, zero, suc, ◌+◌, ◌-◌, ◌*◌, ◌/◌, ◌%◌, ◌^◌, ◌≤◌, ◌<◌, String, ◌≡◌, refl, sym, ap, ◌∙◌, ◌≢◌, ◌↔◌,
  ◌⊎◌, inl, inr, Bool, true, false, not, ◌&&◌, ◌||◌, Option, none, some, List, [], ◌∷◌, ◌++◌, map,
  reverse, arith, ltb, leb, ◌==◌, ==_iff, if◌then◌else◌, Bool-cases, Option-cases, &&-eq-true,
  ||-eq-false, length, all, any, is_empty, length-append, all-append, any-append, Bytes, codes,
  bytes_eq, bytes_eq_refl, eq_of_bytes_eq, bytes_eq_iff, Result, ok, err, ok_or, is_ok, to_option,
  map_err, ok-injective, All, All-concat,
}
use jcr.Text.{split_once, strip_prefix}
use jcr.Scope
use jcr.Scope.{AccessAction, RepositoryScope, new_scope, permits, elements, action_eq}
use jcr.Server.Error.{AppError, oci, unauthorized, bad_request, internal}
use jcr.Server.Types.{
  User, Repository, Authorized, Headers, HeaderValue, HeaderName, Response, Platform, to_str,
  is_public, registry_response, into_oci_response, www_authenticate,
}
use jcr.Server.Database.{Database}
use jcr.Server.Database.Rows.{UserRow, PersonalAccessToken}
use jcr.Server.Database.Tables.{find, update, exists}
use jcr.Server.Exec.{World, Exec, pure, throw, lift, gets, modify, ◌>>=◌, ◌>>◌}
use jcr.Server.Access.{
  find_repository, authorize_repository, authorize_repository_name, is_none, is_pull,
}
use jcr.Server.Auth.{
  Principal, principal_permits, Credentials, TokenAccess, TokenClaims, token_lifetime_minutes,
  basic_credentials, validate_pat, authenticate, scopes_of,
}

-- `challenge_response`, whose realm is the server's own address
unfoldable pub challenge_response : Bytes → Option RepositoryScope → Response
challenge_response realm scope =
    let response = registry_response 401 in
    let challenge = codes "Bearer realm=\"" ++ (realm ++ codes "\",service=\"jcr\"") in
    let scoped : Bytes = elim scope [
      | none ↦ []
      | some s ↦ codes ",scope=\"" ++ (Scope.to_string s ++ codes "\"")
    ] in
    record response { headers = (www_authenticate, challenge ++ scoped) ∷ response.headers }

-- What `authorize` returns: leave to go on, or the answer.
pub data Decision : Type 0 where
  granted : Authorized → Decision
  answered : Response → Decision

unfoldable pub denied_response : Response
denied_response = into_oci_response (oci 403 "DENIED")

module _ (platform : Platform) where
  abbrev pub database_decision :
      Option User → Bytes → AccessAction → Option Repository → Database → Result AppError Bool
  database_decision user name action (some repository) db =
      ok (authorize_repository user repository action db)
  database_decision user name action none db =
      authorize_repository_name platform user name action db

abbrev pub is_public_repository : Option Repository → Bool
is_public_repository none = false
is_public_repository (some r) = is_public r

module _ (platform : Platform) where
  -- the decision on a principal
  unfoldable pub decide : Bytes → AccessAction → Option Repository → Principal → Database → Decision
  decide name action repository principal db =
      elim (database_decision platform principal.user name action repository db) [
        | err e ↦ answered (into_oci_response e)
        | ok database_allowed ↦
            if not database_allowed
              || not (not principal.bearer || principal_permits principal name action)
            then answered denied_response
            else granted (record { repository = repository; user = principal.user })
      ]

  -- the decision behind `authenticate`; `none` is a request with no credentials
  unfoldable pub decide_all :
      Bytes → Bytes → AccessAction → Option Repository → Option Principal → Database → Decision
  unfolding decide
  decide_all realm name action repository none db =
      if is_pull action && is_public_repository repository
      then granted (record { repository = repository; user = none })
      else answered (challenge_response realm (some (new_scope name (action ∷ []))))
  decide_all realm name action repository (some principal) db =
      decide name action repository principal db

module _ {S : Type 0} (platform : Platform) (credentials : Credentials) where
  abbrev pub authenticated :
      Result AppError (Option Principal) × World S
      → Bytes
      → Bytes
      → AccessAction
      → Option Repository
      → Result AppError Decision × World S
  authenticated (err e, w) realm name action repository =
      (ok (answered (challenge_response realm (some (new_scope name (action ∷ []))))), w)
  authenticated (ok principal, w) realm name action repository =
      (ok (decide_all platform realm name action repository principal w.db), w)

  unfoldable pub authorize : ℕ → Bytes → HeaderValue → Bytes → AccessAction → Exec S Decision
  unfolding decide_all
  authorize now realm authorization name action w = elim (find_repository platform name w.db) [
    | err e ↦ (ok (answered (into_oci_response e)), w)
    | ok repository ↦
        authenticated (authenticate platform credentials now authorization w) realm name action
          repository
  ]
