-- ===== src/Tests/Access.antt =====
-- Decisions on the small registry.
use jcr.Prelude.{◌≡◌, refl, ◌↔◌, ◌⊎◌, Option, true, none, some, [], ◌∷◌, codes, bytes_eq, ok}
use jcr.Scope.{AccessAction, RepositoryScope, pull, push, new_scope, permits}
use jcr.Text.{split_once}
use jcr.Server.Database.Tables.{find}
use jcr.Server.Access.{
  authorize_repository, find_repository, repository_named, authorize_repository_name,
  namespace_grants, role_in,
}
use jcr.Server.Access.Laws.{Allows, authorize_repository_iff}
use jcr.Server.Auth.{
  Credentials, Principal, principal_permits, scopes_of, authenticate, authenticate_bearer,
  user_by_id,
}
use jcr.Server.Token.{granted_scopes, granted_actions, claims_for}
use jcr.Server.Token.Laws.{token_sound, IsGranted}
use jcr.Server.Authorize.{authorize, decide_all, decide, granted}
use jcr.Server.Authorize.Laws.{authorize_sound, IsAuthorized}
use jcr.Server.Exec.{lift, gets, pure, ◌>>=◌}
use jcr.Tests.Data.{platform, tool, ada_user, db, world, authorized}

authorize_repository_iff_example :
    (authorize_repository (some ada_user) tool push db ≡ true) ↔ Allows db tool push (some ada_user)
authorize_repository_iff_example = authorize_repository_iff db (some ada_user) tool push

abbrev requested : RepositoryScope
requested = new_scope (codes "ada/tool") (push ∷ [])

granted_push : granted_scopes platform (some ada_user) (some requested) db ≡ ok (requested ∷ [])
unfolding granted_scopes granted_actions authorize_repository_name find_repository split_once
    jcr.Scope.elements new_scope find bytes_eq role_in namespace_grants
granted_push = refl

permitted :
    principal_permits
      (record {
        user = none;
        scopes = scopes_of (claims_for [] [] [] 0 (some ada_user) (requested ∷ [])).access;
        bearer = true;
      })
      (codes "ada/tool")
      push
    ≡ true
unfolding principal_permits scopes_of claims_for bytes_eq permits new_scope jcr.Scope.elements
permitted = refl

token_sound_example :
    (scope : RepositoryScope) × (some requested ≡ some scope)
    × (scope.repository ≡ codes "ada/tool")
    × (IsGranted platform (some ada_user) (codes "ada/tool") db push
        ⊎ IsGranted platform (some ada_user) (codes "ada/tool") db AccessAction.admin)
token_sound_example =
    token_sound platform [] [] [] 0 (some ada_user) none db (some requested) (requested ∷ [])
      (codes "ada/tool") push granted_push permitted

-- One token, which is for the repository.
abbrev pub credentials : Credentials
credentials = record {
  decode_base64 = λ text. some text;
  from_utf8 = λ text. some text;
  verify_password = λ hash text. bytes_eq hash text;
  encode = λ claims. some (codes "t");
  decode = λ now text. some (claims_for [] [] [] 0 (some ada_user) (requested ∷ []));
}

lets_through :
    authorize platform credentials 0 []
      (some (some (codes "Bearer t")))
      (codes "ada/tool")
      push
      world
    ≡ (ok (granted authorized), world)
unfolding authorize find_repository split_once authenticate jcr.Text.strip_prefix
    authenticate_bearer ◌>>=◌ lift gets pure find bytes_eq authorize_repository claims_for
    user_by_id role_in namespace_grants principal_permits jcr.Scope.elements new_scope permits
    scopes_of decide decide_all repository_named
lets_through = refl

authorize_sound_example :
    (principal : Option Principal) × (authenticate platform credentials 0
        (some (some (codes "Bearer t")))
        world
      ≡ (ok principal, world))
    × (find_repository platform (codes "ada/tool") world.db ≡ ok authorized.repository)
    × IsAuthorized platform (codes "ada/tool") push principal authorized world.db
authorize_sound_example =
    authorize_sound platform credentials 0 [] (some (some (codes "Bearer t"))) (codes "ada/tool")
      push world world authorized lets_through
