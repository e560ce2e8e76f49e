-- ===== src/Server/Token/Laws.antt =====
-- auth.rs, token: what its claims permit.
use jcr.Prelude.{
  ℕ, ◌≡◌, refl, sym, ◌⊎◌, inl, inr, Bool, true, false, Option, none, some, List, [], ◌∷◌, map,
  arith, if◌then◌else◌, Bool-cases, any, Bytes, codes, bytes_eq_refl, Result, ok, err, ok-injective,
  Result-cases,
}
use mathlib.Core.Bool.{false≢true}
use mathlib.Core.Path.{subst}
use jcr.Scope.{AccessAction, admin, RepositoryScope, new_scope, permits, elements, action_eq}
use jcr.Scope.Laws.{permits-new_scope, any-or, new_scope-elements}
use jcr.Server.Types.{User, Platform}
use jcr.Server.Error.{AppError}
use jcr.Server.Database.{Database}
use jcr.Server.Access.{authorize_repository_name}
use jcr.Server.Auth.{principal_permits, scopes_of}
use jcr.Server.Token.{granted_actions, granted_scopes, access_of, claims_for}

-- The scopes that a server reads from the claims are those that they were made of.
pub scopes_of-access_of :
    (scopes : List RepositoryScope) → scopes_of (map access_of scopes) ≡ scopes
unfolding scopes_of
scopes_of-access_of [] = refl
scopes_of-access_of (s ∷ scopes) =
    rw (bytes_eq_refl (codes "repository"), new_scope-elements s, scopes_of-access_of scopes)

module _ (platform : Platform) (user : Option User) (repository : Bytes) (db : Database) where
  abbrev pub IsGranted : AccessAction → Type 0
  IsGranted action = authorize_repository_name platform user repository action db ≡ ok true

  step :
      (a wanted : AccessAction) (allowed : Bool) (found granted : List AccessAction)
      → authorize_repository_name platform user repository a db ≡ ok allowed
      → ◌≡◌ {A = Result AppError (List AccessAction)}
          (ok (if allowed then a ∷ found else found))
          (ok granted)
      → any (λ x. action_eq x wanted) granted ≡ true
      → (any (λ x. action_eq x wanted) found ≡ true → IsGranted wanted)
      → IsGranted wanted
  step a wanted false found granted e h k ih =
      ih (subst (λ l. any (λ x. action_eq x wanted) l ≡ true) (sym (ok-injective h)) k)
  step a wanted true found granted e h k ih = elim (Bool-cases (action_eq a wanted)) [
    | inl same ↦ let is : a ≡ wanted = ground arith in rw (← is) e
    | inr other ↦
        let listed : any (λ x. action_eq x wanted) (a ∷ found) ≡ true =
          subst (λ l. any (λ x. action_eq x wanted) l ≡ true) (sym (ok-injective h)) k in
        ih (rw other at listed)
  ]

  refused :
      (e : AppError) (granted : List AccessAction) (wanted : AccessAction)
      → ◌≡◌ {A = Result AppError (List AccessAction)} (err e) (ok granted)
      → IsGranted wanted
  refused e granted wanted h = cc

  -- The loop keeps an action only where the database grants it.
  pub granted_actions_sound :
      (actions granted : List AccessAction) (wanted : AccessAction)
      → granted_actions platform user repository actions db ≡ ok granted
      → any (λ a. action_eq a wanted) granted ≡ true
      → IsGranted wanted
  unfolding granted_actions
  granted_actions_sound [] granted wanted h k = let none_left = ok-injective h in ground arith
  granted_actions_sound (a ∷ actions) granted wanted h k =
      elim (Result-cases (authorize_repository_name platform user repository a db)) [
        | inr (e, r) ↦ refused e granted wanted (rw (r, granted_actions) at h)
        | inl (allowed, r) ↦
            elim (Result-cases (granted_actions platform user repository actions db)) [
              | inr (e, r') ↦ refused e granted wanted (rw (r, r', granted_actions) at h)
              | inl (found, r') ↦
                  step a wanted allowed found granted r (rw (r, granted_actions, r') at h) k
                    (granted_actions_sound actions found wanted r')
            ]
      ]

  scopes_sound :
      (requested : RepositoryScope) (granted : List AccessAction) (other : Bytes)
      (action : AccessAction)
      → granted_actions platform user repository (elements requested.actions) db ≡ ok granted
      → permits (new_scope repository granted) other action ≡ true
      → (repository ≡ other) × (IsGranted action ⊎ IsGranted admin)
  scopes_sound requested granted other action h k =
      let (same, listed) = (permits-new_scope repository other granted action).0 k in
      elim (Bool-cases (any (λ a. action_eq a action) granted)) [
        | inl plain ↦
            (same, inl (granted_actions_sound (elements requested.actions) granted action h plain))
        | inr none_plain ↦
            let admin_listed : any (λ a. action_eq a admin) granted ≡ true =
              ground (arith, any-or action granted) in
            (
              same,
              inr (granted_actions_sound (elements requested.actions) granted admin h admin_listed),
            )
      ]

abbrev Sound :
    Platform → Option User → Database → Option RepositoryScope → Bytes → AccessAction → Type 0
Sound platform user db requested repository action =
    (scope : RepositoryScope) × (requested ≡ some scope)
    × (scope.repository ≡ repository)
    × (IsGranted platform user repository db action ⊎ IsGranted platform user repository db admin)

one_scope :
    (platform : Platform) (user : Option User) (db : Database) (requested : RepositoryScope)
    (granted : List AccessAction) (repository : Bytes) (action : AccessAction)
    → granted_actions platform user requested.repository (elements requested.actions) db
      ≡ ok granted
    → permits (new_scope requested.repository granted) repository action ≡ true
    → Sound platform user db (some requested) repository action
one_scope platform user db requested granted repository action h k =
    let (same, why) =
      scopes_sound platform user requested.repository db requested granted repository action h k in
    (
      requested,
      refl,
      same,
      subst (λ r. IsGranted platform user r db action ⊎ IsGranted platform user r db admin) same
          why,
    )

granted_scopes-Sound :
    (platform : Platform) (user : Option User) (db : Database) (requested : Option RepositoryScope)
    (scopes : List RepositoryScope) (repository : Bytes) (action : AccessAction)
    → granted_scopes platform user requested db ≡ ok scopes
    → any (λ s. permits s repository action) scopes ≡ true
    → Sound platform user db requested repository action
unfolding granted_scopes
granted_scopes-Sound platform user db none scopes repository action h k = absurd (
    false≢true
      (subst (λ l. any (λ s. permits s repository action) l ≡ true) (sym (ok-injective h)) k))
granted_scopes-Sound platform user db (some requested) scopes repository action h k =
    elim (Result-cases
      (granted_actions platform user requested.repository (elements requested.actions) db)) [
        | inr (e, r) ↦ absurd (refused e (rw (r, granted_scopes) at h))
        | inl (granted, r) ↦
            let one =
              subst (λ l. any (λ s. permits s repository action) l ≡ true)
                (sym (ok-injective (rw (r, granted_scopes) at h))) k in
            one_scope platform user db requested granted repository action r (ground arith)
      ]
  where
    refused :
        (e : AppError) → ◌≡◌ {A = Result AppError (List RepositoryScope)} (err e) (ok scopes) → ⊥
    refused e h' = cc

-- A principal that presents a token's claims is permitted an action on a repository only if the
-- token was asked for that repository, and the database granted its user the action, or `admin`,
-- on it when the token was issued. A token for no scope permits nothing.
pub token_sound :
    (platform : Platform) (issuer service jti : Bytes) (now : ℕ) (user found : Option User)
    (db : Database) (requested : Option RepositoryScope) (scopes : List RepositoryScope)
    (repository : Bytes) (action : AccessAction)
    → granted_scopes platform user requested db ≡ ok scopes
    → principal_permits
        (record {
          user = found;
          scopes = scopes_of (claims_for issuer service jti now user scopes).access;
          bearer = true;
        })
        repository
        action
      ≡ true
    → (scope : RepositoryScope) × (requested ≡ some scope)
      × (scope.repository ≡ repository)
      × (IsGranted platform user repository db action ⊎ IsGranted platform user repository db admin)
unfolding principal_permits claims_for
token_sound platform issuer service jti now user found db requested scopes repository action h k =
    granted_scopes-Sound platform user db requested scopes repository action h
      (subst (λ l. any (λ s. permits s repository action) l ≡ true) (scopes_of-access_of scopes) k)
