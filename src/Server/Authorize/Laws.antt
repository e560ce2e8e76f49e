-- ===== src/Server/Authorize/Laws.antt =====
-- registry.rs, authorize: the reasons of those it lets through.
use jcr.Prelude.{
  false-true, ℕ, ◌≡◌, refl, sym, ap, ◌∙◌, ◌⊎◌, inl, inr, Bool, true, false, not, ◌&&◌, ◌||◌, Option,
  none, some, arith, if◌then◌else◌, Bool-cases, &&-eq-true, Bytes, Result, ok, err, ok-injective,
  Result-cases,
}
use mathlib.Core.Path.{subst}
use jcr.Scope.{AccessAction, pull}
use jcr.Server.Error.{AppError}
use jcr.Server.Types.{User, Repository, is_public, Authorized, HeaderValue, Platform}
use jcr.Server.Database.{Database}
use jcr.Server.Exec.{World}
use jcr.Server.Access.{find_repository, is_pull}
use jcr.Server.Access.Laws.{Allows, authorize_repository_iff}
use jcr.Server.Access.Names.{AllowsName, authorize_repository_name_sound}
use jcr.Server.Auth.{Principal, principal_permits, Credentials, authenticate}
use jcr.Server.Authorize
use jcr.Server.Authorize.{
  Decision, granted, answered, decide, decide_all, authorize, database_decision,
  is_public_repository, challenge_response, denied_response,
}

-- What leave to go on takes: a reason on a repository that is there, and on the name where there
-- is none.
abbrev pub IsAllowed :
    Platform → Bytes → AccessAction → Option User → Option Repository → Database → Type 0
IsAllowed platform name action user (some repository) db = Allows db repository action user
IsAllowed platform name action user none db = AllowsName platform db name action user

-- What lets a request through, by who makes it: nobody, for a pull of a public repository, or a
-- principal, who has a reason, and whose token is for the action where it has scopes.
abbrev pub IsAuthorized :
    Platform → Bytes → AccessAction → Option Principal → Authorized → Database → Type 0
IsAuthorized platform name action none a db =
    (a.user ≡ none)
    × (action ≡ pull)
    × ((r : Repository) × (a.repository ≡ some r) × (is_public r ≡ true))
IsAuthorized platform name action (some principal) a db =
    (a.user ≡ principal.user)
    × IsAllowed platform name action principal.user a.repository db
    × ((principal.bearer ≡ false) ⊎ (principal_permits principal name action ≡ true))

not_answered : {r : _} {a : Authorized} → answered r ≡ granted a → ⊥
not_answered e = cc

granted_inj : {x a : Authorized} → granted x ≡ granted a → a ≡ x
granted_inj {x} e = sym (ap (of x) e)
  where
    of : Authorized → Decision → Authorized
    of x (granted a) = a
    of x (answered r) = x

-- the test on a principal
passed :
    (allowed bearer permits : Bool) (x a : Authorized)
    → (if not allowed || not (not bearer || permits) then answered denied_response else granted x)
      ≡ granted a
    → (a ≡ x) × (allowed ≡ true) × ((bearer ≡ false) ⊎ (permits ≡ true))
passed false bearer permits x a h = absurd (not_answered h)
passed true true false x a h = absurd (not_answered h)
passed true true true x a h = (granted_inj h, refl, inr refl)
passed true false permits x a h = (granted_inj h, refl, inl refl)

module _ (platform : Platform) (name : Bytes) (action : AccessAction)
    (repository : Option Repository) (db : Database) (a : Authorized) where
  decided :
      (user : Option User)
      → (r : Option Repository) → database_decision platform user name action r db ≡ ok true
      → IsAllowed platform name action user r db
  decided user (some r) h = (authorize_repository_iff db user r action).0 (ok-injective h)
  decided user none h = authorize_repository_name_sound platform db name action user h

  decide_sound :
      (principal : Principal)
      → decide platform name action repository principal db ≡ granted a
      → (a ≡ record { repository = repository; user = principal.user })
        × IsAllowed platform name action principal.user repository db
        × ((principal.bearer ≡ false) ⊎ (principal_permits principal name action ≡ true))
  unfolding decide
  decide_sound principal h =
      elim (Result-cases (database_decision platform principal.user name action repository db)) [
        | inr (e, failed) ↦ absurd (not_answered (rw (failed, decide) at h))
        | inl (allowed, found) ↦
            let (same, allows, permits) =
              passed allowed principal.bearer (principal_permits principal name action)
                (record { repository = repository; user = principal.user }) a
                (rw (found, decide) at h) in
            (
              same,
              decided principal.user repository (
                  subst
                    (λ b.
                      database_decision platform principal.user name action repository db ≡ ok b)
                    allows found),
              permits,
            )
      ]

  decide_all_sound :
      (realm : Bytes) (principal : Option Principal)
      → decide_all platform realm name action repository principal db ≡ granted a
      → (a.repository ≡ repository) × IsAuthorized platform name action principal a db
  unfolding decide_all
  decide_all_sound realm (some principal) h =
      let (same, allows, permits) = decide_sound principal h in
      rw same (refl, (refl, allows, permits))
  decide_all_sound realm none h =
      elim (Bool-cases (is_pull action && is_public_repository repository)) [
        | inr e ↦ absurd (not_answered (rw (e, decide_all) at h))
        | inl e ↦
            let (pulls, public) = &&-eq-true _ _ e in
            rw (granted_inj (rw (e, decide_all) at h))
              (refl, (refl, pull_of action pulls, public_of repository public))
      ]
    where
      pull_of : (x : AccessAction) → is_pull x ≡ true → x ≡ pull
      pull_of x h = ground arith

      public_of :
          (r : Option Repository)
          → is_public_repository r ≡ true
          → (r' : Repository) × (r ≡ some r') × (is_public r' ≡ true)
      public_of none e = absurd (false-true e)
      public_of (some r) e = (r, refl, e)

-- A request that `authorize` lets through is on the repository that its name finds, and the
-- credentials of the request authenticate who is let through: a request without credentials is a
-- pull of a public repository, for no user; one with them is for the user that they are of, who
-- has a reason in the database that the authentication leaves (public, an instance admin, a role in
-- the namespace, a permission, and for a name without a repository an instance admin or a role that
-- suffices for a pull or a push), and a bearer token permits the action on the name too.
pub authorize_sound :
    {S : Type 0} (platform : Platform) (credentials : Credentials) (now : ℕ) (realm : Bytes)
    (authorization : HeaderValue) (name : Bytes) (action : AccessAction) (w w' : World S)
    (a : Authorized)
    → authorize platform credentials now realm authorization name action w ≡ (ok (granted a), w')
    → (principal : Option Principal) × (authenticate platform credentials now authorization w
        ≡ (ok principal, w'))
      × (find_repository platform name w.db ≡ ok a.repository)
      × IsAuthorized platform name action principal a w'.db
unfolding authorize
authorize_sound {S} platform credentials now realm authorization name action w w' a h =
    elim (Result-cases (find_repository platform name w.db)) [
      | inr (e, failed) ↦ absurd (not_returned (rw (failed, authorize) at h))
      | inl (r, found) ↦
          let (principal, known, same, granted_for) =
            after r (authenticate platform credentials now authorization w)
              (rw (found, authorize) at h) in
          (principal, known, found ∙ ap ok (sym same), granted_for)
    ]
  where
    not_returned :
        {x : _} {y : World S}
        → ◌≡◌ {A = Result AppError Decision × World S} (ok (answered x), y) (ok (granted a), w')
        → ⊥
    not_returned e = not_answered (ok-injective (ap (λ p. p.0) e))

    after :
        (r : Option Repository) (p : Result AppError (Option Principal) × World S)
        → Authorize.authenticated platform credentials p realm name action r ≡ (ok (granted a), w')
        → (principal : Option Principal) × (p ≡ (ok principal, w'))
          × (a.repository ≡ r)
          × IsAuthorized platform name action principal a w'.db
    after r (err e, w1) h = absurd (not_returned h)
    after r (ok principal, w1) h =
        let left = ap (λ p. p.1) h in
        let (same, granted_for) =
          decide_all_sound platform name action r w1.db a realm principal
            (ok-injective (ap (λ p. p.0) h)) in
        (
          principal,
          ap (λ w. (ok principal, w)) left,
          same,
          subst (λ w'. IsAuthorized platform name action principal a w'.db) left granted_for,
        )
