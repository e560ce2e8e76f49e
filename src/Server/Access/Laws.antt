-- ===== src/Server/Access/Laws.antt =====
-- db.rs, authorize_repository, against a specification by cases.
use jcr.Prelude.{
  ℕ, ◌≤◌, ◌≡◌, refl, ◌↔◌, inl, inr, true, ◌&&◌, Option, none, some, arith, leb, Bool-cases,
  Option-cases, &&-eq-true,
}
use mathlib.Core.Bool.{false≢true}
use jcr.Scope.{AccessAction, pull, push, delete, admin}
use jcr.Server.Types.{User, is_instance_admin, Repository, is_public}
use jcr.Server.Database.{Database}
use jcr.Server.Database.Rows.{NamespaceRole}
use jcr.Server.Access.{
  namespace_grants, role_in, explicit_permission, authorize_user, authorize_repository, is_pull,
}

-- The order of the namespace roles.
abbrev pub rank : NamespaceRole → ℕ
rank NamespaceRole.reader = 1
rank NamespaceRole.writer = 2
rank NamespaceRole.admin = 3

-- The least rank that grants an action.
abbrev pub needed : AccessAction → ℕ
needed pull = 1
needed push = 2
needed delete = 3
needed admin = 3

namespace_grants-eq-leb :
    (action : AccessAction) (role : NamespaceRole)
    → namespace_grants action role ≡ leb (needed action) (rank role)
unfolding namespace_grants
namespace_grants-eq-leb action role = ground arith

-- A reason for which a request on a repository is allowed.
pub data Allows (db : Database) (repository : Repository) (action : AccessAction)
    : Option User → Type 0 where
  public_pull :
      {user : Option User}
      → action ≡ pull
      → is_public repository ≡ true
      → Allows db repository action user
  instance_admin : {u : User} → is_instance_admin u ≡ true → Allows db repository action (some u)
  member :
      {u : User} (role : NamespaceRole)
      → role_in repository.namespace_id u.id db ≡ some role
      → needed action ≤ rank role
      → Allows db repository action (some u)
  permission :
      {u : User}
      → explicit_permission repository.id u.id action db ≡ true
      → Allows db repository action (some u)

is_pull_lem : (a : AccessAction) → is_pull a ≡ true → a ≡ pull
is_pull_lem a h = ground arith

user_sound :
    (db : Database) (u : User) (repository : Repository) (action : AccessAction)
    → authorize_user u repository action db ≡ true
    → Allows db repository action (some u)
unfolding authorize_user
user_sound db u repository action h = elim (Bool-cases (is_instance_admin u)) [
  | inl a ↦ instance_admin a
  | inr n ↦ elim (Option-cases (role_in repository.namespace_id u.id db)) [
    | inl missing ↦ permission (rw (n, missing, authorize_user) at h)
    | inr (role, found) ↦ elim (Bool-cases (namespace_grants action role)) [
      | inl granted ↦
          member role found (let e = namespace_grants-eq-leb action role in ground arith)
      | inr short ↦ permission (rw (n, found, authorize_user, short) at h)
    ]
  ]
]

user_complete :
    (db : Database) (u : User) (repository : Repository) (action : AccessAction)
    → Allows db repository action (some u)
    → authorize_repository (some u) repository action db ≡ true
unfolding authorize_repository
user_complete db u repository action (public_pull e p) = rw (e, p)
user_complete db u repository action (instance_admin a) = ground arith
user_complete db u repository action (member role found le) =
    ground (arith, namespace_grants-eq-leb action role)
user_complete db u repository action (permission p) = ground arith

anonymous_sound :
    (db : Database) (repository : Repository) (action : AccessAction)
    → authorize_repository none repository action db ≡ true
    → Allows db repository action none
unfolding authorize_repository
anonymous_sound db repository action h =
    elim (Bool-cases (is_pull action && is_public repository)) [
      | inl both ↦
          let (a, b) = &&-eq-true (is_pull action) (is_public repository) both in
          public_pull (is_pull_lem action a) b
      | inr neither ↦ absurd (false≢true (rw (neither, authorize_repository) at h))
    ]

known_sound :
    (db : Database) (u : User) (repository : Repository) (action : AccessAction)
    → authorize_repository (some u) repository action db ≡ true
    → Allows db repository action (some u)
unfolding authorize_repository
known_sound db u repository action h = elim (Bool-cases (is_pull action && is_public repository)) [
  | inl both ↦
      let (a, b) = &&-eq-true (is_pull action) (is_public repository) both in
      public_pull (is_pull_lem action a) b
  | inr neither ↦ user_sound db u repository action (rw (neither, authorize_repository) at h)
]

anonymous_complete :
    (db : Database) (repository : Repository) (action : AccessAction) (user : Option User)
    → user ≡ none
    → Allows db repository action user
    → authorize_repository none repository action db ≡ true
unfolding authorize_repository
anonymous_complete db repository action user n (public_pull e p) = rw (e, p)
anonymous_complete db repository action user n _ = cc

-- `authorize_repository` allows exactly what has a reason: a pull of a public repository, an
-- instance admin, a member of the namespace whose role suffices, or an explicit permission for the
-- action or for `admin`.
pub authorize_repository_iff :
    (db : Database) (user : Option User) (repository : Repository) (action : AccessAction)
    → (authorize_repository user repository action db ≡ true) ↔ Allows db repository action user
authorize_repository_iff db none repository action =
    (anonymous_sound db repository action, anonymous_complete db repository action none refl)
authorize_repository_iff db (some u) repository action =
    (known_sound db u repository action, user_complete db u repository action)
