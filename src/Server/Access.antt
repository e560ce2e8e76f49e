-- ===== src/Server/Access.antt =====
-- crates/jcrd/src/db.rs, lines 656-848: repositories by name, and who may do what to them.
pub mod Laws
pub mod Names
use jcr.Prelude.{
  ℕ, zero, suc, ◌+◌, ◌-◌, ◌*◌, ◌/◌, ◌%◌, ◌^◌, ◌≤◌, ◌<◌, String, ◌≡◌, refl, sym, ap, ◌∙◌, ◌≢◌, ◌↔◌,
  ◌⊎◌, inl, inr, Bool, true, false, not, ◌&&◌, ◌||◌, Option, none, some, List, [], ◌∷◌, ◌++◌, map,
  reverse, arith, ltb, leb, ◌==◌, ==_iff, if◌then◌else◌, Bool-cases, Option-cases, &&-eq-true,
  ||-eq-false, length, all, any, is_empty, length-append, all-append, any-append, Bytes, codes,
  bytes_eq, bytes_eq_refl, eq_of_bytes_eq, bytes_eq_iff, Result, ok, err, ok_or, is_ok, to_option,
  ◌>>=◌, ◌>>◌, >>=-eq-ok, map_err, ok-injective, All, All-concat,
}
use jcr.Text.{split_once, is_ascii_lowercase, is_ascii_digit}
use jcr.Scope.{AccessAction, pull, push, delete, admin, action_eq}
use jcr.Server.Error.{AppError, bad_request}
use jcr.Server.Types.{User, is_instance_admin, Repository, is_public, Platform}
use jcr.Server.Database.{Database}
use jcr.Server.Database.Rows.{NamespaceRole, Namespace, Membership, Permission, RepositoryRow}
use jcr.Server.Database.Tables.{find, exists}

abbrev pub is_none {ℓ} : {A : Type ℓ} → Option A → Bool
is_none none = true
is_none (some a) = false

-- `matches!(action, Pull | Push)`
abbrev is_pull_or_push : AccessAction → Bool
is_pull_or_push pull = true
is_pull_or_push push = true
is_pull_or_push _ = false

abbrev pub is_pull : AccessAction → Bool
is_pull a = action_eq a pull

-- What a role in the namespace grants on each of its repositories.
unfoldable pub namespace_grants : AccessAction → NamespaceRole → Bool
namespace_grants pull role = true
namespace_grants push NamespaceRole.reader = false
namespace_grants push _ = true
namespace_grants delete NamespaceRole.admin = true
namespace_grants delete _ = false
namespace_grants admin NamespaceRole.admin = true
namespace_grants admin _ = false

-- What it grants on a name that is no repository yet.
unfoldable pub name_grants : AccessAction → NamespaceRole → Bool
name_grants pull role = true
name_grants push NamespaceRole.reader = false
name_grants push _ = true
name_grants _ role = false

abbrev is_some_and {ℓ} : {A : Type ℓ} → (A → Bool) → Option A → Bool
is_some_and p none = false
is_some_and p (some a) = p a

-- the role of a user in a namespace
unfoldable pub role_in : ℕ → ℕ → Database → Option NamespaceRole
role_in namespace_id user_id db =
    elim (find (λ m. m.namespace_id == namespace_id && m.user_id == user_id)
      db.namespace_memberships) [ none ↦ none | some m ↦ some m.role ]

-- `SELECT EXISTS` over `repository_permissions`
unfoldable pub explicit_permission : ℕ → ℕ → AccessAction → Database → Bool
explicit_permission repository_id user_id action db =
    exists
      (λ p.
        p.repository_id == repository_id
        && (p.user_id == user_id && (action_eq p.action action || action_eq p.action admin)))
      db.repository_permissions

-- behind the public pull and the missing user
unfoldable pub authorize_user : User → Repository → AccessAction → Database → Bool
authorize_user user repository action db =
    if is_instance_admin user
    then true
    else if is_some_and (namespace_grants action) (role_in repository.namespace_id user.id db)
    then true
    else explicit_permission repository.id user.id action db

unfoldable pub authorize_repository : Option User → Repository → AccessAction → Database → Bool
unfolding authorize_user
authorize_repository user repository action db =
    if is_pull action && is_public repository
    then true
    else elim user [ none ↦ false | some u ↦ authorize_user u repository action db ]

module _ (platform : Platform) where
  -- `LOWER(n.name) = LOWER($1)`
  abbrev pub same_name : Bytes → Namespace → Bool
  same_name namespace n = bytes_eq (platform.lower n.name) (platform.lower namespace)

  abbrev pub namespace_of : RepositoryRow → Database → Option Namespace
  namespace_of r db = find (λ n. n.id == r.namespace_id) db.namespaces

  -- the condition of the join
  abbrev pub is_repository : Bytes → Bytes → Database → RepositoryRow → Bool
  is_repository namespace name db r =
      is_some_and (same_name namespace) (namespace_of r db)
      && (bytes_eq r.name name && is_none r.deleted_at)

  abbrev pub joined : RepositoryRow → Option Namespace → Option Repository
  joined r none = none
  joined r (some n) = some (record {
    id = r.id;
    namespace_id = r.namespace_id;
    namespace = n.name;
    name = r.name;
    visibility = r.visibility;
    immutable_tag_pattern = r.immutable_tag_pattern;
  })

  unfoldable pub repository_named : Bytes → Bytes → Database → Option Repository
  repository_named namespace name db =
      elim (find (is_repository namespace name db) db.repositories) [
        | none ↦ none
        | some r ↦ joined r (namespace_of r db)
      ]

  unfoldable pub find_repository : Bytes → Database → Result AppError (Option Repository)
  unfolding repository_named
  find_repository full_name db = do
    (namespace, name) ← ok_or (split_once b'/' full_name) bad_request
    ok (repository_named namespace name db)

  -- The role of a user in the namespace with a name, by the join.
  unfoldable pub role_by_name : Bytes → ℕ → Database → Option Membership
  role_by_name namespace user_id db =
      find
        (λ m.
          m.user_id == user_id
          && exists (λ n. n.id == m.namespace_id && same_name namespace n) db.namespaces)
        db.namespace_memberships

  abbrev pub granted_by : AccessAction → Option Membership → Bool
  granted_by action none = false
  granted_by action (some m) = name_grants action m.role

  -- where no repository has the name
  unfoldable pub authorize_missing : Option User → Bytes → AccessAction → Database → Bool
  unfolding role_by_name
  authorize_missing none full_name action db = false
  authorize_missing (some user) full_name action db =
      if is_instance_admin user
      then true
      else if not (is_pull_or_push action)
      then false
      else elim (split_once b'/' full_name) [
        | none ↦ false
        | some (namespace, _) ↦ granted_by action (role_by_name namespace user.id db)
      ]

  unfoldable pub authorize_found :
      Option User → Bytes → AccessAction → Database → Option Repository → Bool
  unfolding authorize_missing authorize_repository
  authorize_found user full_name action db (some repository) =
      authorize_repository user repository action db
  authorize_found user full_name action db none = authorize_missing user full_name action db

  unfoldable pub authorize_repository_name :
      Option User → Bytes → AccessAction → Database → Result AppError Bool
  unfolding authorize_found
  authorize_repository_name user full_name action db = do
    repository ← find_repository full_name db
    ok (authorize_found user full_name action db repository)

abbrev is_lower_or_digit : ℕ → Bool
is_lower_or_digit b = is_ascii_lowercase b || is_ascii_digit b

-- `repositories_name_format` of the migration; the flag tells whether the byte before was a letter
-- or a digit.
unfoldable pub name_format : Bool → Bytes → Bool
name_format after_alphanumeric [] = after_alphanumeric
name_format after_alphanumeric (b ∷ s) =
    let plain = name_format true s in
    let separated = name_format false s in
    if is_lower_or_digit b
    then plain
    else if after_alphanumeric && (b == b'.' || (b == b'_' || (b == b'/' || b == b'-')))
    then separated
    else false
