-- ===== src/Server/Access/Names.antt =====
-- db.rs, authorize_repository_name, against a specification by cases.
use jcr.Prelude.{
  ◌≤◌, ◌≡◌, refl, ◌⊎◌, inl, inr, Bool, true, false, Option, none, some, arith, if◌then◌else◌,
  Bool-cases, Bytes, ok, ok-injective, Result-cases, false-true, err-ok,
}
use jcr.Text.{split_once}
use jcr.Scope.{AccessAction, pull, push, delete, admin}
use jcr.Server.Types.{User, is_instance_admin, Repository, Platform}
use jcr.Server.Database.{Database}
use jcr.Server.Database.Rows.{NamespaceRole, Membership}
use jcr.Server.Access.{
  find_repository, name_grants, role_by_name, granted_by, authorize_missing, authorize_found,
  authorize_repository_name,
}
use jcr.Server.Access.Laws.{Allows, rank, needed, authorize_repository_iff}

-- A reason for which a request on a name is allowed: as an instance admin, as a member of the
-- namespace whose role suffices for a pull or a push, or on the repository that has the name.
pub data AllowsName (platform : Platform) (db : Database) (name : Bytes) (action : AccessAction)
    : Option User → Type 0 where
  on_repository :
      {user : Option User} (repository : Repository)
      → find_repository platform name db ≡ ok (some repository)
      → Allows db repository action user
      → AllowsName platform db name action user
  name_admin : {u : User} → is_instance_admin u ≡ true → AllowsName platform db name action (some u)
  name_member :
      {u : User} (namespace rest : Bytes) (m : Membership)
      → split_once b'/' name ≡ some (namespace, rest)
      → role_by_name platform namespace u.id db ≡ some m
      → (action ≡ pull) ⊎ (action ≡ push)
      → needed action ≤ rank m.role
      → AllowsName platform db name action (some u)

name_grants_sound :
    (action : AccessAction) (role : NamespaceRole)
    → name_grants action role ≡ true
    → ((action ≡ pull) ⊎ (action ≡ push)) × (needed action ≤ rank role)
unfolding name_grants
name_grants_sound pull role h = (inl refl, ground arith)
name_grants_sound push role h = (inr refl, ground arith)
name_grants_sound delete role h = cc
name_grants_sound admin role h = cc

module _ (platform : Platform) (db : Database) (name : Bytes) (action : AccessAction) where
  abbrev Grant : User → Bool → Type 0
  Grant u b = b ≡ true → AllowsName platform db name action (some u)

  by_role :
      (u : User) (namespace rest : Bytes)
      → split_once b'/' name ≡ some (namespace, rest)
      → (o : Option Membership) → role_by_name platform namespace u.id db ≡ o
      → Grant u (granted_by platform action o)
  by_role u namespace rest split none found h = absurd (false-true h)
  by_role u namespace rest split (some m) found h =
      let (small, enough) = name_grants_sound action m.role h in
      name_member namespace rest m split found small enough

  by_name :
      (u : User) (o : Option (Bytes × Bytes))
      → split_once b'/' name ≡ o
      → Grant u (elim o [
        | none ↦ false
        | some (namespace, _) ↦ granted_by platform action (role_by_name platform namespace u.id db)
      ])
  by_name u none split h = absurd (false-true h)
  by_name u (some (namespace, rest)) split h =
      by_role u namespace rest split (role_by_name platform namespace u.id db) refl h

  by_action : (u : User) (c b : Bool) → Grant u b → Grant u (if c then false else b)
  by_action u true b k h = absurd (false-true h)
  by_action u false b k h = k h

  missing_sound :
      (user : Option User)
      → authorize_missing platform user name action db ≡ true
      → AllowsName platform db name action user
  unfolding authorize_missing
  missing_sound none h = absurd (false-true h)
  missing_sound (some u) h = elim (Bool-cases (is_instance_admin u)) [
    | inl a ↦ name_admin a
    | inr n ↦
        by_action u _ _ (by_name u (split_once b'/' name) refl) (rw (n, authorize_missing) at h)
  ]

  found_sound :
      (user : Option User) (repository : Option Repository)
      → find_repository platform name db ≡ ok repository
      → authorize_found platform user name action db repository ≡ true
      → AllowsName platform db name action user
  unfolding authorize_found
  found_sound user none found h = missing_sound user h
  found_sound user (some r) found h =
      on_repository r found ((authorize_repository_iff db user r action).0 h)

  pub authorize_repository_name_sound :
      (user : Option User)
      → authorize_repository_name platform user name action db ≡ ok true
      → AllowsName platform db name action user
  unfolding authorize_repository_name
  authorize_repository_name_sound user h = elim (Result-cases (find_repository platform name db)) [
    | inr (e, failed) ↦ absurd (err-ok (rw (failed, authorize_repository_name) at h))
    | inl (r, found) ↦
        found_sound user r found (ok-injective (rw (found, authorize_repository_name) at h))
  ]
