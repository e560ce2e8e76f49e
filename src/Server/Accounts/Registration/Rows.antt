-- ===== src/Server/Accounts/Registration/Rows.antt =====
-- db.rs, what the statements of register_verified_identity write where no constraint refuses them.
use jcr.Prelude.{
  none-some, err-ok, ℕ, ◌≡◌, inl, inr, false, not, ◌&&◌, Option, none, some, ◌==◌, Bool-cases,
  Bytes, bytes_eq, Result, ok, ok-injective,
}
use mathlib.Core.Path.{subst}
use jcr.Server.Error.{AppError}
use jcr.Server.Types.{User, Platform}
use jcr.Server.Database.{Database}
use jcr.Server.Database.Rows.{UserRow, Identity, Namespace, Membership, NamespaceRole, InstanceRole}
use jcr.Server.Database.Tables.{insert, exists}
use jcr.Server.Exec.{World, execute}
use jcr.Server.Exec.Returns.{
  Returns, Returns-bind, Returns-gets, Returns-lift, Returns-modify, Returns-pure, Returns-execute,
}
use jcr.Server.Auth.{user_of_row}
use jcr.Server.Commit.{insert_audit}
use jcr.Server.Accounts.Username.{username_format}
use jcr.Server.Accounts.Registration.{
  VerifiedLogin, is_identity, execute_unique, same_user, insert_user, same_namespace,
  insert_namespace, insert_identity, insert_membership, claim_entry, new_user, new_identity,
  create_account,
}

pub some_inj : {A : Type 0} {a b : A} → ◌≡◌ {A = Option A} (some a) (some b) → a ≡ b
some_inj h = cc

module _ {S : Type 0} where
  execute_unique-Returns :
      (f : Database → Result AppError Database) (w : World S) (Q : Unit {0} → World S → Type 0)
      → ((db : Database) → f w.db ≡ ok db → Q tt (record w { db = db }))
      → Returns (execute_unique f) w Q
  unfolding execute_unique
  execute_unique-Returns f w Q q = Returns-bind _ _ _ _ (
      Returns-gets _ _ _
        (Returns-bind _ _ _ _ (Returns-lift _ _ _ (λ db h. Returns-modify _ _ _ (q db h)))))

module _ {S : Type 0} (platform : Platform) where
  insert_user-Returns :
      (r : UserRow) (w : World S) (Q : Unit {0} → World S → Type 0)
      → (exists (same_user platform r) w.db.users ≡ false
          → Q tt (record w { db = record w.db { users = insert r w.db.users } }))
      → Returns (execute_unique (insert_user platform r)) w Q
  unfolding insert_user
  insert_user-Returns r w Q q = execute_unique-Returns _ w Q (λ db h. reached db h)
    where
      reached : (db : Database) → insert_user platform r w.db ≡ ok db → Q tt (record w { db = db })
      reached db h = elim (Bool-cases (not (username_format false r.username))) [
        | inl malformed ↦ absurd (err-ok (rw (malformed, insert_user) at h))
        | inr formed ↦ elim (Bool-cases (exists (same_user platform r) w.db.users)) [
          | inl taken ↦ absurd (err-ok (rw (formed, taken, insert_user) at h))
          | inr free ↦
              subst (λ d. Q tt (record w { db = d }))
                (ok-injective (rw (formed, free, insert_user) at h)) (q free)
        ]
      ]

  insert_namespace-Returns :
      (r : Namespace) (w : World S) (Q : Unit {0} → World S → Type 0)
      → (exists (same_namespace platform r) w.db.namespaces ≡ false
          → Q tt (record w { db = record w.db { namespaces = insert r w.db.namespaces } }))
      → Returns (execute_unique (insert_namespace platform r)) w Q
  unfolding insert_namespace
  insert_namespace-Returns r w Q q = execute_unique-Returns _ w Q (λ db h. reached db h)
    where
      reached :
          (db : Database) → insert_namespace platform r w.db ≡ ok db → Q tt (record w { db = db })
      reached db h = elim (Bool-cases (not (username_format false r.name))) [
        | inl malformed ↦ absurd (err-ok (rw (malformed, insert_namespace) at h))
        | inr formed ↦ elim (Bool-cases (exists (same_namespace platform r) w.db.namespaces)) [
          | inl taken ↦ absurd (err-ok (rw (formed, taken, insert_namespace) at h))
          | inr free ↦
              subst (λ d. Q tt (record w { db = d }))
                (ok-injective (rw (formed, free, insert_namespace) at h)) (q free)
        ]
      ]

module _ {S : Type 0} where
  insert_identity-Returns :
      (r : Identity) (w : World S) (Q : Unit {0} → World S → Type 0)
      → (exists
              (λ i.
                bytes_eq i.provider r.provider && bytes_eq i.provider_subject r.provider_subject)
              w.db.verified_identities
            ≡ false
          → Q tt (record w {
            db = record w.db { verified_identities = insert r w.db.verified_identities };
          }))
      → Returns (execute (insert_identity r)) w Q
  unfolding insert_identity
  insert_identity-Returns r w Q q = Returns-execute _ w Q (λ db h. reached db h)
    where
      reached : (db : Database) → insert_identity r w.db ≡ some db → Q tt (record w { db = db })
      reached db h =
          elim (Bool-cases (
            exists
              (λ i.
                bytes_eq i.provider r.provider && bytes_eq i.provider_subject r.provider_subject)
              w.db.verified_identities)) [
                | inl taken ↦ absurd (none-some (rw (taken, insert_identity) at h))
                | inr free ↦
                    subst (λ d. Q tt (record w { db = d }))
                      (some_inj (rw (free, insert_identity) at h)) (q free)
              ]

  insert_membership-Returns :
      (r : Membership) (w : World S) (Q : Unit {0} → World S → Type 0)
      → (exists
              (λ m. m.namespace_id == r.namespace_id && m.user_id == r.user_id)
              w.db.namespace_memberships
            ≡ false
          → Q tt (record w {
            db = record w.db { namespace_memberships = insert r w.db.namespace_memberships };
          }))
      → Returns (execute (insert_membership r)) w Q
  unfolding insert_membership
  insert_membership-Returns r w Q q = Returns-execute _ w Q (λ db h. reached db h)
    where
      reached : (db : Database) → insert_membership r w.db ≡ some db → Q tt (record w { db = db })
      reached db h =
          elim (Bool-cases (
            exists (λ m. m.namespace_id == r.namespace_id && m.user_id == r.user_id)
              w.db.namespace_memberships)) [
                | inl taken ↦ absurd (none-some (rw (taken, insert_membership) at h))
                | inr free ↦
                    subst (λ d. Q tt (record w { db = d }))
                      (some_inj (rw (free, insert_membership) at h)) (q free)
              ]

module _ (platform : Platform) (user_id namespace_id : ℕ) (login : VerifiedLogin)
    (username : Bytes) where
  abbrev pub account_rows : InstanceRole → NamespaceRole → Database → Database
  account_rows instance_role namespace_role db = record db {
    users = insert (new_user user_id username login instance_role) db.users;
    verified_identities = insert (new_identity user_id login) db.verified_identities;
    namespaces =
        insert (record { id = namespace_id; name = username; owner_user_id = user_id })
          db.namespaces;
    namespace_memberships =
        insert (record { namespace_id = namespace_id; user_id = user_id; role = namespace_role })
          db.namespace_memberships;
  }

  -- what the constraints let through
  pub record IsFresh (instance_role : InstanceRole) (db : Database) : Type 0 where
    pub no_user :
        exists (same_user platform (new_user user_id username login instance_role)) db.users ≡ false
    pub no_identity : exists (is_identity login) db.verified_identities ≡ false
    pub no_namespace :
        exists
          (same_namespace platform
            (record { id = namespace_id; name = username; owner_user_id = user_id }))
          db.namespaces
        ≡ false
    pub no_membership :
        exists
          (λ m. m.namespace_id == namespace_id && m.user_id == user_id)
          db.namespace_memberships
        ≡ false

  abbrev pub settled : Option ℕ → Database → Database
  settled entry db =
      insert_audit (some user_id) "user.registered" none (some "user")
        (some (platform.uuid_text user_id)) (claim_entry entry user_id db)

  pub create_account-Returns :
      {S : Type 0} (entry : Option ℕ) (instance_role : InstanceRole)
      (namespace_role : NamespaceRole) (w : World S) (Q : User → World S → Type 0)
      → (IsFresh instance_role w.db
          → Q
              (user_of_row (new_user user_id username login instance_role))
              (record w { db = settled entry (account_rows instance_role namespace_role w.db) }))
      → Returns
          (create_account platform user_id namespace_id login username
            (entry, instance_role, namespace_role))
          w
          Q
  unfolding create_account
  create_account-Returns entry instance_role namespace_role w Q q = Returns-bind _ _ _ _ (
      insert_user-Returns platform _ _ _ (λ no_user. Returns-bind _ _ _ _ (
        insert_identity-Returns _ _ _ (λ no_identity. Returns-bind _ _ _ _ (
          insert_namespace-Returns platform _ _ _ (λ no_namespace. Returns-bind _ _ _ _ (
            insert_membership-Returns _ _ _ (λ no_membership. Returns-bind _ _ _ _ (
              Returns-modify _ _ _ (
                Returns-bind _ _ _ _ (
                  Returns-modify _ _ _ (
                    Returns-pure _ _ _ (
                      q (record {
                        no_user = no_user;
                        no_identity = no_identity;
                        no_namespace = no_namespace;
                        no_membership = no_membership;
                      }))))))))))))))
