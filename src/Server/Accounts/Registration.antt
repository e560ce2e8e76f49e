-- ===== src/Server/Accounts/Registration.antt =====
-- crates/jcrd/src/db.rs, lines 39-45, 123-347 and 380-389: who may have an account, and what an account is.
pub mod Rows
pub mod Laws
pub mod Invitations
use jcr.Prelude.{
  ℕ, zero, suc, ◌+◌, ◌-◌, ◌*◌, ◌/◌, ◌%◌, ◌^◌, ◌≤◌, ◌<◌, String, ◌≡◌, refl, sym, ap, ◌∙◌, ◌≢◌, ◌↔◌,
  ◌⊎◌, inl, inr, Bool, true, false, not, ◌&&◌, ◌||◌, Option, none, some, List, [], ◌∷◌, ◌++◌, map,
  reverse, arith, ltb, leb, ◌==◌, ==_iff, if◌then◌else◌, Bool-cases, Option-cases, &&-eq-true,
  ||-eq-false, length, all, any, is_empty, length-append, all-append, any-append, Bytes, codes,
  bytes_eq, bytes_eq_refl, eq_of_bytes_eq, bytes_eq_iff, Result, ok, err, ok_or, is_ok, to_option,
  map_err, ok-injective, Result-cases, All, All-concat,
}
use jcr.Manifest.{trim}
use jcr.Server.Error.{AppError, denied, conflict, database}
use jcr.Server.Types.{User, Platform}
use jcr.Server.Database.{Database}
use jcr.Server.Database.Rows.{
  UserRow, Identity, Namespace, Membership, NamespaceRole, InstanceRole, RegistrationMode,
  RegistrationEntry, EntryStatus, closed, allowlist, invite, open_mode,
}
use jcr.Server.Database.Tables.{find, update, insert, exists}
use jcr.Server.Exec.{
  Exec, pure, throw, lift, gets, fetch, execute, modify, transaction, ◌>>=◌, ◌>>◌,
}
use jcr.Server.Access.{is_none}
use jcr.Server.Auth.{user_of_row, user_by_id, is_current}
use jcr.Server.Commit.{insert_audit}
use jcr.Server.Accounts.Username.{to_ascii_lowercase, normalize_username, username_format}

pub record VerifiedLogin : Type 0 where
  pub provider : Bytes
  pub subject : Bytes
  pub email : Bytes
  pub email_verified : Bool
  pub display_name : Option Bytes

abbrev pub is_identity : VerifiedLogin → Identity → Bool
is_identity login i =
    bytes_eq i.provider login.provider && bytes_eq i.provider_subject login.subject

abbrev pub is_some_user : Option User → Bool
is_some_user none = false
is_some_user (some u) = true

abbrev pub user_of_identity : Database → Option Identity → Option User
user_of_identity db none = none
user_of_identity db (some i) = user_by_id i.user_id db

-- the identity of a login whose user is not disabled, joined with the user
unfoldable pub identified : VerifiedLogin → Database → Option User
identified login db = user_of_identity db (
    find (λ i. is_identity login i && is_some_user (user_by_id i.user_id db))
      db.verified_identities)

unfoldable pub touch_identity : VerifiedLogin → Database → Database
touch_identity login db = record db {
  verified_identities =
      update (is_identity login) (λ i. record i { email = login.email }) db.verified_identities;
}

abbrev pub is_pending : EntryStatus → Bool
is_pending EntryStatus.pending = true
is_pending _ = false

-- `status = 'pending'`, the same address, and not expired
unfoldable pub is_invited : Platform → ℕ → Bytes → RegistrationEntry → Bool
is_invited platform now email e =
    bytes_eq (platform.lower e.email) (platform.lower email)
    && (is_pending e.status && is_current now e.expires_at)

-- the columns of `RegistrationEntry` that are read
abbrev pub Admission : Type 0
Admission = Option ℕ × InstanceRole × NamespaceRole

-- the match on the mode and the entry
unfoldable pub admission : RegistrationMode → Option RegistrationEntry → Result AppError Admission
admission closed entry = err denied
admission allowlist none = err denied
admission invite none = err denied
admission open_mode none = ok (none, InstanceRole.user, NamespaceRole.admin)
admission allowlist (some e) = ok (some e.id, e.instance_role, e.namespace_role)
admission invite (some e) = ok (some e.id, e.instance_role, e.namespace_role)
admission open_mode (some e) = ok (some e.id, e.instance_role, e.namespace_role)

-- `registration_entry_is_open` of the match in `ensure_registration_allowed`
unfoldable pub allowed : RegistrationMode → Bool → Result AppError (Unit {0})
allowed closed invited = err denied
allowed open_mode invited = ok tt
allowed allowlist invited = if invited then ok tt else err denied
allowed invite invited = if invited then ok tt else err denied

-- a statement whose violations of unique indices are mapped by `map_unique_registration_error`
unfoldable pub execute_unique :
    {S : Type 0} → (Database → Result AppError Database) → Exec S (Unit {0})
execute_unique f = do result ← gets f; db ← lift result; modify (λ _. db)

module _ (platform : Platform) where
  abbrev pub same_user : UserRow → UserRow → Bool
  same_user r u =
      u.id == r.id
      || (bytes_eq (platform.lower u.username) (platform.lower r.username)
          || bytes_eq (platform.lower u.primary_email) (platform.lower r.primary_email))

  -- The form is checked before the indices are looked at.
  unfoldable pub insert_user : UserRow → Database → Result AppError Database
  insert_user r db =
      if not (username_format false r.username)
      then err database
      else if exists (same_user r) db.users
      then err conflict
      else ok (record db { users = insert r db.users })

  abbrev pub same_namespace : Namespace → Namespace → Bool
  same_namespace r n = n.id == r.id || bytes_eq (platform.lower n.name) (platform.lower r.name)

  unfoldable pub insert_namespace : Namespace → Database → Result AppError Database
  insert_namespace r db =
      if not (username_format false r.name)
      then err database
      else if exists (same_namespace r) db.namespaces
      then err conflict
      else ok (record db { namespaces = insert r db.namespaces })

  -- `seed_admin_registration`
  unfoldable pub seed_admin_registration : ℕ → Bytes → Database → Database
  seed_admin_registration id email db =
      if exists (λ u. bytes_eq (platform.lower u.primary_email) (platform.lower email)) db.users
        || exists
            (λ e.
              e.id == id
              || (is_pending e.status && bytes_eq (platform.lower e.email) (platform.lower email)))
            db.registration_entries
      then db
      else record db {
        registration_entries =
            insert
              (record {
                id = id;
                email = email;
                instance_role = InstanceRole.admin;
                namespace_role = NamespaceRole.admin;
                status = EntryStatus.pending;
                claimed_by = none;
                expires_at = none;
              })
              db.registration_entries;
      }

unfoldable pub insert_identity : Identity → Database → Option Database
insert_identity r db =
    if exists
      (λ i. bytes_eq i.provider r.provider && bytes_eq i.provider_subject r.provider_subject)
      db.verified_identities
    then none
    else some (record db { verified_identities = insert r db.verified_identities })

unfoldable pub insert_membership : Membership → Database → Option Database
insert_membership r db =
    if exists (λ m. m.namespace_id == r.namespace_id && m.user_id == r.user_id)
      db.namespace_memberships
    then none
    else some (record db { namespace_memberships = insert r db.namespace_memberships })

unfoldable pub claim_entry : Option ℕ → ℕ → Database → Database
claim_entry none user_id db = db
claim_entry (some id) user_id db = record db {
  registration_entries =
      update (λ e. e.id == id)
        (λ e. record e { status = EntryStatus.claimed; claimed_by = some user_id })
        db.registration_entries;
}

abbrev pub new_user : ℕ → Bytes → VerifiedLogin → InstanceRole → UserRow
new_user id username login role = record {
  id = id;
  username = username;
  display_name = login.display_name;
  primary_email = to_ascii_lowercase (trim login.email);
  instance_role = role;
  disabled_at = none;
}

abbrev pub new_identity : ℕ → VerifiedLogin → Identity
new_identity user_id login = record {
  user_id = user_id;
  provider = login.provider;
  provider_subject = login.subject;
  email = to_ascii_lowercase (trim login.email);
}

module _ {S : Type 0} (platform : Platform) where
  unfoldable pub existing_verified_user : VerifiedLogin → Exec S (Option User)
  existing_verified_user login =
      if not login.email_verified
      then throw denied
      else gets (identified login) >>= λ found. elim found [
        | none ↦ pure none
        | some user ↦ modify (touch_identity login) >> pure (some user)
      ]

  unfoldable pub ensure_registration_allowed : ℕ → Bytes → Exec S (Unit {0})
  ensure_registration_allowed now email = do
    mode ← gets (λ db. db.registration_mode)
    invited ← gets (λ db. exists (is_invited platform now (trim email)) db.registration_entries)
    lift (allowed mode invited)

  -- the statements of the transaction behind the decision; the UUIDs are fresh ones
  unfoldable pub create_account : ℕ → ℕ → VerifiedLogin → Bytes → Admission → Exec S User
  create_account user_id namespace_id login username (entry_id, instance_role, namespace_role) = do
    let user = new_user user_id username login instance_role
    execute_unique (insert_user platform user)
    execute (insert_identity (new_identity user_id login))
    execute_unique (
        insert_namespace platform
          (record { id = namespace_id; name = username; owner_user_id = user_id }))
    execute (
        insert_membership
          (record { namespace_id = namespace_id; user_id = user_id; role = namespace_role }))
    modify (claim_entry entry_id user_id)
    modify (
        insert_audit (some user_id) "user.registered" none (some "user")
          (some (platform.uuid_text user_id)))
    pure (user_of_row user)

  unfoldable pub registration_transaction : ℕ → ℕ → ℕ → VerifiedLogin → Bytes → Exec S User
  registration_transaction now user_id namespace_id login username = do
    mode ← gets (λ db. db.registration_mode)
    entry ← gets (λ db. find (is_invited platform now (trim login.email)) db.registration_entries)
    admitted ← lift (admission mode entry)
    create_account user_id namespace_id login username admitted

  unfoldable pub register_verified_identity : ℕ → ℕ → ℕ → VerifiedLogin → Bytes → Exec S User
  register_verified_identity now user_id namespace_id login requested_username =
      if not login.email_verified then throw denied else do
        username ← lift (normalize_username requested_username)
        transaction (registration_transaction now user_id namespace_id login username)
