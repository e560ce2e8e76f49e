-- ===== src/Server/Accounts/Registration/Laws.antt =====
-- db.rs, register_verified_identity and the account that it makes.
use jcr.Prelude.{
  err-ok, ℕ, ◌≡◌, refl, ◌∙◌, ◌≢◌, true, false, not, ◌&&◌, Option, none, some, arith, ◌==◌, any,
  Bytes, bytes_eq_refl, ok, ok-injective,
}
use mathlib.Core.Path.{subst}
use jcr.Manifest.{trim}
use jcr.Server.Types.{User, Platform}
use jcr.Server.Database.{Database}
use jcr.Server.Database.Rows.{
  NamespaceRole, InstanceRole, RegistrationMode, RegistrationEntry, closed, allowlist, invite,
  open_mode,
}
use jcr.Server.Database.Tables.{find, holds_of_find}
use jcr.Server.Database.Tables.Only.{any_mono}
use jcr.Server.Database.Tables.Upsert.{find-insert}
use jcr.Server.Exec.{World, pure, gets, modify, ◌>>=◌}
use jcr.Server.Exec.Returns.{
  Returns, Returns-mono, Returns-bind, Returns-gets, Returns-lift, Returns-throw, Returns-if,
  Returns-transaction,
}
use jcr.Server.Access.{is_none, role_in}
use jcr.Server.Auth.{user_of_row, user_by_id}
use jcr.Server.Commit.{insert_audit}
use jcr.Server.Accounts.Username.{normalize_username}
use jcr.Server.Accounts.Registration.Rows.{account_rows, IsFresh, settled, create_account-Returns}
use jcr.Server.Accounts.Registration
use jcr.Server.Accounts.Registration.{
  VerifiedLogin, is_identity, user_of_identity, identified, touch_identity, is_invited, is_pending,
  Admission, admission, execute_unique, same_user, insert_user, same_namespace, insert_namespace,
  insert_identity, insert_membership, claim_entry, new_user, new_identity, existing_verified_user,
  create_account, registration_transaction, register_verified_identity,
}

-- Why a login may have an account with these roles.
pub data Reason (platform : Platform) (now : ℕ) (email : Bytes) (db : Database)
    : InstanceRole → NamespaceRole → Type 0 where
  everyone :
      db.registration_mode ≡ open_mode
      → Reason platform now email db InstanceRole.user NamespaceRole.admin
  invited :
      (e : RegistrationEntry)
      → db.registration_mode ≢ closed
      → is_invited platform now email e ≡ true
      → find (is_invited platform now email) db.registration_entries ≡ some e
      → Reason platform now email db e.instance_role e.namespace_role

abbrev Admits : Platform → ℕ → Bytes → Database → Admission → Type 0
Admits platform now email db (entry, instance_role, namespace_role) =
    Reason platform now email db instance_role namespace_role

module _ (platform : Platform) (user_id namespace_id : ℕ) (login : VerifiedLogin)
    (username : Bytes) where
  user_by_id-account :
      (role : InstanceRole) (namespace_role : NamespaceRole) (db : Database)
      → IsFresh platform user_id namespace_id login username role db
      → user_by_id user_id
          (account_rows platform user_id namespace_id login username role namespace_role db)
        ≡ some (user_of_row (new_user user_id username login role))
  unfolding user_by_id
  user_by_id-account role namespace_role db fresh =
      rw
        (
          find-insert (λ u. u.id == user_id && is_none u.disabled_at)
              (new_user user_id username login role) db.users (ground arith) absent,
          user_by_id,
        )
        refl
    where
      absent : any (λ u. u.id == user_id && is_none u.disabled_at) db.users ≡ false
      absent = any_mono _ _ db.users (λ u free. ground arith) fresh.no_user

  identified-account :
      (role : InstanceRole) (namespace_role : NamespaceRole) (db : Database)
      → IsFresh platform user_id namespace_id login username role db
      → identified login
          (account_rows platform user_id namespace_id login username role namespace_role db)
        ≡ some (user_of_row (new_user user_id username login role))
  unfolding identified
  identified-account role namespace_role db fresh =
      rw
        (find-insert
          (λ i.
            is_identity login i
            && Registration.is_some_user (
                user_by_id i.user_id (
                  account_rows platform user_id namespace_id login username role namespace_role
                    db)))
          (new_identity user_id login) db.verified_identities here absent)
        (user_by_id-account role namespace_role db fresh)
    where
      here :
          is_identity login (new_identity user_id login)
            && Registration.is_some_user (
                user_by_id user_id (
                  account_rows platform user_id namespace_id login username role namespace_role db))
          ≡ true
      here =
          rw
            (
              bytes_eq_refl login.provider,
              bytes_eq_refl login.subject,
              user_by_id-account role namespace_role db fresh,
            )
            refl

      absent :
          any
            (λ i.
              is_identity login i
              && Registration.is_some_user (
                  user_by_id i.user_id (
                    account_rows platform user_id namespace_id login username role namespace_role
                      db)))
            db.verified_identities
          ≡ false
      absent =
          any_mono _ (is_identity login) db.verified_identities (λ i free. rw free refl)
            fresh.no_identity

  role_in-account :
      (role : InstanceRole) (namespace_role : NamespaceRole) (db : Database)
      → IsFresh platform user_id namespace_id login username role db
      → role_in namespace_id user_id
          (account_rows platform user_id namespace_id login username role namespace_role db)
        ≡ some namespace_role
  unfolding role_in
  role_in-account role namespace_role db fresh =
      rw
        (
          find-insert (λ m. m.namespace_id == namespace_id && m.user_id == user_id)
              (record { namespace_id = namespace_id; user_id = user_id; role = namespace_role })
              db.namespace_memberships (ground arith) fresh.no_membership,
          role_in,
        )
        refl

  identified-settled :
      (entry : Option ℕ) (db : Database)
      → identified login (settled platform user_id namespace_id login username entry db)
        ≡ identified login db
  unfolding identified claim_entry insert_audit user_by_id
  identified-settled none db = refl
  identified-settled (some id) db = refl

  role_in-settled :
      (entry : Option ℕ) (db : Database)
      → role_in namespace_id user_id (settled platform user_id namespace_id login username entry db)
        ≡ role_in namespace_id user_id db
  unfolding role_in claim_entry insert_audit
  role_in-settled none db = refl
  role_in-settled (some id) db = refl

  -- What a registration has found and left behind.
  pub record IsAccount (now : ℕ) (requested_username : Bytes) (before : Database) (user : User)
      (after : Database) : Type 0 where
    pub namespace_role : NamespaceRole
    pub verified : login.email_verified ≡ true
    pub named : normalize_username requested_username ≡ ok username
    pub username_of : user.username ≡ username
    pub reason : Reason platform now (trim login.email) before user.instance_role namespace_role
    pub known : identified login after ≡ some user
    pub member : role_in namespace_id user.id after ≡ some namespace_role

admission_sound :
    (platform : Platform) (now : ℕ) (email : Bytes) (db : Database) (mode : RegistrationMode)
    (entry : Option RegistrationEntry) (admitted : Admission)
    → db.registration_mode ≡ mode
    → find (is_invited platform now email) db.registration_entries ≡ entry
    → admission mode entry ≡ ok admitted
    → Admits platform now email db admitted
unfolding admission
admission_sound platform now email db closed entry admitted m f h = absurd (err-ok h)
admission_sound platform now email db allowlist none admitted m f h = absurd (err-ok h)
admission_sound platform now email db invite none admitted m f h = absurd (err-ok h)
admission_sound platform now email db open_mode none admitted m f h =
    subst (Admits platform now email db) (ok-injective h) (everyone m)
admission_sound platform now email db allowlist (some e) admitted m f h =
    subst (Admits platform now email db) (ok-injective h)
      (invited e (λ c. cc) (holds_of_find _ _ e f) f)
admission_sound platform now email db invite (some e) admitted m f h =
    subst (Admits platform now email db) (ok-injective h)
      (invited e (λ c. cc) (holds_of_find _ _ e f) f)
admission_sound platform now email db open_mode (some e) admitted m f h =
    subst (Admits platform now email db) (ok-injective h)
      (invited e (λ c. cc) (holds_of_find _ _ e f) f)

module _ {S : Type 0} (platform : Platform) (now user_id namespace_id : ℕ) (login : VerifiedLogin)
    (requested_username : Bytes) where
  create_account-IsAccount :
      (username : Bytes) (admitted : Admission) (w : World S)
      → login.email_verified ≡ true
      → normalize_username requested_username ≡ ok username
      → Admits platform now (trim login.email) w.db admitted
      → Returns (create_account platform user_id namespace_id login username admitted) w (λ user w'.
        IsAccount platform user_id namespace_id login username now requested_username w.db user
          w'.db)
  create_account-IsAccount username (entry, instance_role, namespace_role) w verified named reason =
      create_account-Returns platform user_id namespace_id login username entry instance_role
        namespace_role w _
        (λ fresh. record {
          namespace_role = namespace_role;
          verified = verified;
          named = named;
          username_of = refl;
          reason = reason;
          known =
              identified-settled platform user_id namespace_id login username entry _
              ∙ identified-account platform user_id namespace_id login username instance_role
                  namespace_role w.db fresh;
          member =
              role_in-settled platform user_id namespace_id login username entry _
              ∙ role_in-account platform user_id namespace_id login username instance_role
                  namespace_role w.db fresh;
        })

  register-Returns :
      (w : World S)
      → Returns
          (register_verified_identity platform now user_id namespace_id login requested_username)
          w
          (λ user w'.
            (username : Bytes) × IsAccount platform user_id namespace_id login username now
              requested_username w.db user w'.db)
  unfolding register_verified_identity registration_transaction
  register-Returns w =
      Returns-if (not login.email_verified) _ _ _ _ (λ _. Returns-throw _ _ _)
        (λ verified. Returns-bind _ _ _ _ (
          Returns-lift _ _ _ (λ username named. Returns-transaction _ _ _ (
            Returns-bind _ _ _ _ (
              Returns-gets _ _ _ (
                Returns-bind _ _ _ _ (
                  Returns-gets _ _ _ (
                    Returns-bind _ _ _ _ (
                      Returns-lift _ _ _ (λ admitted e.
                        Returns-mono _ _ _ _
                          (create_account-IsAccount username admitted w (ground arith) named (
                            admission_sound platform now (trim login.email) w.db _ _ admitted refl
                              refl e))
                          (λ user w' account. (username, account))))))))))))

-- A registration that returns a user had a verified login, and a reason for the roles it gives: in open
-- mode everyone becomes a user with a namespace to administer, and otherwise, unless registration is
-- closed, a pending entry of the address that has not expired names both roles. The user has the
-- normalized name, the login is known from then on, and the user is a member of the new namespace; the row of the
-- namespace itself is not part of the statement.
pub register-IsAccount :
    {S : Type 0} (platform : Platform) (now user_id namespace_id : ℕ) (login : VerifiedLogin)
    (requested_username : Bytes) (w w' : World S) (user : User)
    → register_verified_identity platform now user_id namespace_id login requested_username w
      ≡ (ok user, w')
    → (username : Bytes) × IsAccount platform user_id namespace_id login username now
        requested_username w.db user w'.db
register-IsAccount platform now user_id namespace_id login requested_username w w' user h =
    (register-Returns platform now user_id namespace_id login requested_username w).at user w' h

-- A user who has registered is logged in by the same identity: the next login finds that user.
pub existing_verified_user-register :
    {S : Type 0} (platform : Platform) (now user_id namespace_id : ℕ) (login : VerifiedLogin)
    (requested_username : Bytes) (w w' : World S) (user : User)
    → register_verified_identity platform now user_id namespace_id login requested_username w
      ≡ (ok user, w')
    → (existing_verified_user platform login w').0 ≡ ok (some user)
unfolding existing_verified_user gets ◌>>=◌ modify pure
existing_verified_user-register platform now user_id namespace_id login requested_username w w' user
      h =
    let (username, account) =
      register-IsAccount platform now user_id namespace_id login requested_username w w' user h in
    simp (account.verified, account.known)
