-- ===== src/Server/Accounts/Registration/Invitations.antt =====
-- db.rs, register_verified_identity and ensure_registration_allowed on one invitation.
use jcr.Prelude.{
  err-ok, ℕ, ◌≤◌, ◌≡◌, refl, ◌≢◌, Bool, true, false, not, ◌&&◌, Option, none, some, List, [], ◌∷◌,
  arith, ◌==◌, ||-eq-false, length, any, Bytes, bytes_eq, ok, err, ok-injective,
}
use mathlib.Core.Path.{subst}
use jcr.Manifest.{trim}
use jcr.Server.Error.{denied}
use jcr.Server.Types.{User, Platform}
use jcr.Server.Database.Rows.{
  RegistrationMode, RegistrationEntry, EntryStatus, closed, allowlist, invite, open_mode,
}
use jcr.Server.Database.Tables.{find, update, select, holds_of_find}
use jcr.Server.Database.Tables.Only.{any-update_only}
use jcr.Server.Exec.{World, gets, lift, ◌>>=◌}
use jcr.Server.Exec.Returns.{
  Returns, Returns-bind, Returns-gets, Returns-lift, Returns-throw, Returns-if, Returns-transaction,
}
use jcr.Server.Commit.{insert_audit}
use jcr.Server.Accounts.Registration.Rows.{create_account-Returns}
use jcr.Server.Accounts.Registration
use jcr.Server.Accounts.Registration.{
  VerifiedLogin, is_invited, is_pending, admission, allowed, claim_entry, create_account,
  registration_transaction, register_verified_identity, ensure_registration_allowed,
}

-- a pending entry of the address, expired or not
abbrev pub is_pending_for : Platform → Bytes → RegistrationEntry → Bool
is_pending_for platform email e =
    bytes_eq (platform.lower e.email) (platform.lower email) && is_pending e.status

module _ (platform : Platform) (email : Bytes) where
  pending_of_invited :
      (now : ℕ) (e : RegistrationEntry)
      → is_invited platform now email e ≡ true
      → is_pending_for platform email e ≡ true
  unfolding is_invited
  pending_of_invited now e h = ground arith

  -- The index on pending addresses makes the claimed entry the only one.
  claim-none_pending :
      (now user_id : ℕ) (es : List RegistrationEntry) (e : RegistrationEntry)
      → find (is_invited platform now email) es ≡ some e
      → length (select (is_pending_for platform email) es) ≤ 1
      → any (is_pending_for platform email) (
          update
            (λ x. x.id == e.id)
            (λ x. record x { status = EntryStatus.claimed; claimed_by = some user_id })
            es)
        ≡ false
  claim-none_pending now user_id es e f u =
      any-update_only (is_pending_for platform email) (is_pending_for platform email)
        (λ x. x.id == e.id) _
        (λ x. spent (bytes_eq (platform.lower x.email) (platform.lower email))) (λ x h. h)
        (is_invited platform now email) es e (pending_of_invited now e (holds_of_find _ es e f))
        (ground arith) f u
    where
      spent : (a : Bool) → a && false ≡ false
      spent a = ground arith

admission_entry :
    (mode : RegistrationMode) (entry : Option RegistrationEntry) (admitted : Registration.Admission)
    → mode ≢ open_mode
    → admission mode entry ≡ ok admitted
    → (e : RegistrationEntry) × (entry ≡ some e)
      × ((some e.id, e.instance_role, e.namespace_role) ≡ admitted)
unfolding admission
admission_entry closed entry admitted m h = absurd (err-ok h)
admission_entry allowlist none admitted m h = absurd (err-ok h)
admission_entry invite none admitted m h = absurd (err-ok h)
admission_entry open_mode none admitted m h = absurd (m refl)
admission_entry allowlist (some e) admitted m h = (e, refl, ok-injective h)
admission_entry invite (some e) admitted m h = (e, refl, ok-injective h)
admission_entry open_mode (some e) admitted m h = absurd (m refl)

module _ {S : Type 0} (platform : Platform) (now user_id namespace_id : ℕ) (login : VerifiedLogin)
    (requested_username : Bytes) where
  -- what is left of the invitations
  abbrev IsUsed : RegistrationMode → World S → Type 0
  IsUsed mode w =
      (w.db.registration_mode ≡ mode)
      × (any (is_pending_for platform (trim login.email)) w.db.registration_entries ≡ false)

  create_account-IsUsed :
      (username : Bytes) (e : RegistrationEntry) (w : World S)
      → find (is_invited platform now (trim login.email)) w.db.registration_entries ≡ some e
      → length (select (is_pending_for platform (trim login.email)) w.db.registration_entries) ≤ 1
      → Returns
          (create_account platform user_id namespace_id login username
            (some e.id, e.instance_role, e.namespace_role))
          w
          (λ user w'. IsUsed w.db.registration_mode w')
  unfolding claim_entry insert_audit
  create_account-IsUsed username e w f u =
      create_account-Returns platform user_id namespace_id login username (some e.id)
        e.instance_role e.namespace_role w _
        (λ fresh. (
          refl,
          claim-none_pending platform (trim login.email) now user_id w.db.registration_entries e f
              u,
        ))

  register-IsUsed :
      (w : World S)
      → w.db.registration_mode ≢ open_mode
      → length (select (is_pending_for platform (trim login.email)) w.db.registration_entries) ≤ 1
      → Returns
          (register_verified_identity platform now user_id namespace_id login requested_username)
          w
          (λ user w'. IsUsed w.db.registration_mode w')
  unfolding register_verified_identity registration_transaction
  register-IsUsed w m u =
      Returns-if (not login.email_verified) _ _ _ _ (λ _. Returns-throw _ _ _)
        (λ verified. Returns-bind _ _ _ _ (
          Returns-lift _ _ _ (λ username named. Returns-transaction _ _ _ (
            Returns-bind _ _ _ _ (
              Returns-gets _ _ _ (
                Returns-bind _ _ _ _ (
                  Returns-gets _ _ _ (
                    Returns-bind _ _ _ _ (
                      Returns-lift _ _ _ (λ admitted h.
                        let (e, f, same) = admission_entry w.db.registration_mode _ admitted m h in
                        subst
                          (λ a.
                            Returns (create_account platform user_id namespace_id login username a)
                              w (λ user w'. IsUsed w.db.registration_mode w'))
                          same (create_account-IsUsed username e w f u)))))))))))

module _ (platform : Platform) (login : VerifiedLogin) where
  none_invited :
      (later : ℕ) (es : List RegistrationEntry)
      → any (is_pending_for platform (trim login.email)) es ≡ false
      → any (is_invited platform later (trim login.email)) es ≡ false
  unfolding is_invited
  none_invited later [] h = refl
  none_invited later (e ∷ es) h =
      let (here, rest) =
        ||-eq-false (is_pending_for platform (trim login.email) e)
          (any (is_pending_for platform (trim login.email)) es) h in
      ground (arith, none_invited later es rest)

allowed_none : (mode : RegistrationMode) → mode ≢ open_mode → allowed mode false ≡ err denied
unfolding allowed
allowed_none closed m = refl
allowed_none allowlist m = refl
allowed_none invite m = refl
allowed_none open_mode m = absurd (m refl)

-- Unless registration is open, an invitation admits one registration: after it the address is not
-- allowed to register at any time, given that the schema's index keeps at most one pending entry of an address.
pub ensure_registration_allowed-register :
    {S : Type 0} (platform : Platform) (now later user_id namespace_id : ℕ) (login : VerifiedLogin)
    (requested_username : Bytes) (w w' : World S) (user : User)
    → w.db.registration_mode ≢ open_mode
    → length (select (is_pending_for platform (trim login.email)) w.db.registration_entries) ≤ 1
    → register_verified_identity platform now user_id namespace_id login requested_username w
      ≡ (ok user, w')
    → (ensure_registration_allowed platform later login.email w').0 ≡ err denied
unfolding ensure_registration_allowed gets ◌>>=◌ lift
ensure_registration_allowed-register platform now later user_id namespace_id login
      requested_username w w' user m u h =
    let (mode, used) =
      (register-IsUsed platform now user_id namespace_id login requested_username w m u).at user w'
        h in
    rw (mode, none_invited platform login later w'.db.registration_entries used)
      (allowed_none w.db.registration_mode m)
