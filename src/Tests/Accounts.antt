-- ===== src/Tests/Accounts.antt =====
-- Accounts on the small registry.
use jcr.Prelude.{
  ◌+◌, ◌*◌, ◌≤◌, ◌<◌, ◌≡◌, ◌≢◌, ◌↔◌, refl, true, false, none, some, Option, [], ◌∷◌, Bool, Bytes,
  bytes_eq, bytes_eq_refl, codes, length, arith, ltb, if◌then◌else◌, Result, ok, err,
}
use mathlib.Core.Path.{subst}
use jcr.Text.{strip_prefix, split_once}
use jcr.Manifest.{trim}
use jcr.Server.Error.{AppError, denied}
use jcr.Server.Types.{User}
use jcr.Server.Database.{Database}
use jcr.Server.Database.Rows.{
  RegistrationEntry, EntryStatus, InstanceRole, NamespaceRole, PersonalAccessToken, allowlist,
  open_mode,
}
use jcr.Server.Database.Tables.{find, select}
use jcr.Server.Exec.{World}
use jcr.Server.Auth.{user_row, user_by_id, validate_pat, pat_prefix}
use jcr.Server.Accounts.Username.{to_ascii_lowercase, normalize_username, username_format}
use jcr.Server.Accounts.Username.Laws.{normalize_username_iff}
use jcr.Server.Accounts.Registration.{
  VerifiedLogin, existing_verified_user, ensure_registration_allowed, register_verified_identity,
}
use jcr.Server.Accounts.Registration.Laws.{
  IsAccount, register-IsAccount, existing_verified_user-register,
}
use jcr.Server.Accounts.Registration.Invitations.{
  is_pending_for, ensure_registration_allowed-register,
}
use jcr.Server.Accounts.Tokens.{IssuedPat, is_revocable, create_pat, revoke_pat}
use jcr.Server.Accounts.Tokens.Laws.{validate_pat-create_pat}
use jcr.Server.Accounts.Tokens.Revoked.{validate_pat-revoke_pat}
use jcr.Server.Accounts.Browser.{
  BrowserSession, create_browser_session, browser_session_user, delete_browser_session,
}
use jcr.Server.Accounts.Browser.Laws.{browser_session_user-create, browser_session_user-delete}
use jcr.Tests.Data.{Memory, platform, ada, ada_user, db, world}
use jcr.Tests.Access.{credentials}

normalize_username_iff_example : (normalize_username (codes " Grace ") ≡ ok (codes "grace")) ↔ (
    (codes "grace" ≡ to_ascii_lowercase (trim (codes " Grace ")))
    × (0 < length (codes "grace"))
    × (length (codes "grace") ≤ 64)
    × (username_format false (codes "grace") ≡ true))
normalize_username_iff_example = normalize_username_iff (codes " Grace ") (codes "grace")

abbrev grace : VerifiedLogin
grace = record {
  provider = codes "github";
  subject = codes "7";
  email = codes "grace@example.org";
  email_verified = true;
  display_name = none;
}

abbrev invitation : RegistrationEntry
invitation = record {
  id = 11;
  email = codes "grace@example.org";
  instance_role = InstanceRole.user;
  namespace_role = NamespaceRole.admin;
  status = EntryStatus.pending;
  claimed_by = none;
  expires_at = some 100;
}

abbrev inviting : World Memory
inviting = record {
  db = record db { registration_mode = allowlist; registration_entries = invitation ∷ [] };
  store = [];
}

abbrev grace_user : User
grace_user = record {
  id = 5;
  username = codes "grace";
  display_name = none;
  primary_email = codes "grace@example.org";
  instance_role = InstanceRole.user;
}

abbrev registration : Result AppError User × World Memory
registration = register_verified_identity platform 50 5 6 grace (codes " Grace ") inviting

registered :
    register_verified_identity platform 50 5 6 grace (codes " Grace ") inviting
    ≡ (ok grace_user, registration.1)
unfolding register_verified_identity jcr.Server.Exec.◌>>=◌ jcr.Server.Exec.lift normalize_username
    trim jcr.Manifest.trim_front jcr.Server.Accounts.Username.scan_username
    jcr.Server.Exec.transaction jcr.Server.Accounts.Registration.registration_transaction
    jcr.Server.Exec.gets jcr.Server.Accounts.Registration.admission find
    jcr.Server.Accounts.Registration.is_invited bytes_eq
    jcr.Server.Accounts.Registration.create_account jcr.Server.Accounts.Registration.execute_unique
    jcr.Server.Accounts.Registration.insert_user username_format
    jcr.Server.Accounts.Registration.claim_entry jcr.Server.Accounts.Registration.insert_identity
    jcr.Server.Accounts.Registration.insert_membership
    jcr.Server.Accounts.Registration.insert_namespace jcr.Server.Accounts.Username.check_username
    to_ascii_lowercase jcr.Server.Commit.insert_audit jcr.Server.Database.Tables.update
    jcr.Server.Exec.execute jcr.Server.Exec.modify jcr.Server.Exec.pure jcr.Server.Exec.throw
registered = refl

register-IsAccount_example :
    (username : Bytes) × IsAccount platform 5 6 grace username 50
      (codes " Grace ")
      inviting.db
      grace_user
      registration.1.db
register-IsAccount_example =
    register-IsAccount platform 50 5 6 grace (codes " Grace ") inviting registration.1 grace_user
      registered

existing_verified_user-register_example :
    (existing_verified_user platform grace registration.1).0 ≡ ok (some grace_user)
existing_verified_user-register_example =
    existing_verified_user-register platform 50 5 6 grace (codes " Grace ") inviting registration.1
      grace_user registered

not_open : allowlist ≢ open_mode
not_open h = cc

one_pending :
    length (select (is_pending_for platform (trim (codes "grace@example.org"))) (invitation ∷ []))
    ≤ 1
unfolding select trim jcr.Manifest.trim_front bytes_eq
one_pending = omega arith

ensure_registration_allowed-register_example :
    (ensure_registration_allowed platform 60 grace.email registration.1).0 ≡ err denied
ensure_registration_allowed-register_example =
    ensure_registration_allowed-register platform 50 60 5 6 grace (codes " Grace ") inviting
      registration.1 grace_user not_open one_pending registered

abbrev hash : Bytes → Option Bytes
hash token = some token

abbrev issue : Result AppError IssuedPat × World Memory
issue = create_pat platform hash 21 (codes "ab12") (codes "s") 1 (codes "laptop") none world

abbrev laptop : IssuedPat
laptop = record {
  id = 21;
  name = codes "laptop";
  token = codes "jcr_pat_ab12_s";
  prefix = codes "ab12";
  expires_at = none;
}

issued :
    create_pat platform hash 21 (codes "ab12") (codes "s") 1 (codes "laptop") none world
    ≡ (ok laptop, issue.1)
unfolding create_pat jcr.Server.Accounts.Tokens.pat_text jcr.Server.Accounts.Tokens.insert_pat
    jcr.Server.Commit.insert_audit jcr.Server.Exec.◌>>=◌ jcr.Server.Exec.lift
    jcr.Server.Exec.execute jcr.Server.Exec.modify jcr.Server.Exec.pure
issued = refl

hash_verifies :
    (token hashed : Bytes)
    → hash token ≡ some hashed
    → credentials.verify_password hashed token ≡ true
hash_verifies token hashed h = subst (λ o. verifies o ≡ true) h (bytes_eq_refl token)
  where
    verifies : Option Bytes → Bool
    verifies none = false
    verifies (some t) = bytes_eq t token

ada_row : user_row 1 world.db ≡ some ada
unfolding find
ada_row = refl

validate_pat-create_pat_example :
    (validate_pat platform credentials 60 (codes "ada") laptop.token issue.1).0 ≡ ok (some ada_user)
validate_pat-create_pat_example =
    validate_pat-create_pat platform credentials hash 60 21 ada (codes "laptop") (codes "ab12")
      (codes "s") none world issue.1 laptop hash_verifies refl refl refl ada_row refl refl issued

abbrev pat : PersonalAccessToken
pat = record {
  id = 21;
  user_id = 1;
  name = codes "laptop";
  token_prefix = codes "ab12";
  secret_hash = codes "s";
  expires_at = none;
  last_used_at = none;
  revoked_at = none;
}

abbrev with_pat : World Memory
with_pat = record { db = record db { personal_access_tokens = pat ∷ [] }; store = [] }

revocable : find (is_revocable 1 21) with_pat.db.personal_access_tokens ≡ some pat
unfolding find is_revocable
revocable = refl

one_prefix :
    length (select (λ x. bytes_eq x.token_prefix (codes "ab12")) with_pat.db.personal_access_tokens)
    ≤ 1
unfolding select bytes_eq
one_prefix = omega arith

prefix_of_token : pat_prefix (codes "jcr_pat_ab12_s") ≡ some (codes "ab12")
unfolding pat_prefix strip_prefix split_once
prefix_of_token = refl

validate_pat-revoke_pat_example :
    ((revoke_pat platform 50 1 21 with_pat).0 ≡ ok tt)
    × ((validate_pat platform credentials 60
          (codes "ada")
          (codes "jcr_pat_ab12_s")
          (revoke_pat platform 50 1 21 with_pat).1).0
        ≡ ok none)
validate_pat-revoke_pat_example =
    validate_pat-revoke_pat platform credentials 50 60 1 21 (codes "ada") (codes "jcr_pat_ab12_s")
      with_pat pat revocable one_prefix prefix_of_token

abbrev opening : Result AppError (Bytes × BrowserSession) × World Memory
opening = create_browser_session platform 50 9 (codes "raw") (codes "csrf") 1 world

abbrev browser : Bytes × BrowserSession
browser = (
  codes "raw",
  record { id = 9; user_id = 1; csrf_token = codes "csrf"; expires_at = 50 + 7 * 86400 },
)

opened :
    create_browser_session platform 50 9 (codes "raw") (codes "csrf") 1 world
    ≡ (ok browser, opening.1)
unfolding create_browser_session jcr.Server.Accounts.Browser.insert_browser_session
    jcr.Server.Accounts.Browser.token_hash jcr.Server.Exec.◌>>=◌ jcr.Server.Exec.execute
    jcr.Server.Exec.pure
opened = refl

ada_known : user_by_id 1 world.db ≡ some ada_user
unfolding user_by_id find
ada_known = refl

browser_session_user-create_example :
    (browser_session_user platform 60 browser.0 opening.1).0
    ≡ ok (if ltb 60 (50 + 7 * 86400) then some (browser.1, ada_user) else none)
browser_session_user-create_example =
    browser_session_user-create platform 50 60 9 (codes "raw") (codes "csrf") 1 ada_user world
      opening.1 browser ada_known opened

browser_session_user-delete_example :
    (browser_session_user platform 60
      (codes "raw")
      (delete_browser_session platform (codes "raw") opening.1).1).0
    ≡ ok none
browser_session_user-delete_example =
    browser_session_user-delete platform 60 (codes "raw") opening.1
