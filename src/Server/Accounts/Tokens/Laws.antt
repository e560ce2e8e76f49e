-- ===== src/Server/Accounts/Tokens/Laws.antt =====
-- db.rs, create_pat and validate_pat.
use jcr.Prelude.{
  none-some, err-ok, ℕ, ◌≡◌, refl, sym, ap, ◌∙◌, inl, inr, true, false, not, ◌||◌, Option, none,
  some, List, ◌∷◌, ◌++◌, ◌==◌, Bool-cases, ||-eq-false, any, is_empty, Bytes, codes, bytes_eq,
  bytes_eq_refl, ok, ok_or, ok-injective,
}
use mathlib.Core.Path.{subst}
use jcr.Text.{contains}
use jcr.Text.Splitting.{strip_prefix-append, split_once-append}
use jcr.Server.Error.{internal}
use jcr.Server.Types.{Platform}
use jcr.Server.Database.{Database}
use jcr.Server.Database.Rows.{PersonalAccessToken, UserRow}
use jcr.Server.Database.Tables.{find, insert, exists, find-none}
use jcr.Server.Database.Tables.Upsert.{find-insert}
use jcr.Server.Database.Tables.Only.{any_mono}
use jcr.Server.Exec.{World, pure, gets, modify, ◌>>=◌}
use jcr.Server.Exec.Returns.{
  Returns, Returns-bind, Returns-lift, Returns-modify, Returns-pure, Returns-execute,
}
use jcr.Server.Auth.{
  Credentials, user_of_row, user_row, is_current, pat_prefix, is_candidate, touch_token,
  check_candidate, validate_pat,
}
use jcr.Server.Commit.{insert_audit}
use jcr.Server.Accounts.Tokens.{IssuedPat, pat_text, insert_pat, new_pat, create_pat}

pat_prefix-pat_text :
    (prefix secret : Bytes)
    → contains b'_' prefix ≡ false
    → is_empty prefix ≡ false
    → is_empty secret ≡ false
    → pat_prefix (pat_text prefix secret) ≡ some prefix
unfolding pat_prefix pat_text
pat_prefix-pat_text prefix secret plain p s =
    rw
      (
        strip_prefix-append (codes "jcr_pat_") (prefix ++ b'_' ∷ secret),
        split_once-append b'_' prefix secret plain,
        p,
        s,
        pat_prefix,
      )
      refl

some_inj : {A : Type 0} {a b : A} → ◌≡◌ {A = Option A} (some a) (some b) → a ≡ b
some_inj h = cc

insert_pat_sound :
    (r : PersonalAccessToken) (db db' : Database)
    → insert_pat r db ≡ some db'
    → (exists
          (λ t. t.id == r.id || bytes_eq t.token_prefix r.token_prefix)
          db.personal_access_tokens
        ≡ false)
      × (record db { personal_access_tokens = insert r db.personal_access_tokens } ≡ db')
unfolding insert_pat
insert_pat_sound r db db' h =
    elim (Bool-cases (
      not (exists (λ u. u.id == r.user_id) db.users)
      || exists (λ t. t.id == r.id || bytes_eq t.token_prefix r.token_prefix)
          db.personal_access_tokens)) [
            | inl err-ok ↦ absurd (none-some (rw (err-ok, insert_pat) at h))
            | inr free ↦ ((||-eq-false _ _ free).1, some_inj (rw (free, insert_pat) at h))
          ]

-- what the issue of a token leaves
record IsIssued (hash_password : Bytes → Option Bytes) (id user_id : ℕ) (name prefix secret : Bytes)
    (expires_at : Option ℕ) (before : Database) (issued : IssuedPat) (after : Database)
    : Type 0 where
  secret_hash : Bytes
  hashed : hash_password (pat_text prefix secret) ≡ some secret_hash
  text : issued.token ≡ pat_text prefix secret
  fresh :
      exists (λ t. t.id == id || bytes_eq t.token_prefix prefix) before.personal_access_tokens
      ≡ false
  tokens :
      after.personal_access_tokens
      ≡ insert (new_pat id user_id name prefix secret_hash expires_at) before.personal_access_tokens
  users : after.users ≡ before.users

create_pat-Returns :
    {S : Type 0} (platform : Platform) (hash_password : Bytes → Option Bytes) (id user_id : ℕ)
    (name prefix secret : Bytes) (expires_at : Option ℕ) (w : World S)
    → Returns
        (create_pat platform hash_password id prefix secret user_id name expires_at)
        w
        (λ issued w'.
          IsIssued hash_password id user_id name prefix secret expires_at w.db issued w'.db)
unfolding create_pat insert_audit
create_pat-Returns platform hash_password id user_id name prefix secret expires_at w =
    Returns-bind _ _ _ _ (
      Returns-lift _ _ _ (λ secret_hash h. Returns-bind _ _ _ _ (
        Returns-execute _ _ _ (λ db e.
          let (fresh, same) =
            insert_pat_sound (new_pat id user_id name prefix secret_hash expires_at) w.db db e in
          Returns-bind _ _ _ _ (
            Returns-modify _ _ _ (
              Returns-pure _ _ _ (record {
                secret_hash = secret_hash;
                hashed = some_of (hash_password (pat_text prefix secret)) secret_hash h;
                text = refl;
                fresh = fresh;
                tokens = ap (λ d. d.personal_access_tokens) (sym same);
                users = ap (λ d. d.users) (sym same);
              })))))))
  where
    some_of : (o : Option Bytes) (s : Bytes) → ok_or o internal ≡ ok s → o ≡ some s
    some_of none s h = absurd (err-ok h)
    some_of (some a) s h = ap some (ok-injective h)

module _ {S : Type 0} (platform : Platform) (credentials : Credentials) where
  check_candidate-known :
      (now : ℕ) (token : Bytes) (t : PersonalAccessToken) (u : UserRow) (w : World S)
      → credentials.verify_password t.secret_hash token ≡ true
      → user_row t.user_id w.db ≡ some u
      → (check_candidate {S = S} platform credentials now token (some t) w).0
        ≡ ok (some (user_of_row u))
  unfolding check_candidate ◌>>=◌ modify gets touch_token
  check_candidate-known now token t u w v k = rw (v, k) refl

  validate_pat_of_candidate :
      (now : ℕ) (username token prefix : Bytes) (t : PersonalAccessToken) (u : UserRow)
      (w : World S)
      → pat_prefix token ≡ some prefix
      → find (is_candidate platform now prefix username w.db) w.db.personal_access_tokens ≡ some t
      → credentials.verify_password t.secret_hash token ≡ true
      → user_row t.user_id w.db ≡ some u
      → (validate_pat {S = S} platform credentials now username token w).0
        ≡ ok (some (user_of_row u))
  unfolding validate_pat gets ◌>>=◌
  validate_pat_of_candidate now username token prefix t u w p f v k =
      rw (p, f, validate_pat) (check_candidate-known now token t u w v k)

  pub validate_pat_of_none :
      (now : ℕ) (username token prefix : Bytes) (w : World S)
      → pat_prefix token ≡ some prefix
      → any (is_candidate platform now prefix username w.db) w.db.personal_access_tokens ≡ false
      → validate_pat {S = S} platform credentials now username token w ≡ (ok none, w)
  unfolding validate_pat gets ◌>>=◌ pure
  validate_pat_of_none now username token prefix w p f =
      rw (p, find-none _ w.db.personal_access_tokens f, validate_pat) refl

module _ (platform : Platform) where
  candidate-issued :
      (later : ℕ) (id : ℕ) (u : UserRow) (name prefix secret_hash : Bytes) (expires_at : Option ℕ)
      (db : Database) (ts : List PersonalAccessToken)
      → user_row u.id db ≡ some u
      → u.disabled_at ≡ none
      → is_current later expires_at ≡ true
      → exists (λ t. t.id == id || bytes_eq t.token_prefix prefix) ts ≡ false
      → find
          (is_candidate platform later prefix u.username db)
          (insert (new_pat id u.id name prefix secret_hash expires_at) ts)
        ≡ some (new_pat id u.id name prefix secret_hash expires_at)
  unfolding is_candidate
  candidate-issued later id u name prefix secret_hash expires_at db ts k a c fresh =
      find-insert _ (new_pat id u.id name prefix secret_hash expires_at) ts here (
        any_mono _ (λ t. t.id == id || bytes_eq t.token_prefix prefix) ts
          (λ t h. other t (||-eq-false (t.id == id) (bytes_eq t.token_prefix prefix) h).1) fresh)
    where
      here :
          is_candidate platform later prefix u.username db
            (new_pat id u.id name prefix secret_hash expires_at)
          ≡ true
      here = rw (bytes_eq_refl prefix, k, a, c, bytes_eq_refl (platform.lower u.username)) refl

      other :
          (t : PersonalAccessToken)
          → bytes_eq t.token_prefix prefix ≡ false
          → is_candidate platform later prefix u.username db t ≡ false
      other t h = rw h refl

-- A token that was issued authenticates its user from then on, until it expires, given that the random
-- prefix holds no underscore, as hexadecimal digits do, that neither part is empty, that a password
-- hash verifies what it was made from, and that the user is not disabled.
pub validate_pat-create_pat :
    {S : Type 0} (platform : Platform) (credentials : Credentials)
    (hash_password : Bytes → Option Bytes) (later id : ℕ) (u : UserRow) (name prefix secret : Bytes)
    (expires_at : Option ℕ) (w w' : World S) (issued : IssuedPat)
    → ((token hash : Bytes)
        → hash_password token ≡ some hash
        → credentials.verify_password hash token ≡ true)
    → contains b'_' prefix ≡ false
    → is_empty prefix ≡ false
    → is_empty secret ≡ false
    → user_row u.id w.db ≡ some u
    → u.disabled_at ≡ none
    → is_current later expires_at ≡ true
    → create_pat platform hash_password id prefix secret u.id name expires_at w ≡ (ok issued, w')
    → (validate_pat platform credentials later u.username issued.token w').0
      ≡ ok (some (user_of_row u))
validate_pat-create_pat platform credentials hash_password later id u name prefix secret expires_at
      w w' issued verifies plain p s known active current h =
    let made =
      (create_pat-Returns platform hash_password id u.id name prefix secret expires_at w).at issued
        w' h in
    let known' : user_row u.id w'.db ≡ some u =
      ap (λ us. find (λ r. r.id == u.id) us) made.users ∙ known in
    let found =
      candidate-issued platform later id u name prefix made.secret_hash expires_at w'.db
        w.db.personal_access_tokens known' active current made.fresh in
    validate_pat_of_candidate platform credentials later u.username issued.token prefix
      (new_pat id u.id name prefix made.secret_hash expires_at) u w'
      (ap pat_prefix made.text ∙ pat_prefix-pat_text prefix secret plain p s)
      (subst
        (λ ts.
          find (is_candidate platform later prefix u.username w'.db) ts
          ≡ some (new_pat id u.id name prefix made.secret_hash expires_at))
        (sym made.tokens) found)
      (verifies issued.token made.secret_hash (ap hash_password made.text ∙ made.hashed)) known'
