-- ===== src/Server/Accounts/Tokens/Revoked.antt =====
-- db.rs, revoke_pat and validate_pat.
use jcr.Prelude.{
  ℕ, ◌≤◌, ◌≡◌, refl, ap, Bool, false, ◌&&◌, none, some, List, arith, length, any, Bytes, bytes_eq,
  bytes_eq_refl, ok,
}
use jcr.Server.Types.{Platform}
use jcr.Server.Database.{Database}
use jcr.Server.Database.Rows.{PersonalAccessToken}
use jcr.Server.Database.Tables.{find, select, update, any_of_find, holds_of_find}
use jcr.Server.Database.Tables.Only.{any-update_only}
use jcr.Server.Exec.{World, gets, modify, ◌>>=◌}
use jcr.Server.Auth.{Credentials, user_row, is_active_named, pat_prefix, is_candidate, validate_pat}
use jcr.Server.Commit.{insert_audit}
use jcr.Server.Accounts.Tokens.{is_revocable, revoke_token, revoke_pat}
use jcr.Server.Accounts.Tokens.Laws.{validate_pat_of_none}

revoked-none :
    (platform : Platform) (now later user_id token_id : ℕ) (username : Bytes) (db : Database)
    (ts : List PersonalAccessToken) (t : PersonalAccessToken)
    → find (is_revocable user_id token_id) ts ≡ some t
    → length (select (λ x. bytes_eq x.token_prefix t.token_prefix) ts) ≤ 1
    → any
        (is_candidate platform later t.token_prefix username db)
        (update (is_revocable user_id token_id) (λ x. record x { revoked_at = some now }) ts)
      ≡ false
unfolding is_candidate
revoked-none platform now later user_id token_id username db ts t f u =
    any-update_only (λ x. bytes_eq x.token_prefix t.token_prefix)
      (is_candidate platform later t.token_prefix username db) (is_revocable user_id token_id)
      (λ x. record x { revoked_at = some now })
      (λ x.
        spent (bytes_eq x.token_prefix t.token_prefix)
          (is_active_named platform username (user_row x.user_id db)))
      (λ x h. rw h refl) (is_revocable user_id token_id) ts t (bytes_eq_refl t.token_prefix)
      (holds_of_find _ ts t f) f u
  where
    spent : (a b : Bool) → a && (b && false) ≡ false
    spent a b = ground arith

-- A user's token that is not revoked yet can be revoked, and then authenticates nobody: no text with
-- its prefix is accepted under any name at any time, given that the schema's index keeps prefixes apart.
pub validate_pat-revoke_pat :
    {S : Type 0} (platform : Platform) (credentials : Credentials) (now later user_id token_id : ℕ)
    (username token : Bytes) (w : World S) (t : PersonalAccessToken)
    → find (is_revocable user_id token_id) w.db.personal_access_tokens ≡ some t
    → length (select (λ x. bytes_eq x.token_prefix t.token_prefix) w.db.personal_access_tokens) ≤ 1
    → pat_prefix token ≡ some t.token_prefix
    → ((revoke_pat platform now user_id token_id w).0 ≡ ok tt)
      × ((validate_pat platform credentials later username token
            (revoke_pat platform now user_id token_id w).1).0
          ≡ ok none)
unfolding revoke_pat revoke_token gets ◌>>=◌ modify insert_audit
validate_pat-revoke_pat {S} platform credentials now later user_id token_id username token w t f u
      p =
    rw (any_of_find _ w.db.personal_access_tokens t f) (
      refl,
      ap (λ r. r.0)
          (validate_pat_of_none platform credentials later username token t.token_prefix _ p (
            revoked-none platform now later user_id token_id username _ w.db.personal_access_tokens
              t f u)),
    )
