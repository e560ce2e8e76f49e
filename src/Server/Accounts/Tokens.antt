-- ===== src/Server/Accounts/Tokens.antt =====
-- crates/jcrd/src/db.rs, lines 69-75 and 391-474: personal access tokens are issued and revoked. The
-- random parts and the hash of a token are arguments.
pub mod Revoked
pub mod Laws
use jcr.Prelude.{
  ℕ, zero, suc, ◌+◌, ◌-◌, ◌*◌, ◌/◌, ◌%◌, ◌^◌, ◌≤◌, ◌<◌, String, ◌≡◌, refl, sym, ap, ◌∙◌, ◌≢◌, ◌↔◌,
  ◌⊎◌, inl, inr, Bool, true, false, not, ◌&&◌, ◌||◌, Option, none, some, List, [], ◌∷◌, ◌++◌, map,
  reverse, arith, ltb, leb, ◌==◌, ==_iff, if◌then◌else◌, Bool-cases, Option-cases, &&-eq-true,
  ||-eq-false, length, all, any, is_empty, length-append, all-append, any-append, Bytes, codes,
  bytes_eq, bytes_eq_refl, eq_of_bytes_eq, bytes_eq_iff, Result, ok, err, ok_or, is_ok, to_option,
  map_err, ok-injective, Result-cases, All, All-concat,
}
use jcr.Server.Error.{AppError, internal, not_found}
use jcr.Server.Types.{Platform}
use jcr.Server.Database.{Database}
use jcr.Server.Database.Rows.{PersonalAccessToken}
use jcr.Server.Database.Tables.{update, insert, exists}
use jcr.Server.Exec.{Exec, pure, throw, lift, gets, execute, modify, ◌>>=◌, ◌>>◌}
use jcr.Server.Access.{is_none}
use jcr.Server.Commit.{insert_audit}

pub record IssuedPat : Type 0 where
  pub id : ℕ
  pub name : Bytes
  pub token : Bytes
  pub prefix : Bytes
  pub expires_at : Option ℕ

-- `format!("jcr_pat_{prefix}_{secret}")`
unfoldable pub pat_text : Bytes → Bytes → Bytes
pat_text prefix secret = codes "jcr_pat_" ++ (prefix ++ b'_' ∷ secret)

-- refused by the primary key, the unique prefix, and the reference to the user
unfoldable pub insert_pat : PersonalAccessToken → Database → Option Database
insert_pat r db =
    if not (exists (λ u. u.id == r.user_id) db.users)
      || exists (λ t. t.id == r.id || bytes_eq t.token_prefix r.token_prefix)
          db.personal_access_tokens
    then none
    else some (record db { personal_access_tokens = insert r db.personal_access_tokens })

abbrev pub new_pat : ℕ → ℕ → Bytes → Bytes → Bytes → Option ℕ → PersonalAccessToken
new_pat id user_id name prefix secret_hash expires_at = record {
  id = id;
  user_id = user_id;
  name = name;
  token_prefix = prefix;
  secret_hash = secret_hash;
  expires_at = expires_at;
  last_used_at = none;
  revoked_at = none;
}

-- the rows that `revoke_pat` updates
unfoldable pub is_revocable : ℕ → ℕ → PersonalAccessToken → Bool
is_revocable user_id token_id t = t.id == token_id && (t.user_id == user_id && is_none t.revoked_at)

unfoldable pub revoke_token : ℕ → ℕ → ℕ → Database → Database
revoke_token now user_id token_id db = record db {
  personal_access_tokens =
      update (is_revocable user_id token_id) (λ t. record t { revoked_at = some now })
        db.personal_access_tokens;
}

module _ {S : Type 0} (platform : Platform) where
  unfoldable pub create_pat :
      (Bytes → Option Bytes) → ℕ → Bytes → Bytes → ℕ → Bytes → Option ℕ → Exec S IssuedPat
  create_pat hash_password id prefix secret user_id name expires_at = do
    let token = pat_text prefix secret
    secret_hash ← lift (ok_or (hash_password token) internal)
    execute (insert_pat (new_pat id user_id name prefix secret_hash expires_at))
    modify (
        insert_audit (some user_id) "pat.created" none (some "personal_access_token")
          (some (platform.uuid_text id)))
    pure (record { id = id; name = name; token = token; prefix = prefix; expires_at = expires_at })

  -- The rows are counted by the statement that changes them.
  unfoldable pub revoke_pat : ℕ → ℕ → ℕ → Exec S (Unit {0})
  revoke_pat now user_id token_id = do
    revoked ← gets (λ db. exists (is_revocable user_id token_id) db.personal_access_tokens)
    modify (revoke_token now user_id token_id)
    if not revoked
        then throw not_found
        else modify (
            insert_audit (some user_id) "pat.revoked" none (some "personal_access_token")
              (some (platform.uuid_text token_id)))
