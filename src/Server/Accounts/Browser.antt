-- ===== src/Server/Accounts/Browser.antt =====
-- crates/jcrd/src/db.rs, lines 78-83, 562-654 and 912-914: sessions of browsers. The random tokens are arguments.
pub mod Laws
use jcr.Prelude.{
  ℕ, zero, suc, ◌+◌, ◌-◌, ◌*◌, ◌/◌, ◌%◌, ◌^◌, ◌≤◌, ◌<◌, String, ◌≡◌, refl, sym, ap, ◌∙◌, ◌≢◌, ◌↔◌,
  ◌⊎◌, inl, inr, Bool, true, false, not, ◌&&◌, ◌||◌, Option, none, some, List, [], ◌∷◌, ◌++◌, map,
  reverse, arith, ltb, leb, ◌==◌, ==_iff, if◌then◌else◌, Bool-cases, Option-cases, &&-eq-true,
  ||-eq-false, length, all, any, is_empty, length-append, all-append, any-append, Bytes, codes,
  bytes_eq, bytes_eq_refl, eq_of_bytes_eq, bytes_eq_iff, Result, ok, err, ok_or, is_ok, to_option,
  map_err, ok-injective, Result-cases, All, All-concat,
}
use jcr.Server.Error.{AppError}
use jcr.Server.Types.{User, Platform}
use jcr.Server.Database.{Database}
use jcr.Server.Database.Rows.{BrowserSessionRow, UserRow}
use jcr.Server.Database.Tables.{find, delete, insert, exists}
use jcr.Server.Exec.{Exec, pure, gets, execute, modify, ◌>>=◌, ◌>>◌}
use jcr.Server.Auth.{user_by_id}

pub record BrowserSession : Type 0 where
  pub id : ℕ
  pub user_id : ℕ
  pub csrf_token : Bytes
  pub expires_at : ℕ

-- refused by the primary key, the unique hash, and the reference to the user
unfoldable pub insert_browser_session : BrowserSessionRow → Database → Option Database
insert_browser_session r db =
    if not (exists (λ u. u.id == r.user_id) db.users)
      || exists (λ s. s.id == r.id || bytes_eq s.token_hash r.token_hash) db.browser_sessions
    then none
    else some (record db { browser_sessions = insert r db.browser_sessions })

abbrev pub is_active : ℕ → Database → Bool
is_active id db = elim (user_by_id id db) [ none ↦ false | some u ↦ true ]

-- the condition of the join in `browser_session_user`
unfoldable pub is_live_session : ℕ → Bytes → Database → BrowserSessionRow → Bool
is_live_session now hash db s =
    bytes_eq s.token_hash hash && (ltb now s.expires_at && is_active s.user_id db)

abbrev session_of_row : BrowserSessionRow → BrowserSession
session_of_row s = record {
  id = s.id;
  user_id = s.user_id;
  csrf_token = s.csrf_token;
  expires_at = s.expires_at;
}

abbrev pub with_user : BrowserSessionRow → Option User → Option (BrowserSession × User)
with_user s none = none
with_user s (some u) = some (session_of_row s, u)

abbrev pub joined_session : Database → Option BrowserSessionRow → Option (BrowserSession × User)
joined_session db none = none
joined_session db (some s) = with_user s (user_by_id s.user_id db)

-- `token_hash`
unfoldable pub token_hash : Platform → Bytes → Bytes
token_hash platform token = platform.hex_sha256 token

-- seven days
abbrev pub new_browser_session : Platform → ℕ → ℕ → Bytes → Bytes → ℕ → BrowserSessionRow
new_browser_session platform now id raw_token csrf_token user_id = record {
  id = id;
  user_id = user_id;
  token_hash = token_hash platform raw_token;
  csrf_token = csrf_token;
  expires_at = now + 7 * 86400;
}

unfoldable pub remove_session : Bytes → Database → Database
remove_session hash db = record db {
  browser_sessions = delete (λ s. bytes_eq s.token_hash hash) db.browser_sessions;
}

module _ {S : Type 0} (platform : Platform) where
  unfoldable pub create_browser_session :
      ℕ → ℕ → Bytes → Bytes → ℕ → Exec S (Bytes × BrowserSession)
  create_browser_session now id raw_token csrf_token user_id = do
    execute
        (insert_browser_session (new_browser_session platform now id raw_token csrf_token user_id))
    pure (
      raw_token,
      session_of_row (new_browser_session platform now id raw_token csrf_token user_id),
    )

  -- The time a session was last seen is not read by any code, and not kept.
  unfoldable pub browser_session_user : ℕ → Bytes → Exec S (Option (BrowserSession × User))
  browser_session_user now raw_token = gets (λ db.
      joined_session db
        (find (is_live_session now (token_hash platform raw_token) db) db.browser_sessions))

  unfoldable pub delete_browser_session : Bytes → Exec S (Unit {0})
  delete_browser_session raw_token = modify (remove_session (token_hash platform raw_token))
