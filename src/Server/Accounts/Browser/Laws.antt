-- ===== src/Server/Accounts/Browser/Laws.antt =====
-- db.rs, create_browser_session, browser_session_user and delete_browser_session.
use jcr.Prelude.{
  none-some, ℕ, ◌+◌, ◌*◌, ◌≡◌, refl, sym, ap, ◌∙◌, inl, inr, Bool, true, false, not, ◌||◌, Option,
  none, some, List, [], ◌∷◌, ltb, ◌==◌, if◌then◌else◌, Bool-cases, ||-eq-false, any, any-append,
  Bytes, bytes_eq, bytes_eq_refl, ok,
}
use jcr.Server.Types.{User, Platform}
use jcr.Server.Database.{Database}
use jcr.Server.Database.Rows.{BrowserSessionRow}
use jcr.Server.Database.Tables.{find, delete, insert, exists, find-none}
use jcr.Server.Database.Tables.Upsert.{find-insert}
use jcr.Server.Database.Tables.Only.{any_mono}
use jcr.Server.Exec.{World, gets, modify}
use jcr.Server.Exec.Returns.{Returns, Returns-bind, Returns-pure, Returns-execute}
use jcr.Server.Auth.{user_by_id}
use jcr.Server.Accounts.Browser.{
  BrowserSession, insert_browser_session, is_active, is_live_session, joined_session,
  new_browser_session, token_hash, remove_session, create_browser_session, browser_session_user,
  delete_browser_session,
}

some_inj : {A : Type 0} {a b : A} → ◌≡◌ {A = Option A} (some a) (some b) → a ≡ b
some_inj h = cc

insert_session_sound :
    (r : BrowserSessionRow) (db db' : Database)
    → insert_browser_session r db ≡ some db'
    → (exists (λ s. s.id == r.id || bytes_eq s.token_hash r.token_hash) db.browser_sessions ≡ false)
      × (record db { browser_sessions = insert r db.browser_sessions } ≡ db')
unfolding insert_browser_session
insert_session_sound r db db' h =
    elim (Bool-cases (
      not (exists (λ u. u.id == r.user_id) db.users)
      || exists (λ s. s.id == r.id || bytes_eq s.token_hash r.token_hash) db.browser_sessions)) [
        | inl refused ↦ absurd (none-some (rw (refused, insert_browser_session) at h))
        | inr free ↦ ((||-eq-false _ _ free).1, some_inj (rw (free, insert_browser_session) at h))
      ]

record IsOpened (platform : Platform) (now id : ℕ) (raw_token csrf_token : Bytes) (user_id : ℕ)
    (before : Database) (opened : Bytes × BrowserSession) (after : Database) : Type 0 where
  text : opened.0 ≡ raw_token
  session :
      opened.1
      ≡ record { id = id; user_id = user_id; csrf_token = csrf_token; expires_at = now + 7 * 86400 }
  fresh :
      exists
        (λ s. s.id == id || bytes_eq s.token_hash (token_hash platform raw_token))
        before.browser_sessions
      ≡ false
  rows :
      record before {
        browser_sessions =
            insert
              (new_browser_session platform now id raw_token csrf_token user_id)
              before.browser_sessions;
      }
      ≡ after

create-Returns :
    {S : Type 0} (platform : Platform) (now id : ℕ) (raw_token csrf_token : Bytes) (user_id : ℕ)
    (w : World S)
    → Returns
        (create_browser_session platform now id raw_token csrf_token user_id)
        w
        (λ opened w'. IsOpened platform now id raw_token csrf_token user_id w.db opened w'.db)
unfolding create_browser_session
create-Returns platform now id raw_token csrf_token user_id w = Returns-bind _ _ _ _ (
    Returns-execute _ _ _ (λ db e.
      let (fresh, same) =
        insert_session_sound (new_browser_session platform now id raw_token csrf_token user_id) w.db
          db e in
      Returns-pure _ _ _ (record { text = refl; session = refl; fresh = fresh; rows = same })))

abbrev lasting : ℕ → ℕ → (BrowserSession × User) → Option (BrowserSession × User)
lasting now later opened = if ltb later (now + 7 * 86400) then some opened else none

module _ (platform : Platform) (now later id : ℕ) (raw_token csrf_token : Bytes) (user_id : ℕ)
    (u : User) (before : Database) where
  abbrev opened_db : Database
  opened_db = record before {
    browser_sessions =
        insert (new_browser_session platform now id raw_token csrf_token user_id)
          before.browser_sessions;
  }

  abbrev live : BrowserSessionRow → Bool
  live = is_live_session later (token_hash platform raw_token) opened_db

  user_by_id-opened : user_by_id user_id opened_db ≡ user_by_id user_id before
  unfolding user_by_id
  user_by_id-opened = refl

  active : user_by_id user_id opened_db ≡ some u → is_active user_id opened_db ≡ true
  active k = rw (k, is_active) refl

  joined-opened :
      exists
          (λ s. s.id == id || bytes_eq s.token_hash (token_hash platform raw_token))
          before.browser_sessions
        ≡ false
      → user_by_id user_id before ≡ some u
      → joined_session opened_db (find live opened_db.browser_sessions)
        ≡ lasting now later (
          record {
            id = id;
            user_id = user_id;
            csrf_token = csrf_token;
            expires_at = now + 7 * 86400;
          },
          u,
        )
  unfolding is_live_session
  joined-opened fresh known = elim (Bool-cases (ltb later (now + 7 * 86400))) [
    | inl valid ↦
        rw
          (
            find-insert live (new_browser_session platform now id raw_token csrf_token user_id)
                before.browser_sessions (hit valid) others,
            known',
            valid,
          )
          refl
    | inr expired ↦
        rw
          (
            find-none live opened_db.browser_sessions (
                rw
                  (
                    any-append live before.browser_sessions
                        (new_browser_session platform now id raw_token csrf_token user_id ∷ []),
                    others,
                    missed expired,
                  )
                  refl),
            expired,
          )
          refl
  ]
    where
      known' : user_by_id user_id opened_db ≡ some u
      known' = user_by_id-opened ∙ known

      hit :
          ltb later (now + 7 * 86400) ≡ true
          → live (new_browser_session platform now id raw_token csrf_token user_id) ≡ true
      hit valid = rw (bytes_eq_refl (token_hash platform raw_token), valid, active known') refl

      missed :
          ltb later (now + 7 * 86400) ≡ false
          → live (new_browser_session platform now id raw_token csrf_token user_id) ≡ false
      missed expired = rw (bytes_eq_refl (token_hash platform raw_token), expired) refl

      other :
          (s : BrowserSessionRow)
          → bytes_eq s.token_hash (token_hash platform raw_token) ≡ false
          → live s ≡ false
      other s h = rw h refl

      others : any live before.browser_sessions ≡ false
      others =
          any_mono live (λ s. s.id == id || bytes_eq s.token_hash (token_hash platform raw_token))
            before.browser_sessions
            (λ s h.
              other s
                (||-eq-false (s.id == id) (bytes_eq s.token_hash (token_hash platform raw_token))
                  h).1)
            fresh

delete-none :
    (hash : Bytes) (rows : List BrowserSessionRow)
    → any (λ s. bytes_eq s.token_hash hash) (delete (λ s. bytes_eq s.token_hash hash) rows) ≡ false
unfolding delete
delete-none hash [] = refl
delete-none hash (s ∷ rows) = elim (Bool-cases (bytes_eq s.token_hash hash)) [
  | inl same ↦ rw (same, delete) (delete-none hash rows)
  | inr other ↦ rw (other, delete) (rw (other, delete-none hash rows) refl)
]

-- A browser session finds its user from its start to its end after seven days, exactly, given that the
-- user exists and is not disabled.
pub browser_session_user-create :
    {S : Type 0} (platform : Platform) (now later id : ℕ) (raw_token csrf_token : Bytes)
    (user_id : ℕ) (u : User) (w w' : World S) (opened : Bytes × BrowserSession)
    → user_by_id user_id w.db ≡ some u
    → create_browser_session platform now id raw_token csrf_token user_id w ≡ (ok opened, w')
    → (browser_session_user platform later opened.0 w').0
      ≡ ok (if ltb later (now + 7 * 86400) then some (opened.1, u) else none)
unfolding browser_session_user gets
browser_session_user-create platform now later id raw_token csrf_token user_id u w w' opened known
      h =
    let made = (create-Returns platform now id raw_token csrf_token user_id w).at opened w' h in
    ap
      (λ t. ok (
        joined_session w'.db
          (find (is_live_session later (token_hash platform t) w'.db) w'.db.browser_sessions)))
      made.text
    ∙ (ap
          (λ d. ok (
            joined_session d
              (find (is_live_session later (token_hash platform raw_token) d) d.browser_sessions)))
          (sym made.rows)
        ∙ (ap ok (
              joined-opened platform now later id raw_token csrf_token user_id u w.db made.fresh
                known)
            ∙ ap (λ s. ok (lasting now later (s, u))) (sym made.session)))

-- After its deletion a session's token finds nobody.
pub browser_session_user-delete :
    {S : Type 0} (platform : Platform) (later : ℕ) (raw_token : Bytes) (w : World S)
    → (browser_session_user platform later raw_token
        (delete_browser_session platform raw_token w).1).0
      ≡ ok none
unfolding browser_session_user delete_browser_session remove_session gets modify is_live_session
browser_session_user-delete platform later raw_token w =
    rw
      (find-none
        (is_live_session later (token_hash platform raw_token)
          (remove_session (token_hash platform raw_token) w.db))
        (delete (λ s. bytes_eq s.token_hash (token_hash platform raw_token)) w.db.browser_sessions)
        (any_mono _ (λ s. bytes_eq s.token_hash (token_hash platform raw_token)) _
          (λ s h. rw h refl) (delete-none (token_hash platform raw_token) w.db.browser_sessions)))
      refl
