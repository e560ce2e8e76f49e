-- ===== src/Server/Auth.antt =====
-- crates/jcrd/src/auth.rs, lines 24-58 and 159-212, and db.rs, lines 476-560 and 850-859: who
-- makes a request.
use jcr.Prelude.{
  ℕ, Bool, true, false, not, ◌&&◌, ◌||◌, Option, none, some, List, [], ◌∷◌, ltb, ◌==◌,
  if◌then◌else◌, any, is_empty, Bytes, codes, bytes_eq, ok_or,
}
use jcr.Text.{split_once, strip_prefix}
use jcr.Scope.{AccessAction, RepositoryScope, new_scope, permits}
use jcr.Server.Error.{unauthorized}
use jcr.Server.Types.{User, HeaderValue, Platform, to_str}
use jcr.Server.Database.{Database}
use jcr.Server.Database.Rows.{UserRow, PersonalAccessToken}
use jcr.Server.Database.Tables.{find, update}
use jcr.Server.Exec.{Exec, pure, throw, lift, gets, modify, ◌>>=◌, ◌>>◌}
use jcr.Server.Access.{is_none}

pub record Principal : Type 0 where
  pub user : Option User
  pub scopes : List RepositoryScope
  pub bearer : Bool

-- `Principal::permits`
unfoldable pub principal_permits : Principal → Bytes → AccessAction → Bool
principal_permits p repository action = any (λ scope. permits scope repository action) p.scopes

pub record TokenAccess : Type 0 where
  pub resource_type : Bytes
  pub name : Bytes
  pub actions : List AccessAction

pub record TokenClaims : Type 0 where
  pub iss : Bytes
  pub sub : Bytes
  pub aud : Bytes
  pub exp : ℕ
  pub nbf : ℕ
  pub iat : ℕ
  pub jti : Bytes
  pub user_id : Option ℕ
  pub access : List TokenAccess

-- Code of other packages: base64, UTF-8, password hashes, and signed tokens. `decode` is given the
-- time, and refuses a token that is not for `jcr`, expired, not yet valid or not signed.
pub record Credentials : Type 0 where
  pub decode_base64 : Bytes → Option Bytes
  pub from_utf8 : Bytes → Option Bytes
  pub verify_password : Bytes → Bytes → Bool
  pub encode : TokenClaims → Option Bytes
  pub decode : ℕ → Bytes → Option TokenClaims

abbrev pub token_lifetime_minutes : ℕ
token_lifetime_minutes = 10

abbrev pub user_of_row : UserRow → User
user_of_row u = record {
  id = u.id;
  username = u.username;
  display_name = u.display_name;
  primary_email = u.primary_email;
  instance_role = u.instance_role;
}

-- `user_by_id`: a disabled user is not found
unfoldable pub user_by_id : ℕ → Database → Option User
user_by_id id db = elim (find (λ u. u.id == id && is_none u.disabled_at) db.users) [
  | none ↦ none
  | some u ↦ some (user_of_row u)
]

-- `pat_prefix`
unfoldable pub pat_prefix : Bytes → Option Bytes
pat_prefix token = elim (strip_prefix (codes "jcr_pat_") token) [
  | none ↦ none
  | some remainder ↦ elim (split_once b'_' remainder) [
    | none ↦ none
    | some (prefix, secret) ↦ if is_empty prefix || is_empty secret then none else some prefix
  ]
]

-- `expires_at IS NULL OR expires_at > NOW()`
abbrev pub is_current : ℕ → Option ℕ → Bool
is_current now none = true
is_current now (some t) = ltb now t

abbrev pub user_row : ℕ → Database → Option UserRow
user_row id db = find (λ u. u.id == id) db.users

abbrev pub is_active_named : Platform → Bytes → Option UserRow → Bool
is_active_named platform username none = false
is_active_named platform username (some u) =
    bytes_eq (platform.lower u.username) (platform.lower username) && is_none u.disabled_at

-- the condition of the join in `validate_pat`
unfoldable pub is_candidate : Platform → ℕ → Bytes → Bytes → Database → PersonalAccessToken → Bool
is_candidate platform now prefix username db t =
    bytes_eq t.token_prefix prefix
    && (is_active_named platform username (user_row t.user_id db)
        && (is_none t.revoked_at && is_current now t.expires_at))

unfoldable pub touch_token : ℕ → ℕ → Database → Database
touch_token id now db = record db {
  personal_access_tokens =
      update (λ t. t.id == id) (λ t. record t { last_used_at = some now })
        db.personal_access_tokens;
}

abbrev pub as_user : Option UserRow → Option User
as_user none = none
as_user (some u) = some (user_of_row u)

module _ (credentials : Credentials) where
  -- `decode_basic`
  unfoldable pub decode_basic : Bytes → Option (Bytes × Bytes)
  decode_basic value = elim (strip_prefix (codes "Basic ") value) [
    | none ↦ none
    | some encoded ↦ elim (credentials.decode_base64 encoded) [
      | none ↦ none
      | some decoded ↦ elim (credentials.from_utf8 decoded) [
        | none ↦ none
        | some text ↦ split_once b':' text
      ]
    ]
  ]

  abbrev pub basic_credentials : HeaderValue → Option (Bytes × Bytes)
  basic_credentials v = elim (to_str v) [ none ↦ none | some value ↦ decode_basic value ]

abbrev is_repository_access : TokenAccess → Bool
is_repository_access a = bytes_eq a.resource_type (codes "repository")

-- the scopes of the claims
unfoldable pub scopes_of : List TokenAccess → List RepositoryScope
scopes_of [] = []
scopes_of (a ∷ rest) =
    let others = scopes_of rest in
    if is_repository_access a then new_scope a.name a.actions ∷ others else others

abbrev user_of_claims : Option ℕ → Database → Option User
user_of_claims none db = none
user_of_claims (some id) db = user_by_id id db

module _ {S : Type 0} (platform : Platform) (credentials : Credentials) where
  -- the rest of `validate_pat`, behind the query
  unfoldable pub check_candidate : ℕ → Bytes → Option PersonalAccessToken → Exec S (Option User)
  check_candidate now token none = pure none
  check_candidate now token (some t) =
      if not (credentials.verify_password t.secret_hash token)
      then pure none
      else do modify (touch_token t.id now); gets (λ db. as_user (user_row t.user_id db))

  unfoldable pub validate_pat : ℕ → Bytes → Bytes → Exec S (Option User)
  unfolding check_candidate
  validate_pat now username token = elim (pat_prefix token) [
    | none ↦ pure none
    | some prefix ↦ do
      candidate ←
          gets (λ db. find (is_candidate platform now prefix username db) db.personal_access_tokens)
      check_candidate now token candidate
  ]

  -- the branch of a bearer token
  unfoldable pub authenticate_bearer : ℕ → Bytes → Exec S (Option Principal)
  authenticate_bearer now token = do
    claims ← lift (ok_or (credentials.decode now token) unauthorized)
    user ← gets (user_of_claims claims.user_id)
    pure (some (record { user = user; scopes = scopes_of claims.access; bearer = true }))

  -- the branch of a user name and a token
  unfoldable pub authenticate_basic : ℕ → Bytes → Exec S (Option Principal)
  authenticate_basic now value = elim (decode_basic credentials value) [
    | none ↦ throw unauthorized
    | some (username, token) ↦ do
      found ← validate_pat now username token
      user ← lift (ok_or found unauthorized)
      pure (some (record { user = some user; scopes = []; bearer = false }))
  ]

  unfoldable pub authenticate : ℕ → HeaderValue → Exec S (Option Principal)
  authenticate now none = pure none
  authenticate now (some none) = throw unauthorized
  authenticate now (some (some value)) = elim (strip_prefix (codes "Bearer ") value) [
    | some token ↦ authenticate_bearer now token
    | none ↦ authenticate_basic now value
  ]
