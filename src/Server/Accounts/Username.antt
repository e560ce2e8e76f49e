-- ===== src/Server/Accounts/Username.antt =====
-- crates/jcrd/src/db.rs, lines 349-378: the names that users may choose.
pub mod Laws
use jcr.Prelude.{
  ℕ, zero, suc, ◌+◌, ◌-◌, ◌*◌, ◌/◌, ◌%◌, ◌^◌, ◌≤◌, ◌<◌, String, ◌≡◌, refl, sym, ap, ◌∙◌, ◌≢◌, ◌↔◌,
  ◌⊎◌, inl, inr, Bool, true, false, not, ◌&&◌, ◌||◌, Option, none, some, List, [], ◌∷◌, ◌++◌, map,
  reverse, arith, ltb, leb, ◌==◌, ==_iff, if◌then◌else◌, Bool-cases, Option-cases, &&-eq-true,
  ||-eq-false, length, all, any, is_empty, length-append, all-append, any-append, Bytes, codes,
  bytes_eq, bytes_eq_refl, eq_of_bytes_eq, bytes_eq_iff, Result, ok, err, ok_or, is_ok, to_option,
  map_err, ok-injective, Result-cases, All, All-concat,
}
use jcr.Text.{is_ascii_lowercase, is_ascii_digit, is_ascii_uppercase}
use jcr.Manifest.{trim}
use jcr.Server.Error.{AppError, bad_request}

-- `u8::to_ascii_lowercase`
abbrev pub lowercase_byte : ℕ → ℕ
lowercase_byte b = if is_ascii_uppercase b then b + 32 else b

-- `str::to_ascii_lowercase`
unfoldable pub to_ascii_lowercase : Bytes → Bytes
to_ascii_lowercase s = map lowercase_byte s

abbrev pub is_alphanumeric : ℕ → Bool
is_alphanumeric b = is_ascii_lowercase b || is_ascii_digit b

abbrev pub is_separator : ℕ → Bool
is_separator b = b == b'.' || (b == b'_' || b == b'-')

-- The loop of `normalize_username`: the last value of `previous_was_separator`, or none where a byte
-- is refused.
unfoldable pub scan_username : ℕ → Bool → Bytes → Option Bool
scan_username index previous_was_separator [] = some previous_was_separator
scan_username index previous_was_separator (byte ∷ rest) =
    let plain = scan_username (suc index) false rest in
    let separated = scan_username (suc index) true rest in
    if is_alphanumeric byte
    then plain
    else if is_separator byte && (ltb 0 index && not previous_was_separator)
    then separated
    else none

abbrev ended : Bytes → Option Bool → Result AppError Bytes
ended username none = err bad_request
ended username (some true) = err bad_request
ended username (some false) = ok username

unfoldable pub check_username : Bytes → Result AppError Bytes
check_username username =
    if is_empty username || ltb 64 (length username)
    then err bad_request
    else ended username (scan_username 0 false username)

unfoldable pub normalize_username : Bytes → Result AppError Bytes
unfolding check_username to_ascii_lowercase
normalize_username value = check_username (to_ascii_lowercase (trim value))

-- `users_username_format` and `namespaces_name_format` of the migration; the flag tells whether the
-- byte before was a letter or a digit.
unfoldable pub username_format : Bool → Bytes → Bool
username_format after_alphanumeric [] = after_alphanumeric
username_format after_alphanumeric (b ∷ s) =
    let plain = username_format true s in
    let separated = username_format false s in
    if is_alphanumeric b
    then plain
    else if after_alphanumeric && is_separator b
    then separated
    else false
