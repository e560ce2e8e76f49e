-- ===== src/Client/Ranges.antt =====
-- crates/jcr/src/registry.rs, lines 339-349 and 629-642: the ranges that the client writes and reads.
pub mod Laws
pub mod Agreement
use jcr.Prelude.{
  ℕ, ◌+◌, ◌-◌, ◌%◌, ◌^◌, none, some, Option, ◌∷◌, ◌++◌, Bytes, Result, ok, err, ok_or, ◌>>=◌, Bool,
  ◌||◌, ◌&&◌, leb, ltb, ◌==◌,
}
use jcr.Text.{split_once}
use jcr.Text.Decimal.{parse_u64, decimal}
use jcr.Manifest.{trim}
use jcr.Client.Exec.{ClientError, invalid_range}

-- The sum wraps at 64 bits, as in a release build.
unfoldable pub parse_range_offset : Bytes → Result ClientError ℕ
parse_range_offset value = do
  (_, end) ← ok_or (split_once b'-' (trim value)) invalid_range
  last ← ok_or (parse_u64 end) invalid_range
  ok ((last + 1) % 2 ^ 64)

-- addition on `u64`, which wraps
unfoldable pub add_u64 : ℕ → ℕ → ℕ
add_u64 a b = (a + b) % 2 ^ 64

-- `offset + len - 1`, on `u64`
unfoldable pub last_byte : ℕ → ℕ → ℕ
last_byte offset len = (offset + len + (2 ^ 64 - 1)) % 2 ^ 64

-- `format!("{offset}-{end}")`
unfoldable pub content_range : ℕ → ℕ → Bytes
content_range offset end = decimal offset ++ b'-' ∷ decimal end

-- `transient`
abbrev pub transient : ℕ → Bool
transient status = status == 429 || (leb 500 status && ltb status 600)

-- `StatusCode::is_success`
abbrev pub is_success : ℕ → Bool
is_success status = leb 200 status && ltb status 300
