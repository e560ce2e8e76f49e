-- ===== src/Text/Decimal.antt =====
-- Decimal numbers as Rust prints them, and as `str::parse` reads them.
pub mod Laws
use jcr.Prelude.{
  ℕ, zero, suc, ◌+◌, ◌-◌, ◌*◌, ◌/◌, ◌%◌, ◌^◌, ◌≤◌, ◌<◌, String, ◌≡◌, refl, sym, ap, ◌∙◌, ◌≢◌, ◌↔◌,
  ◌⊎◌, inl, inr, Bool, true, false, not, ◌&&◌, ◌||◌, Option, none, some, List, [], ◌∷◌, ◌++◌, map,
  reverse, arith, ltb, leb, ◌==◌, ==_iff, if◌then◌else◌, Bool-cases, Option-cases, &&-eq-true,
  ||-eq-false, length, all, any, is_empty, length-append, all-append, any-append, Bytes, codes,
  bytes_eq, bytes_eq_refl, eq_of_bytes_eq, bytes_eq_iff, Result, ok, err, ok_or, is_ok, to_option,
  ◌>>=◌, ◌>>◌, >>=-eq-ok, map_err, ok-injective,
}
use jcr.Text.{is_ascii_digit, split_once}

-- `negsuc n` is -(n + 1).
pub data ℤ : Type 0 where
  pos : ℕ → ℤ
  negsuc : ℕ → ℤ

abbrev pub negate : ℕ → ℤ
negate zero = pos 0
negate (suc n) = negsuc n

-- The value of digits read behind `acc`; none where a byte is no digit.
unfoldable pub digits_value : ℕ → Bytes → Option ℕ
digits_value acc [] = some acc
digits_value acc (b ∷ s) = if is_ascii_digit b then digits_value (acc * 10 + (b - b'0')) s else none

-- at least one digit, and a value below the limit
unfoldable pub parse_below : ℕ → Bytes → Option ℕ
unfolding digits_value
parse_below limit [] = none
parse_below limit (b ∷ s) = elim (digits_value 0 (b ∷ s)) [
  | none ↦ none
  | some n ↦ if ltb n limit then some n else none
]

-- `str::parse::<u64>`: a plus sign is accepted
unfoldable pub parse_u64 : Bytes → Option ℕ
unfolding parse_below
parse_u64 [] = none
parse_u64 (b ∷ s) = if b == b'+' then parse_below (2 ^ 64) s else parse_below (2 ^ 64) (b ∷ s)

abbrev as_pos : Option ℕ → Option ℤ
as_pos none = none
as_pos (some n) = some (pos n)

abbrev as_negative : Option ℕ → Option ℤ
as_negative none = none
as_negative (some n) = some (negate n)

-- `str::parse::<i64>`
unfoldable pub parse_i64 : Bytes → Option ℤ
unfolding parse_below
parse_i64 [] = none
parse_i64 (b ∷ s) =
    if b == b'-'
    then as_negative (parse_below (2 ^ 63 + 1) s)
    else if b == b'+'
    then as_pos (parse_below (2 ^ 63) s)
    else as_pos (parse_below (2 ^ 63) (b ∷ s))

-- The digits of a number in front of `rest`; the fuel is a bound on the number.
unfoldable pub digits_onto : ℕ → ℕ → Bytes → Bytes
digits_onto zero n rest = (b'0' + n % 10) ∷ rest
digits_onto (suc fuel) n rest =
    let more = digits_onto fuel (n / 10) ((b'0' + n % 10) ∷ rest) in
    if ltb n 10 then (b'0' + n % 10) ∷ rest else more

-- `Display` of an unsigned number
unfoldable pub decimal : ℕ → Bytes
unfolding digits_onto
decimal n = digits_onto n n []
