-- ===== src/Text/Decimal/Laws.antt =====
-- A number is read back from its decimal text.
use jcr.Prelude.{
  ℕ, zero, suc, ◌+◌, ◌-◌, ◌*◌, ◌/◌, ◌%◌, ◌^◌, ◌≤◌, ◌<◌, ◌≡◌, ap, ◌∙◌, inl, inr, true, false, some,
  [], ◌∷◌, arith, ltb, ◌==◌, Bool-cases, Bytes,
}
use jcr.Text.{is_ascii_digit, contains}
use jcr.Text.Decimal.{pos, digits_value, parse_below, parse_u64, parse_i64, digits_onto, decimal}

-- the digit that `digits_onto` writes
digit_value :
    (n acc : ℕ) (s : Bytes)
    → digits_value acc ((b'0' + n % 10) ∷ s) ≡ digits_value (acc * 10 + n % 10) s
unfolding digits_value
digit_value n acc s =
    let digit : is_ascii_digit (b'0' + n % 10) ≡ true = ground arith in
    let value : acc * 10 + (b'0' + n % 10 - b'0') ≡ acc * 10 + n % 10 = omega arith in
    rw digit (ap (λ k. digits_value k s) value)

first_digit :
    (n : ℕ) (rest : Bytes) → n < 10 → digits_value 0 ((b'0' + n % 10) ∷ rest) ≡ digits_value n rest
first_digit n rest h = digit_value n 0 rest ∙ ap (λ k. digits_value k rest) (omega arith)

digits_value-onto :
    (fuel n : ℕ) (rest : Bytes)
    → n ≤ fuel
    → digits_value 0 (digits_onto fuel n rest) ≡ digits_value n rest
unfolding digits_onto
digits_value-onto zero n rest h = first_digit n rest (omega arith)
digits_value-onto (suc fuel) n rest h = elim (Bool-cases (ltb n 10)) [
  | inl small ↦ rw small (first_digit n rest (ground arith))
  | inr big ↦ rw big (
      digits_value-onto fuel (n / 10) ((b'0' + n % 10) ∷ rest) (ground arith)
      ∙ (digit_value n (n / 10) rest ∙ ap (λ k. digits_value k rest) (omega arith)))
]

pub digits_value-decimal : (n : ℕ) → digits_value 0 (decimal n) ≡ some n
unfolding decimal digits_value
digits_value-decimal n = digits_value-onto n n [] (omega arith)

-- Every text that `digits_onto` makes begins with a digit.
abbrev pub StartsWithDigit : Bytes → Type 0
StartsWithDigit [] = ⊥
StartsWithDigit (b ∷ s) = is_ascii_digit b ≡ true

digits_onto-StartsWithDigit :
    (fuel n : ℕ) (rest : Bytes) → StartsWithDigit (digits_onto fuel n rest)
unfolding digits_onto
digits_onto-StartsWithDigit zero n rest = ground arith
digits_onto-StartsWithDigit (suc fuel) n rest = elim (Bool-cases (ltb n 10)) [
  | inl small ↦ rw small (ground arith)
  | inr big ↦ rw big (digits_onto-StartsWithDigit fuel (n / 10) ((b'0' + n % 10) ∷ rest))
]

pub decimal-StartsWithDigit : (n : ℕ) → StartsWithDigit (decimal n)
unfolding decimal
decimal-StartsWithDigit n = digits_onto-StartsWithDigit n n []

-- a text that begins with a digit has no sign
parse_below_of_digits :
    (s : Bytes) (n limit : ℕ)
    → StartsWithDigit s
    → digits_value 0 s ≡ some n
    → n < limit
    → parse_below limit s ≡ some n
unfolding parse_below
parse_below_of_digits [] n limit d e h = absurd d
parse_below_of_digits (b ∷ s) n limit d e h =
    let below : ltb n limit ≡ true = ground arith in rw (e, parse_below, below)

parse_u64_of_digits : (s : Bytes) → StartsWithDigit s → parse_u64 s ≡ parse_below (2 ^ 64) s
unfolding parse_u64
parse_u64_of_digits [] d = absurd d
parse_u64_of_digits (b ∷ s) d = let unsigned : b == b'+' ≡ false = ground arith in rw unsigned

parse_i64_of_digits :
    (s : Bytes) (n : ℕ)
    → StartsWithDigit s
    → parse_below (2 ^ 63) s ≡ some n
    → parse_i64 s ≡ some (pos n)
unfolding parse_i64
parse_i64_of_digits [] n d e = absurd d
parse_i64_of_digits (b ∷ s) n d e =
    let unsigned : b == b'+' ≡ false = ground arith in
    let positive : b == b'-' ≡ false = ground arith in rw (positive, unsigned, e)

pub parse_u64-decimal : (n : ℕ) → n < 2 ^ 64 → parse_u64 (decimal n) ≡ some n
parse_u64-decimal n h =
    parse_u64_of_digits (decimal n) (decimal-StartsWithDigit n)
    ∙ parse_below_of_digits (decimal n) n (2 ^ 64) (decimal-StartsWithDigit n)
        (digits_value-decimal n) h

pub parse_i64-decimal : (n : ℕ) → n < 2 ^ 63 → parse_i64 (decimal n) ≡ some (pos n)
parse_i64-decimal n h = parse_i64_of_digits (decimal n) n (decimal-StartsWithDigit n) (
    parse_below_of_digits (decimal n) n (2 ^ 63) (decimal-StartsWithDigit n)
      (digits_value-decimal n) h)

-- Decimal digits only: any byte that is no digit is absent.
contains-onto :
    (c fuel n : ℕ) (rest : Bytes)
    → is_ascii_digit c ≡ false
    → contains c (digits_onto fuel n rest) ≡ contains c rest
unfolding digits_onto
contains-onto c zero n rest h = let other : (b'0' + n % 10) == c ≡ false = ground arith in rw other
contains-onto c (suc fuel) n rest h =
    let other : (b'0' + n % 10) == c ≡ false = ground arith in
    elim (Bool-cases (ltb n 10)) [
      | inl small ↦ rw (small, other)
      | inr big ↦ rw (big, contains-onto c fuel (n / 10) ((b'0' + n % 10) ∷ rest) h, other)
    ]

pub contains-decimal : (c n : ℕ) → is_ascii_digit c ≡ false → contains c (decimal n) ≡ false
unfolding decimal
contains-decimal c n h = contains-onto c n n [] h
