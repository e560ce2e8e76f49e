-- ===== src/Text.antt =====
-- The text functions of Rust's standard library that the crates use, on UTF-8 bytes.
pub mod Splitting
pub mod Decimal
use mathlib.Core.Option
use jcr.Prelude.{
  zero, suc, is_empty, not, all, ℕ, zero, suc, ◌+◌, ◌-◌, ◌*◌, ◌^◌, Bool, true, false, ◌&&◌, ◌||◌,
  Option, none, some, List, [], ◌∷◌, ◌++◌, reverse, Bytes, codes, leb, ltb, ◌==◌, if◌then◌else◌,
  any, all,
}

abbrev pub contains : ℕ → Bytes → Bool
contains c s = any (λ b. b == c) s

-- `str::split_once` at a byte
unfoldable pub split_once : ℕ → Bytes → Option (Bytes × Bytes)
split_once c [] = none
split_once c (b ∷ s) =
    if b == c then some ([], s) else Option.map (λ p. (b ∷ p.0, p.1)) (split_once c s)

abbrev or_here : ℕ → ℕ → Bytes → Option (Bytes × Bytes) → Option (Bytes × Bytes)
or_here c b s (some (x, y)) = some (b ∷ x, y)
or_here c b s none = if b == c then some ([], s) else none

-- `str::rsplit_once` at a byte
unfoldable pub rsplit_once : ℕ → Bytes → Option (Bytes × Bytes)
rsplit_once c [] = none
rsplit_once c (b ∷ s) = or_here c b s (rsplit_once c s)

abbrev onto_first : ℕ → List Bytes → List Bytes
onto_first b [] = (b ∷ []) ∷ []
onto_first b (p ∷ ps) = (b ∷ p) ∷ ps

-- `str::split` at a byte: never empty
unfoldable pub split : ℕ → Bytes → List Bytes
split c [] = [] ∷ []
split c (b ∷ s) = let rest = split c s in if b == c then [] ∷ rest else onto_first b rest

-- `[T]::join` with a byte
unfoldable pub join : ℕ → List Bytes → Bytes
join c [] = []
join c (p ∷ []) = p
join c (p ∷ q ∷ ps) = p ++ (c ∷ join c (q ∷ ps))

unfoldable pub strip_prefix : Bytes → Bytes → Option Bytes
strip_prefix [] s = some s
strip_prefix (a ∷ p) [] = none
strip_prefix (a ∷ p) (b ∷ s) = if a == b then strip_prefix p s else none

unfoldable pub strip_suffix : Bytes → Bytes → Option Bytes
strip_suffix p s = Option.map reverse (strip_prefix (reverse p) (reverse s))

abbrev is_some {ℓ} : {A : Type ℓ} → Option A → Bool
is_some none = false
is_some (some a) = true

unfoldable pub starts_with : Bytes → Bytes → Bool
unfolding strip_prefix
starts_with p s = is_some (strip_prefix p s)

-- `str::split_once` at a text
unfoldable pub split_once_at : Bytes → Bytes → Option (Bytes × Bytes)
split_once_at p [] = Option.map (λ r. ([], r)) (strip_prefix p [])
split_once_at p (b ∷ s) =
    let later = Option.map (λ q. (b ∷ q.0, q.1)) (split_once_at p s) in
    elim (strip_prefix p (b ∷ s)) [ some r ↦ some ([], r) | none ↦ later ]

abbrev pub is_ascii_digit : ℕ → Bool
is_ascii_digit b = leb b'0' b && leb b b'9'

abbrev pub is_ascii_lowercase : ℕ → Bool
is_ascii_lowercase b = leb b'a' b && leb b b'z'

abbrev pub is_ascii_uppercase : ℕ → Bool
is_ascii_uppercase b = leb b'A' b && leb b b'Z'

-- `str::splitn`
unfoldable pub splitn : ℕ → ℕ → Bytes → List Bytes
splitn zero c s = []
splitn (suc zero) c s = s ∷ []
splitn (suc (suc n)) c s = elim (split_once c s) [
  | none ↦ s ∷ []
  | some (a, b) ↦ a ∷ splitn (suc n) c b
]

-- the bytes of a part of a repository name
abbrev pub is_name_byte : ℕ → Bool
is_name_byte b =
    is_ascii_lowercase b || (is_ascii_digit b || (b == b'.' || (b == b'_' || b == b'-')))

abbrev pub is_name_part : Bytes → Bool
is_name_part part = not (is_empty part) && all is_name_byte part
