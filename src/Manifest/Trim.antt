-- ===== src/Manifest/Trim.antt =====
-- Text that begins and ends with visible ASCII is not trimmed.
use jcr.Prelude.{ℕ, ◌≡◌, refl, Bool, true, false, ◌&&◌, [], ◌∷◌, reverse, arith, leb, Bytes}
use mathlib.Core.List.{reverse-reverse}
use jcr.Manifest.{trim, trim_front}
use jcr.Manifest

abbrev is_visible : ℕ → Bool
is_visible b = leb 33 b && leb b 127

abbrev pub StartsVisibly : Bytes → Type 0
StartsVisibly [] = ⊥
StartsVisibly (b ∷ s) = is_visible b ≡ true

trim_front-same :
    (two : ℕ → ℕ → Bool) (three : ℕ → ℕ → ℕ → Bool) (b : ℕ) (s : Bytes)
    → Manifest.space_one b ≡ false
    → ((x : ℕ) → two b x ≡ false)
    → ((x y : ℕ) → three b x y ≡ false)
    → trim_front two three (b ∷ s) ≡ b ∷ s
unfolding trim_front
trim_front-same two three b [] one f g = rw (one, trim_front) refl
trim_front-same two three b (c ∷ []) one f g = rw (one, f c, trim_front) refl
trim_front-same two three b (c ∷ d ∷ s) one f g = rw (one, f c, g c d, trim_front) refl

front : (s : Bytes) → StartsVisibly s → trim_front Manifest.space_two Manifest.space_three s ≡ s
front [] v = absurd v
front (b ∷ s) v = trim_front-same _ _ b s (ground arith) (λ x. ground arith) (λ x y. ground arith)

back :
    (s : Bytes)
    → StartsVisibly s
    → trim_front (λ b a. Manifest.space_two a b) (λ c b a. Manifest.space_three a b c) s ≡ s
back [] v = absurd v
back (b ∷ s) v = trim_front-same _ _ b s (ground arith) (λ x. ground arith) (λ x y. ground arith)

pub trim-same : (s : Bytes) → StartsVisibly s → StartsVisibly (reverse s) → trim s ≡ s
unfolding trim
trim-same s first last = rw (front s first, back (reverse s) last, reverse-reverse s) refl
