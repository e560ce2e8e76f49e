-- ===== src/Text/Splitting.antt =====
-- Laws of splitting, joining and stripping.

use mathlib.Core.Option
use mathlib.Core.List.{reverse-append, reverse-reverse}
use jcr.Prelude.{
  reverse, ◌∙◌, sym, ==_iff, ◌==◌, Bool, true, ◌≢◌, ◌&&◌, ap, all, ℕ, ◌≡◌, refl, false, none, some,
  List, [], ◌∷◌, ◌++◌, arith, Bytes, any, inl, inr, Option-cases,
}
use jcr.Text.{
  contains, split_once, rsplit_once, split, join, strip_prefix, strip_suffix, split_once_at,
  onto_first,
}

pub split_once-append :
    (c : ℕ) (a b : Bytes) → contains c a ≡ false → split_once c (a ++ c ∷ b) ≡ some (a, b)
unfolding split_once
split_once-append c [] b h = ground arith
split_once-append c (x ∷ a) b h = ground (arith, split_once-append c a b)

pub split_once_sound :
    (c : ℕ) (s a b : Bytes)
    → split_once c s ≡ some (a, b)
    → (a ++ c ∷ b ≡ s) × (contains c a ≡ false)
unfolding split_once
split_once_sound c [] a b h = cc
split_once_sound c (x ∷ s) a b h = elim (Option-cases (split_once c s)) [
  | inl e ↦ ground arith
  | inr ((u, v), e) ↦ ground (arith, split_once_sound c s u v e)
]

pub split_once-none : (c : ℕ) (s : Bytes) → contains c s ≡ false → split_once c s ≡ none
unfolding split_once
split_once-none c [] h = refl
split_once-none c (x ∷ s) h = ground (arith, split_once-none c s)

pub rsplit_once-none : (c : ℕ) (s : Bytes) → contains c s ≡ false → rsplit_once c s ≡ none
unfolding rsplit_once
rsplit_once-none c [] h = refl
rsplit_once-none c (x ∷ s) h = ground (arith, rsplit_once-none c s)

pub rsplit_once-append :
    (c : ℕ) (a b : Bytes) → contains c b ≡ false → rsplit_once c (a ++ c ∷ b) ≡ some (a, b)
unfolding rsplit_once
rsplit_once-append c [] b h = ground (arith, rsplit_once-none c b h)
rsplit_once-append c (x ∷ a) b h = ground (arith, rsplit_once-append c a b h)

pub none_of_rsplit_once : (c : ℕ) (s : Bytes) → rsplit_once c s ≡ none → contains c s ≡ false
unfolding rsplit_once
none_of_rsplit_once c [] h = refl
none_of_rsplit_once c (x ∷ s) h = ground (arith, none_of_rsplit_once c s)

pub rsplit_once_sound :
    (c : ℕ) (s a b : Bytes)
    → rsplit_once c s ≡ some (a, b)
    → (a ++ c ∷ b ≡ s) × (contains c b ≡ false)
unfolding rsplit_once
rsplit_once_sound c [] a b h = cc
rsplit_once_sound c (x ∷ s) a b h = elim (Option-cases (rsplit_once c s)) [
  | inl e ↦ ground (arith, none_of_rsplit_once c s e)
  | inr ((u, v), e) ↦ ground (arith, rsplit_once_sound c s u v e)
]

pub split-none : (c : ℕ) (s : Bytes) → contains c s ≡ false → split c s ≡ s ∷ []
unfolding split
split-none c [] h = refl
split-none c (x ∷ s) h = ground (arith, split-none c s)

pub split-append :
    (c : ℕ) (a b : Bytes) → contains c a ≡ false → split c (a ++ c ∷ b) ≡ a ∷ split c b
unfolding split
split-append c [] b h = ground arith
split-append c (x ∷ a) b h = ground (arith, split-append c a b)

-- Splitting undoes joining, if no piece holds the separator.
pub split-join :
    (c : ℕ) (p : Bytes) (ps : List Bytes)
    → any (contains c) (p ∷ ps) ≡ false
    → split c (join c (p ∷ ps)) ≡ p ∷ ps
unfolding join
split-join c p [] h = split-none c p (ground arith)
split-join c p (q ∷ ps) h = ground (arith, split-append c p (join c (q ∷ ps)), split-join c q ps)

apply_of_== : (p : ℕ → Bool) (b c : ℕ) → b == c ≡ true → p b ≡ p c
apply_of_== p b c h = ap p ((==_iff b c).0 h)

all-onto_first :
    (p : ℕ → Bool) (b : ℕ) (ps : List Bytes)
    → all (all p) (onto_first b ps) ≡ (p b && all (all p) ps)
all-onto_first p b [] = ground arith
all-onto_first p b (q ∷ ps) = ground arith

-- A byte outside `p` that is not the separator stands in no text whose pieces are all of `p`.
pub contains_of_split :
    (p : ℕ → Bool) (c d : ℕ) (s : Bytes)
    → c ≢ d
    → p c ≡ false
    → all (all p) (split d s) ≡ true
    → contains c s ≡ false
unfolding split
contains_of_split p c d [] n h k = refl
contains_of_split p c d (b ∷ s) n h k =
    ground (arith, contains_of_split p c d s n h, all-onto_first p b (split d s), apply_of_== p b c)

pub contains_of_all :
    (p : ℕ → Bool) (c : ℕ) (s : Bytes) → p c ≡ false → all p s ≡ true → contains c s ≡ false
contains_of_all p c [] h k = refl
contains_of_all p c (b ∷ s) h k = ground (arith, contains_of_all p c s h, apply_of_== p b c)

pub strip_prefix_sound : (p s r : Bytes) → strip_prefix p s ≡ some r → p ++ r ≡ s
unfolding strip_prefix
strip_prefix_sound [] s r h = ground arith
strip_prefix_sound (a ∷ p) [] r h = cc
strip_prefix_sound (a ∷ p) (b ∷ s) r h = ground (arith, strip_prefix_sound p s r)

pub strip_prefix-append : (p r : Bytes) → strip_prefix p (p ++ r) ≡ some r
unfolding strip_prefix
strip_prefix-append [] r = refl
strip_prefix-append (a ∷ p) r = ground (arith, strip_prefix-append p r)

pub strip_suffix_sound : (p s r : Bytes) → strip_suffix p s ≡ some r → r ++ p ≡ s
unfolding strip_suffix
strip_suffix_sound p s r h =
    let (q, found, back) = (Option.map-eq-some_iff _ _).0 h in
    let e = strip_prefix_sound (reverse p) (reverse s) q found in
    rw (← back) (
      sym (reverse-append (reverse p) q ∙ ap (λ z. reverse q ++ z) (reverse-reverse p))
      ∙ (ap reverse e ∙ reverse-reverse s))

pub split_once_at_sound : (p s a b : Bytes) → split_once_at p s ≡ some (a, b) → a ++ (p ++ b) ≡ s
unfolding split_once_at
split_once_at_sound p [] a b h = elim (Option-cases (strip_prefix p [])) [
  | inl e ↦ ground arith
  | inr (r, found) ↦ ground (arith, strip_prefix_sound p [] r found)
]
split_once_at_sound p (x ∷ s) a b h = elim (Option-cases (strip_prefix p (x ∷ s))) [
  | inr (r, found) ↦ ground (arith, strip_prefix_sound p (x ∷ s) r found)
  | inl missed ↦ elim (Option-cases (split_once_at p s)) [
    | inl e ↦ ground arith
    | inr ((u, v), e) ↦ ground (arith, split_once_at_sound p s u v e)
  ]
]
