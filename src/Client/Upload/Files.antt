-- ===== src/Client/Upload/Files.antt =====
-- What is read of a file, and the differences of offsets.
use jcr.Prelude.{
  ℕ, zero, suc, ◌-◌, ◌^◌, ◌≤◌, ◌<◌, ◌≡◌, refl, inl, inr, some, [], ◌∷◌, ◌++◌, Bytes, length, arith,
  Option-cases,
}
use jcr.Client.Upload.{drop, read_exact, sub_u64}

pub drop-append : (held rest : Bytes) → drop (length held) (held ++ rest) ≡ rest
unfolding drop
drop-append [] rest = refl
drop-append (b ∷ held) rest = drop-append held rest

pub read_exact_sound :
    (n : ℕ) (s read left : Bytes)
    → read_exact n s ≡ some (read, left)
    → (read ++ left ≡ s) × (length read ≡ n)
unfolding read_exact
read_exact_sound zero s read left h = ground arith
read_exact_sound (suc n) [] read left h = cc
read_exact_sound (suc n) (b ∷ s) read left h = elim (Option-cases (read_exact n s)) [
  | inl missing ↦ ground arith
  | inr ((r, l), e) ↦ ground (arith, read_exact_sound n s r l e)
]

pub sub_u64_lem : (a b : ℕ) → a < 2 ^ 64 → b ≤ a → sub_u64 a b ≡ a - b
unfolding sub_u64
sub_u64_lem a b h k = omega arith
