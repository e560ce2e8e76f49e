-- ===== src/Digest/Laws.antt =====
-- crates/jcr-core/src/digest.rs, from_str and to_string.
use jcr.Prelude.{
  ◌≡◌, refl, ◌↔◌, inl, inr, true, false, arith, Option-cases, length, all, Bytes, bytes_eq_iff, ok,
}
use jcr.Text.{contains, split_once}
use jcr.Text.Splitting.{split_once-append, split_once_sound}
use jcr.Digest.{Digest, sha256_name, to_string, is_hex_lower, check_parts, from_str}

-- What parsing establishes: the algorithm is sha256, and the rest 64 lowercase hexadecimal digits.
pub record IsValid (d : Digest) : Type 0 where
  pub algorithm : d.algorithm ≡ sha256_name
  pub size : length d.encoded ≡ 64
  pub hex : all is_hex_lower d.encoded ≡ true

contains-sha256_name : contains b':' sha256_name ≡ false
unfolding sha256_name
contains-sha256_name = refl

check_parts_sound :
    (a e : Bytes) (d : Digest)
    → check_parts a e ≡ ok d
    → (d.algorithm ≡ a) × (d.encoded ≡ e) × IsValid d
unfolding check_parts
check_parts_sound a e d h = ground (arith, bytes_eq_iff a sha256_name)

check_parts_complete : (d : Digest) → IsValid d → check_parts d.algorithm d.encoded ≡ ok d
unfolding check_parts
check_parts_complete d v = ground (arith, bytes_eq_iff d.algorithm sha256_name)

pub from_str_sound : (s : Bytes) (d : Digest) → from_str s ≡ ok d → (to_string d ≡ s) × IsValid d
unfolding from_str to_string
from_str_sound s d h = elim (Option-cases (split_once b':' s)) [
  | inl e ↦ ground arith
  | inr ((a, b), e) ↦
      let (pa, pe, v) = check_parts_sound a b d (ground arith) in
      (rw (pa, pe) (split_once_sound b':' s a b e).0, v)
]

pub from_str-to_string : (d : Digest) → IsValid d → from_str (to_string d) ≡ ok d
unfolding from_str to_string
from_str-to_string d v =
    rw (split_once-append b':' d.algorithm d.encoded (rw v.algorithm contains-sha256_name))
      (check_parts_complete d v)

-- A text is accepted as the digest `d` exactly when it is the text of `d` and `d` is valid.
pub from_str_iff : (s : Bytes) (d : Digest) → (from_str s ≡ ok d) ↔ ((to_string d ≡ s) × IsValid d)
from_str_iff s d = (from_str_sound s d, λ h. rw (← h.0) (from_str-to_string d h.1))
