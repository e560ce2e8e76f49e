-- ===== src/Reference/Laws.antt =====
-- crates/jcr-core/src/reference.rs, what from_str accepts.
use jcr.Prelude.{
  ℕ, ◌≡◌, refl, ◌≢◌, ◌⊎◌, inl, inr, true, false, not, ◌||◌, some, List, [], ◌∷◌, ◌++◌, arith, ◌==◌,
  Bool-cases, Option-cases, all, any, is_empty, any-append, Bytes, Result, ok, err, is_ok,
  >>=-eq-ok, map_err,
}
use jcr.Text.{contains, split_once, rsplit_once, split, is_name_part, is_name_byte}
use jcr.Text.Splitting.{
  split_once_sound, split_once-none, rsplit_once_sound, none_of_rsplit_once, contains_of_split,
  contains_of_all,
}
use jcr.Digest
use jcr.Digest.{Digest, sha256_name, is_hex_lower}
use jcr.Digest.Laws
use jcr.Reference.{
  ReferenceError, ImageReference, is_digest_text, bad_registry, latest, split_tail, split_tag,
  split_reference, bad_repository, check_parts, parse_remainder, from_str, invalid_digest,
  missing_registry,
}

-- A tag as `from_str` splits it off: not empty, and free of the three separators.
pub record IsTag (tag : Bytes) : Type 0 where
  pub nonempty : is_empty tag ≡ false
  pub no_slash : contains b'/' tag ≡ false
  pub no_colon : contains b':' tag ≡ false
  pub no_at : contains b'@' tag ≡ false

pub record IsValid (r : ImageReference) : Type 0 where
  pub registry : bad_registry r.registry ≡ false
  pub no_slash : contains b'/' r.registry ≡ false
  pub repository : bad_repository r.repository ≡ false
  pub reference : (is_digest_text r.reference ≡ true) ⊎ IsTag r.reference

not_bad :
    (ps : List Bytes)
    → any (λ p. not (is_name_part p)) ps ≡ false
    → all (all is_name_byte) ps ≡ true
not_bad [] h = refl
not_bad (p ∷ ps) h = let ih = not_bad ps in ground (arith, ih)

-- A repository name that passes the check holds none of the other separators.
no_separator :
    (c : ℕ) (s : Bytes)
    → c ≢ b'/'
    → is_name_byte c ≡ false
    → bad_repository s ≡ false
    → contains c s ≡ false
unfolding bad_repository
no_separator c s n h k =
    contains_of_split is_name_byte c b'/' s n h (not_bad (split b'/' s) (ground arith))

pub no_colon_repository : (s : Bytes) → bad_repository s ≡ false → contains b':' s ≡ false
no_colon_repository s h = no_separator b':' s (omega arith) refl h

pub no_at_repository : (s : Bytes) → bad_repository s ≡ false → contains b'@' s ≡ false
no_at_repository s h = no_separator b'@' s (omega arith) refl h

pub contains-append-cons :
    (c d : ℕ) (s t : Bytes) → contains c (s ++ d ∷ t) ≡ (contains c s || (d == c || contains c t))
contains-append-cons c d s t = any-append (λ b. b == c) s (d ∷ t)

-- A text that parses as a digest holds a colon, and no `@`.
pub digest_has_colon : (s : Bytes) → contains b':' s ≡ false → is_digest_text s ≡ false
unfolding is_digest_text Digest.from_str
digest_has_colon s h = rw (split_once-none b':' s h)

is_ok-cases {ℓ} : {E A : Type ℓ} (r : Result E A) → is_ok r ≡ true → (a : A) × (r ≡ ok a)
is_ok-cases (ok a) h = (a, refl)
is_ok-cases (err e) h = cc

at_in_sha256_name : contains b'@' sha256_name ≡ false
unfolding sha256_name
at_in_sha256_name = refl

pub digest_no_at : (s : Bytes) → is_digest_text s ≡ true → contains b'@' s ≡ false
unfolding is_digest_text Digest.to_string
digest_no_at s h =
    let (d, e) = is_ok-cases (Digest.from_str s) h in
    let (p, v) = Digest.Laws.from_str_sound s d e in
    rw (← p, contains-append-cons b'@' b':' d.algorithm d.encoded, v.algorithm, at_in_sha256_name)
      (contains_of_all is_hex_lower b'@' d.encoded refl v.hex)

pub digest_nonempty : (s : Bytes) → is_digest_text s ≡ true → is_empty s ≡ false
unfolding is_digest_text Digest.from_str split_once
digest_nonempty [] h = cc
digest_nonempty (b ∷ s) h = refl

sound_tail :
    (front : Bytes → Bytes) (remainder tail : Bytes)
    → contains b'/' tail ≡ false
    → contains b'@' tail ≡ false
    → is_empty (split_tail front remainder tail).1 ≡ false
    → IsTag (split_tail front remainder tail).1
unfolding split_tail latest
sound_tail front remainder tail h k n = elim (Option-cases (rsplit_once b':' tail)) [
  | inl e ↦
      rw (e, split_tail)
        (record { nonempty = refl; no_slash = refl; no_colon = refl; no_at = refl })
  | inr ((name, tag), e) ↦
      let (p, q) = rsplit_once_sound b':' tail name tag e in
      let cs = contains-append-cons b'/' b':' name tag in
      let ca = contains-append-cons b'@' b':' name tag in
      let hs : contains b'/' (name ++ b':' ∷ tag) ≡ false = rw p h in
      let ha : contains b'@' (name ++ b':' ∷ tag) ≡ false = rw p k in
      rw (e, split_tail)
        (record {
          nonempty = (rw (e, split_tail) at n);
          no_slash = ground arith;
          no_colon = q;
          no_at = ground arith;
        })
]

sound-IsTag :
    (remainder : Bytes)
    → contains b'@' remainder ≡ false
    → is_empty (split_tag remainder).1 ≡ false
    → IsTag (split_tag remainder).1
unfolding split_tag
sound-IsTag remainder k n = elim (Option-cases (rsplit_once b'/' remainder)) [
  | inl e ↦
      rw (e, split_tag)
        (sound_tail (λ name. name) remainder remainder (none_of_rsplit_once b'/' remainder e) k
          (rw (e, split_tag) at n))
  | inr ((before, tail), e) ↦
      let (p, q) = rsplit_once_sound b'/' remainder before tail e in
      let ca = contains-append-cons b'@' b'/' before tail in
      let ha : contains b'@' (before ++ b'/' ∷ tail) ≡ false = rw p k in
      rw (e, split_tag)
        (sound_tail (λ name. before ++ b'/' ∷ name) remainder tail q (ground arith)
          (rw (e, split_tag) at n))
]

ok_of_map_err {ℓ} :
    {E F A : Type ℓ} (f : E → F) (r : Result E A) {a : A} → map_err f r ≡ ok a → is_ok r ≡ true
ok_of_map_err f (ok a) h = refl
ok_of_map_err f (err e) h = cc

split_reference_sound :
    (remainder : Bytes) (parts : Bytes × Bytes)
    → split_reference remainder ≡ ok parts
    → is_empty parts.1 ≡ false
    → (is_digest_text parts.1 ≡ true) ⊎ IsTag parts.1
unfolding split_reference is_digest_text
split_reference_sound remainder parts h n = elim (Option-cases (rsplit_once b'@' remainder)) [
  | inl e ↦
      let same : split_tag remainder ≡ parts = unfold split_reference in ground arith in
      inr (rw same at (sound-IsTag remainder (none_of_rsplit_once b'@' remainder e) (rw same n)))
  | inr ((repository, digest), e) ↦ inl (digest_accepted repository digest e)
]
  where
    second_of :
        {a b : Bytes}
        → ◌≡◌ {A = Result ReferenceError (Bytes × Bytes)} (ok (a, b)) (ok parts)
        → b ≡ parts.1
    second_of p = ground arith

    digest_accepted :
        (repository digest : Bytes)
        → rsplit_once b'@' remainder ≡ some (repository, digest)
        → is_digest_text parts.1 ≡ true
    digest_accepted repository digest e =
        let (d, accepted, same) =
          >>=-eq-ok (map_err (λ _. invalid_digest) (Digest.from_str digest)) _
            (rw (e, split_reference) at h) in
        rw (← second_of same, is_digest_text) (ok_of_map_err _ (Digest.from_str digest) accepted)

check_parts_sound :
    (registry : Bytes) (parts : Bytes × Bytes) (r : ImageReference)
    → check_parts registry parts ≡ ok r
    → (r.registry ≡ registry)
      × (r.repository ≡ parts.0)
      × (r.reference ≡ parts.1)
      × (bad_repository parts.0 ≡ false)
      × (is_empty parts.1 ≡ false)
unfolding check_parts
check_parts_sound registry (repository, reference) r h = ground arith

parse_remainder_sound :
    (registry remainder : Bytes) (r : ImageReference)
    → contains b'/' registry ≡ false
    → parse_remainder registry remainder ≡ ok r
    → IsValid r
unfolding parse_remainder
parse_remainder_sound registry remainder r q h = elim (Bool-cases (bad_registry registry)) [
  | inl bad ↦ ground arith
  | inr good ↦
      let (parts, e, k) =
        >>=-eq-ok (split_reference remainder) (check_parts registry)
          (rw (good, parse_remainder) at h) in
      let (same, name, ref, checked, full) = check_parts_sound registry parts r k in
      record {
        registry = rw same good;
        no_slash = rw same q;
        repository = rw name checked;
        reference = rw ref (split_reference_sound remainder parts e full);
      }
]

-- What parsing establishes.
pub from_str_sound : (s : Bytes) (r : ImageReference) → from_str s ≡ ok r → IsValid r
unfolding from_str
from_str_sound s r h = elim (Option-cases (split_once b'/' s)) [
  | inl e ↦ absurd_none (rw (e, from_str) at h)
  | inr ((registry, remainder), e) ↦
      parse_remainder_sound registry remainder r (split_once_sound b'/' s registry remainder e).1
        (rw (e, from_str) at h)
]
  where
    absurd_none :
        ◌≡◌ {A = Result ReferenceError ImageReference} (err missing_registry) (ok r) → IsValid r
    absurd_none p = cc
