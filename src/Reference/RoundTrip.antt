-- ===== src/Reference/RoundTrip.antt =====
-- crates/jcr-core/src/reference.rs, from_str and to_string.
use jcr.Prelude.{
  ◌≡◌, refl, inl, inr, true, false, ◌∷◌, ◌++◌, arith, Option-cases, is_empty, Bytes, Result, ok,
  err, is_ok, ◌>>◌, map_err,
}
use mathlib.Core.List.{append_assoc}
use jcr.Text.{contains, rsplit_once}
use jcr.Text.Splitting.{
  split_once-append, rsplit_once-append, rsplit_once_sound, rsplit_once-none, none_of_rsplit_once,
}
use jcr.Digest
use jcr.Reference.{
  ImageReference, is_digest_text, is_digest, to_string, split_tail, split_tag, split_reference,
  bad_repository, check_parts, parse_remainder, from_str, invalid_digest,
}
use jcr.Reference.Laws.{
  IsTag, IsValid, no_at_repository, contains-append-cons, digest_has_colon, digest_no_at,
  digest_nonempty, from_str_sound,
}

append-slash :
    (front name tag : Bytes)
    → (front ++ b'/' ∷ name) ++ b':' ∷ tag ≡ front ++ b'/' ∷ (name ++ b':' ∷ tag)
append-slash front name tag = append_assoc front (b'/' ∷ name) (b':' ∷ tag)

split_tag-plain :
    (repository tag : Bytes)
    → IsTag tag
    → contains b'/' repository ≡ false
    → split_tag (repository ++ b':' ∷ tag) ≡ (repository, tag)
unfolding split_tag
split_tag-plain repository tag t h =
    let whole = contains-append-cons b'/' b':' repository tag in
    let none_left : contains b'/' (repository ++ b':' ∷ tag) ≡ false = ground arith in
    rw (
      rsplit_once-none b'/' (repository ++ b':' ∷ tag) none_left,
      split_tag,
      split_tail,
      rsplit_once-append b':' repository tag t.no_colon,
    )

split_tag-nested :
    (front name tag : Bytes)
    → IsTag tag
    → contains b'/' name ≡ false
    → split_tag (front ++ b'/' ∷ (name ++ b':' ∷ tag)) ≡ (front ++ b'/' ∷ name, tag)
unfolding split_tag
split_tag-nested front name tag t h =
    let tail = contains-append-cons b'/' b':' name tag in
    let none_left : contains b'/' (name ++ b':' ∷ tag) ≡ false = ground arith in
    rw (
      rsplit_once-append b'/' front (name ++ b':' ∷ tag) none_left,
      split_tag,
      split_tail,
      rsplit_once-append b':' name tag t.no_colon,
    )

split_tag-colon :
    (repository tag : Bytes) → IsTag tag → split_tag (repository ++ b':' ∷ tag) ≡ (repository, tag)
split_tag-colon repository tag t = elim (Option-cases (rsplit_once b'/' repository)) [
  | inl e ↦ split_tag-plain repository tag t (none_of_rsplit_once b'/' repository e)
  | inr ((front, name), e) ↦
      let (p, q) = rsplit_once_sound b'/' repository front name e in
      rw (← p, append-slash front name tag) (split_tag-nested front name tag t q)
]

split_reference-tag :
    (repository tag : Bytes)
    → bad_repository repository ≡ false
    → IsTag tag
    → split_reference (repository ++ b':' ∷ tag) ≡ ok (repository, tag)
unfolding split_reference
split_reference-tag repository tag h t =
    let whole = contains-append-cons b'@' b':' repository tag in
    let no_at = no_at_repository repository h in
    let none_left : contains b'@' (repository ++ b':' ∷ tag) ≡ false = ground (arith, t.no_at) in
    rw (
      rsplit_once-none b'@' (repository ++ b':' ∷ tag) none_left,
      split_reference,
      split_tag-colon repository tag t,
    )

accepted {ℓ} :
    {E F A B : Type ℓ} (f : E → F) (r : Result E A) (b : B)
    → is_ok r ≡ true
    → (do map_err f r; ok b) ≡ ok b
accepted f (ok a) b h = refl
accepted f (err e) b h = cc

split_reference-digest :
    (repository digest : Bytes)
    → is_digest_text digest ≡ true
    → split_reference (repository ++ b'@' ∷ digest) ≡ ok (repository, digest)
unfolding split_reference is_digest_text
split_reference-digest repository digest d =
    rw (rsplit_once-append b'@' repository digest (digest_no_at digest d), split_reference)
      (accepted (λ _. invalid_digest) (Digest.from_str digest) (repository, digest) d)

parse_remainder_complete :
    (r : ImageReference) (remainder : Bytes)
    → IsValid r
    → is_empty r.reference ≡ false
    → split_reference remainder ≡ ok (r.repository, r.reference)
    → parse_remainder r.registry remainder ≡ ok r
unfolding parse_remainder check_parts
parse_remainder_complete r remainder v n h = rw (v.registry, h, v.repository, n)

-- A valid reference is recovered from its text.
pub from_str-to_string_reference : (r : ImageReference) → IsValid r → from_str (to_string r) ≡ ok r
unfolding from_str to_string is_digest
from_str-to_string_reference r v = elim v.reference [
  | inl d ↦
      rw (d, split_once-append b'/' r.registry (r.repository ++ b'@' ∷ r.reference) v.no_slash)
        (parse_remainder_complete r (r.repository ++ b'@' ∷ r.reference) v
          (digest_nonempty r.reference d) (split_reference-digest r.repository r.reference d))
  | inr t ↦
      rw
        (
          digest_has_colon r.reference t.no_colon,
          split_once-append b'/' r.registry (r.repository ++ b':' ∷ r.reference) v.no_slash,
        )
        (parse_remainder_complete r (r.repository ++ b':' ∷ r.reference) v t.nonempty
          (split_reference-tag r.repository r.reference v.repository t))
]

-- Whatever text was accepted, the text that its reference prints as is accepted again, as the same
-- reference.
pub from_str-stable :
    (s : Bytes) (r : ImageReference) → from_str s ≡ ok r → from_str (to_string r) ≡ ok r
from_str-stable s r h = from_str-to_string_reference r (from_str_sound s r h)
