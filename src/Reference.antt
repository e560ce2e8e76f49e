-- ===== src/Reference.antt =====
-- crates/jcr-core/src/reference.rs: fully qualified image references.
pub mod Laws
pub mod RoundTrip
use jcr.Prelude.{
  ℕ, zero, suc, ◌+◌, ◌-◌, ◌*◌, ◌/◌, ◌%◌, ◌^◌, ◌≤◌, ◌<◌, String, ◌≡◌, refl, sym, ap, ◌∙◌, ◌≢◌, ◌↔◌,
  ◌⊎◌, inl, inr, Bool, true, false, not, ◌&&◌, ◌||◌, Option, none, some, List, [], ◌∷◌, ◌++◌, map,
  reverse, arith, ltb, leb, ◌==◌, ==_iff, if◌then◌else◌, Bool-cases, Option-cases, &&-eq-true,
  ||-eq-false, length, all, any, is_empty, length-append, all-append, any-append, Bytes, codes,
  bytes_eq, bytes_eq_refl, eq_of_bytes_eq, bytes_eq_iff, Result, ok, err, ok_or, is_ok, to_option,
  ◌>>=◌, ◌>>◌, >>=-eq-ok, map_err,
}
use jcr.Text.{contains, split_once, rsplit_once, split, starts_with, is_name_part}
use jcr.Digest

pub record ImageReference : Type 0 where
  pub registry : Bytes
  pub repository : Bytes
  pub reference : Bytes

pub data ReferenceError : Type 0 where
  missing_registry : ReferenceError
  invalid_registry : ReferenceError
  invalid_repository : ReferenceError
  invalid_reference : ReferenceError
  invalid_digest : ReferenceError

unfoldable pub is_digest_text : Bytes → Bool
is_digest_text reference = is_ok (Digest.from_str reference)

unfoldable pub is_digest : ImageReference → Bool
unfolding is_digest_text
is_digest r = is_digest_text r.reference

-- The registries that are reached over plain HTTP: those on the same machine.
unfoldable pub is_local : Bytes → Bool
is_local registry =
    bytes_eq registry (codes "localhost")
    || (starts_with (codes "localhost:") registry
        || (starts_with (codes "127.0.0.1:") registry || starts_with (codes "[::1]:") registry))

unfoldable pub scheme : ImageReference → Bytes
unfolding is_local
scheme r = if is_local r.registry then codes "http" else codes "https"

-- `Display`
unfoldable pub to_string : ImageReference → Bytes
unfolding is_digest
to_string r =
    if is_digest r
    then r.registry ++ b'/' ∷ (r.repository ++ b'@' ∷ r.reference)
    else r.registry ++ b'/' ∷ (r.repository ++ b':' ∷ r.reference)

unfoldable pub bad_registry : Bytes → Bool
bad_registry registry =
    is_empty registry
    || (not (contains b'.' registry || contains b':' registry)
        && not (bytes_eq registry (codes "localhost")))

unfoldable pub latest : Bytes
latest = codes "latest"

-- `tail.rfind(':')` on the part behind the last slash; `front` is what stands before that part.
unfoldable pub split_tail : (Bytes → Bytes) → Bytes → Bytes → Bytes × Bytes
split_tail front remainder tail = elim (rsplit_once b':' tail) [
  | some (name, tag) ↦ (front name, tag)
  | none ↦ (remainder, latest)
]

-- the branch without a digest
unfoldable pub split_tag : Bytes → Bytes × Bytes
unfolding split_tail latest
split_tag remainder = elim (rsplit_once b'/' remainder) [
  | some (before, tail) ↦ split_tail (λ name. before ++ b'/' ∷ name) remainder tail
  | none ↦ split_tail (λ name. name) remainder remainder
]

unfoldable pub split_reference : Bytes → Result ReferenceError (Bytes × Bytes)
unfolding split_tag
split_reference remainder = elim (rsplit_once b'@' remainder) [
  | some (repository, digest) ↦ do
    map_err (λ _. invalid_digest) (Digest.from_str digest)
    ok (repository, digest)
  | none ↦ ok (split_tag remainder)
]

abbrev ends_with_slash : Bytes → Bool
ends_with_slash s = elim (reverse s) [ [] ↦ false | b ∷ _ ↦ b == b'/' ]

abbrev starts_with_slash : Bytes → Bool
starts_with_slash [] = false
starts_with_slash (b ∷ s) = b == b'/'

unfoldable pub bad_repository : Bytes → Bool
bad_repository repository =
    is_empty repository
    || (starts_with_slash repository
        || (ends_with_slash repository
            || any (λ piece. not (is_name_part piece)) (split b'/' repository)))

-- the checks behind the two splits
unfoldable pub check_parts : Bytes → Bytes × Bytes → Result ReferenceError ImageReference
check_parts registry (repository, reference) =
    if bad_repository repository
    then err invalid_repository
    else if is_empty reference
    then err invalid_reference
    else ok (record { registry = registry; repository = repository; reference = reference })

-- behind the first slash
unfoldable pub parse_remainder : Bytes → Bytes → Result ReferenceError ImageReference
parse_remainder registry remainder =
    if bad_registry registry
    then err invalid_registry
    else do parts ← split_reference remainder; check_parts registry parts

-- `FromStr`
unfoldable pub from_str : Bytes → Result ReferenceError ImageReference
unfolding parse_remainder
from_str value = do
  (registry, remainder) ← ok_or (split_once b'/' value) missing_registry
  parse_remainder registry remainder
