-- ===== src/Digest.antt =====
-- crates/jcr-core/src/digest.rs: OCI content digests, their text and the storage path made of it.
pub mod Laws
use jcr.Prelude.{
  ℕ, zero, suc, ◌+◌, ◌-◌, ◌*◌, ◌/◌, ◌%◌, ◌^◌, ◌≤◌, ◌<◌, String, ◌≡◌, refl, sym, ap, ◌∙◌, ◌≢◌, ◌↔◌,
  ◌⊎◌, inl, inr, Bool, true, false, not, ◌&&◌, ◌||◌, Option, none, some, List, [], ◌∷◌, ◌++◌, map,
  reverse, arith, ltb, leb, ◌==◌, ==_iff, if◌then◌else◌, Bool-cases, Option-cases, &&-eq-true,
  ||-eq-false, length, all, any, is_empty, length-append, all-append, any-append, Bytes, codes,
  bytes_eq, bytes_eq_refl, eq_of_bytes_eq, bytes_eq_iff, Result, ok, err, ok_or, is_ok, to_option,
  ◌>>=◌, ◌>>◌, >>=-eq-ok, map_err,
}
use jcr.Text.{split_once, is_ascii_digit}

pub record Digest : Type 0 where
  pub algorithm : Bytes
  pub encoded : Bytes

pub data DigestError : Type 0 where
  missing_separator : DigestError
  unsupported_algorithm : Bytes → DigestError
  invalid_sha256 : DigestError

-- `Digest::SHA256`
unfoldable pub sha256_name : Bytes
sha256_name = codes "sha256"

-- `hex::encode(Sha256::digest(bytes))` is the parameter: both are other packages' code.
unfoldable pub sha256 : (Bytes → Bytes) → Bytes → Digest
sha256 hex_sha256 bytes = record { algorithm = sha256_name; encoded = hex_sha256 bytes }

-- derived `PartialEq`
unfoldable pub digest_eq : Digest → Digest → Bool
digest_eq d e = bytes_eq d.algorithm e.algorithm && bytes_eq d.encoded e.encoded

unfoldable pub verify : (Bytes → Bytes) → Digest → Bytes → Bool
unfolding digest_eq sha256
verify hex_sha256 d bytes = digest_eq d (sha256 hex_sha256 bytes)

-- `Display`
unfoldable pub to_string : Digest → Bytes
to_string d = d.algorithm ++ b':' ∷ d.encoded

abbrev pub take_two : Bytes → Bytes
take_two (a ∷ b ∷ s) = a ∷ b ∷ []
take_two s = s

-- The slice `encoded[..2]` panics on a shorter text, which no parsed digest has.
unfoldable pub object_fragment : Digest → Bytes
object_fragment d = d.algorithm ++ b'/' ∷ (take_two d.encoded ++ b'/' ∷ d.encoded)

abbrev pub is_hex_lower : ℕ → Bool
is_hex_lower byte = is_ascii_digit byte || (leb b'a' byte && leb byte b'f')

abbrev pub is_sha256_text : Bytes → Bool
is_sha256_text encoded = length encoded == 64 && all is_hex_lower encoded

-- the checks behind `split_once`
unfoldable pub check_parts : Bytes → Bytes → Result DigestError Digest
check_parts algorithm encoded =
    if not (bytes_eq algorithm sha256_name)
    then err (unsupported_algorithm algorithm)
    else if not (length encoded == 64) || not (all is_hex_lower encoded)
    then err invalid_sha256
    else ok (record { algorithm = algorithm; encoded = encoded })

-- `FromStr`
unfoldable pub from_str : Bytes → Result DigestError Digest
unfolding check_parts
from_str value = do
  (algorithm, encoded) ← ok_or (split_once b':' value) missing_separator
  check_parts algorithm encoded
