-- ===== src/Server/Range.antt =====
-- crates/jcrd/src/registry.rs, lines 1463-1516 and 1576-1596: the ranges of chunks, as the client
-- sends them and as the server answers them.
pub mod Laws
use jcr.Prelude.{
  ℕ, zero, suc, ◌+◌, ◌-◌, ◌*◌, ◌/◌, ◌%◌, ◌^◌, ◌≤◌, ◌<◌, String, ◌≡◌, refl, sym, ap, ◌∙◌, ◌≢◌, ◌↔◌,
  ◌⊎◌, inl, inr, Bool, true, false, not, ◌&&◌, ◌||◌, Option, none, some, List, [], ◌∷◌, ◌++◌, map,
  reverse, arith, ltb, leb, ◌==◌, ==_iff, if◌then◌else◌, Bool-cases, Option-cases, &&-eq-true,
  ||-eq-false, length, all, any, is_empty, length-append, all-append, any-append, Bytes, codes,
  bytes_eq, bytes_eq_refl, eq_of_bytes_eq, bytes_eq_iff, Result, ok, err, ok_or, is_ok, to_option,
  ◌>>=◌, ◌>>◌, >>=-eq-ok, map_err, ok-injective,
}
use jcr.Text.{split, split_once, strip_prefix}
use jcr.Text.Decimal.{ℤ, pos, negsuc, parse_i64, decimal}
use jcr.Server.Error.{AppError, oci}
use jcr.Server.Types.{
  HeaderValue, Response, HeaderName, location, docker_upload_uuid, range, insert_header,
}

abbrev pub invalid_range : AppError
invalid_range = oci 400 "BLOB_UPLOAD_INVALID"

abbrev or_whole : Bytes → Option Bytes → Bytes
or_whole s none = s
or_whole s (some rest) = rest

abbrev first_piece : List Bytes → Bytes
first_piece [] = []
first_piece (p ∷ ps) = p

-- `strip_prefix("bytes ")`, and what stands before a slash
unfoldable pub range_text : Bytes → Bytes
range_text value = first_piece (split b'/' (or_whole value (strip_prefix (codes "bytes ") value)))

abbrev pub is_int : ℤ → ℕ → Bool
is_int (pos n) m = n == m
is_int (negsuc n) m = false

-- an integer below a natural number
abbrev pub is_below : ℤ → ℕ → Bool
is_below (pos n) m = ltb n m
is_below (negsuc n) m = true

-- The test behind the two numbers; `start` is the expected offset where the others are looked at.
unfoldable pub is_next_range : ℤ → ℤ → ℕ → ℕ → Bool
is_next_range start end expected_offset body_len =
    is_int start expected_offset
    && (if ltb 0 body_len
        then is_int end (expected_offset + body_len - 1)
        else is_below end expected_offset)

unfoldable pub check_range : Bytes → ℕ → ℕ → Result AppError (Unit {0})
unfolding is_next_range
check_range value expected_offset body_len = do
  (first, second) ← ok_or (split_once b'-' (range_text value)) invalid_range
  start ← ok_or (parse_i64 first) invalid_range
  end ← ok_or (parse_i64 second) invalid_range
  if is_next_range start end expected_offset body_len
      then ok tt
      else err (oci 416 "BLOB_UPLOAD_INVALID")

unfoldable pub validate_content_range : HeaderValue → ℕ → ℕ → Result AppError (Unit {0})
unfolding check_range
validate_content_range none expected_offset body_len = ok tt
validate_content_range (some none) expected_offset body_len = err invalid_range
validate_content_range (some (some value)) expected_offset body_len =
    check_range value expected_offset body_len

unfoldable pub upload_location : (ℕ → Bytes) → Bytes → ℕ → Bytes
upload_location uuid_text repository id =
    codes "/v2/" ++ (repository ++ (codes "/blobs/uploads/" ++ uuid_text id))

-- `set_upload_headers`: the range of what was accepted, from the first byte.
unfoldable pub set_upload_headers :
    (ℕ → Bytes) → Bytes → ℕ → ℕ → Response → Result AppError Response
unfolding upload_location
set_upload_headers uuid_text repository id offset response = do
  located ← insert_header location (upload_location uuid_text repository id) response
  named ← insert_header docker_upload_uuid (uuid_text id) located
  if ltb 0 offset then insert_header range (codes "0-" ++ decimal (offset - 1)) named else ok named
