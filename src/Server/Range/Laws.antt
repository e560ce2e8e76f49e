-- ===== src/Server/Range/Laws.antt =====
-- registry.rs, validate_content_range, on the header that the client sends.
use jcr.Prelude.{
  ℕ, ◌+◌, ◌-◌, ◌^◌, ◌<◌, ◌≡◌, refl, ◌∙◌, false, none, some, [], ◌∷◌, ◌++◌, arith, ◌==◌,
  if◌then◌else◌, any-append, Bytes, codes, ok, err,
}
use jcr.Text.{contains, strip_prefix}
use jcr.Text.Splitting.{split_once-append, split-none}
use jcr.Text.Decimal.{pos, decimal}
use jcr.Text.Decimal.Laws.{
  parse_i64-decimal, contains-decimal, decimal-StartsWithDigit, StartsWithDigit,
}
use jcr.Server.Error.{oci}
use jcr.Server.Range.{range_text, is_next_range, check_range, validate_content_range}

-- `format!("{offset}-{end}")` of the client
abbrev pub range_header : ℕ → ℕ → Bytes
range_header start end = decimal start ++ b'-' ∷ decimal end

slash_in_header : (start end : ℕ) → contains b'/' (range_header start end) ≡ false
slash_in_header start end = rw (
  any-append (λ b. b == b'/') (decimal start) (b'-' ∷ decimal end),
  contains-decimal b'/' start refl,
  contains-decimal b'/' end refl,
)

no_prefix : (s t : Bytes) → StartsWithDigit s → strip_prefix (codes "bytes ") (s ++ t) ≡ none
unfolding strip_prefix
no_prefix [] t d = absurd d
no_prefix (b ∷ s) t d = let other : b'b' == b ≡ false = ground arith in rw other

range_text-range_header :
    (start end : ℕ) → range_text (range_header start end) ≡ range_header start end
unfolding range_text
range_text-range_header start end = rw (
  no_prefix (decimal start) (b'-' ∷ decimal end) (decimal-StartsWithDigit start),
  split-none b'/' (range_header start end) (slash_in_header start end),
)

check_range-range_header :
    (start end expected_offset body_len : ℕ)
    → start < 2 ^ 63
    → end < 2 ^ 63
    → check_range (range_header start end) expected_offset body_len ≡ (
        if is_next_range (pos start) (pos end) expected_offset body_len
        then ok tt
        else err (oci 416 "BLOB_UPLOAD_INVALID"))
unfolding check_range
check_range-range_header start end expected_offset body_len h k = rw (
  range_text-range_header start end,
  split_once-append b'-' (decimal start) (decimal end) (contains-decimal b'-' start refl),
  parse_i64-decimal start h,
  parse_i64-decimal end k,
)

-- The header that the client sends for a chunk of `size` bytes at `offset` is accepted exactly if
-- the server expects that offset, and is refused with 416 otherwise.
pub validate_content_range-chunk :
    (offset size expected_offset : ℕ)
    → 0 < size
    → offset + size < 2 ^ 63
    → validate_content_range
        (some (some (range_header offset (offset + size - 1))))
        expected_offset
        size
      ≡ (if offset == expected_offset then ok tt else err (oci 416 "BLOB_UPLOAD_INVALID"))
unfolding validate_content_range is_next_range
validate_content_range-chunk offset size expected_offset h k =
    check_range-range_header offset (offset + size - 1) expected_offset size (omega arith)
      (omega arith)
    ∙ ground arith
