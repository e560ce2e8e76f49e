-- ===== src/Server/Endpoint.antt =====
-- crates/jcrd/src/registry.rs, lines 33-81 and 187-271: the routes of the OCI API.
pub mod Laws
use jcr.Prelude.{
  ℕ, zero, suc, ◌+◌, ◌-◌, ◌*◌, ◌/◌, ◌%◌, ◌^◌, ◌≤◌, ◌<◌, String, ◌≡◌, refl, sym, ap, ◌∙◌, ◌≢◌, ◌↔◌,
  ◌⊎◌, inl, inr, Bool, true, false, not, ◌&&◌, ◌||◌, Option, none, some, List, [], ◌∷◌, ◌++◌, map,
  reverse, arith, ltb, leb, ◌==◌, ==_iff, if◌then◌else◌, Bool-cases, Option-cases, &&-eq-true,
  ||-eq-false, length, all, any, is_empty, length-append, all-append, any-append, Bytes, codes,
  bytes_eq, bytes_eq_refl, eq_of_bytes_eq, bytes_eq_iff, Result, ok, err, ok_or, is_ok, to_option,
  ◌>>=◌, ◌>>◌, >>=-eq-ok, map_err,
}
use jcr.Text.{
  contains, split, split_once_at, strip_suffix, is_name_part, is_ascii_lowercase,
  is_ascii_uppercase, is_ascii_digit,
}
use jcr.Scope.{AccessAction, pull, push, delete}
use jcr.Server.Error.{AppError, oci}

pub data Endpoint : Type 0 where
  blob : Bytes → Bytes → Endpoint
  upload_start : Bytes → Endpoint
  upload : Bytes → Bytes → Endpoint
  manifest : Bytes → Bytes → Endpoint
  tags : Bytes → Endpoint

pub data Method : Type 0 where
  get head post patch put delete_method other_method : Method

unfoldable pub repository : Endpoint → Bytes
repository (blob r digest) = r
repository (upload_start r) = r
repository (upload r id) = r
repository (manifest r reference) = r
repository (tags r) = r

abbrev is_read : Method → Bool
is_read get = true
is_read head = true
is_read _ = false

abbrev is_upload_method : Method → Bool
is_upload_method post = true
is_upload_method patch = true
is_upload_method put = true
is_upload_method get = true
is_upload_method delete_method = true
is_upload_method _ = false

abbrev when_some {ℓ} : {A : Type ℓ} → Bool → A → Option A
when_some true a = some a
when_some false a = none

-- The action that a request needs, or none for a method that the endpoint does not serve.
unfoldable pub action : Endpoint → Method → Option AccessAction
action (blob r digest) m = when_some (is_read m) pull
action (tags r) m = when_some (is_read m) pull
action (upload_start r) m = when_some (is_upload_method m) push
action (upload r id) m = when_some (is_upload_method m) push
action (manifest r reference) put = some push
action (manifest r reference) delete_method = some delete
action (manifest r reference) m = when_some (is_read m) pull

unfoldable pub is_valid_repository : Bytes → Bool
is_valid_repository r = contains b'/' r && all is_name_part (split b'/' r)

unfoldable pub validate_repository : Bytes → Result AppError (Unit {0})
validate_repository r = if is_valid_repository r then ok tt else err (oci 400 "NAME_INVALID")

unfoldable pub uploads_infix : Bytes
uploads_infix = codes "/blobs/uploads/"

unfoldable pub uploads_suffix : Bytes
uploads_suffix = codes "/blobs/uploads"

unfoldable pub blobs_infix : Bytes
blobs_infix = codes "/blobs/"

unfoldable pub manifests_infix : Bytes
manifests_infix = codes "/manifests/"

unfoldable pub tags_suffix : Bytes
tags_suffix = codes "/tags/list"

-- the branch of an upload route
unfoldable pub upload_endpoint : Bytes → Bytes → Result AppError Endpoint
upload_endpoint r suffix = do
  validate_repository r
  if is_empty suffix
      then ok (upload_start r)
      else if not (contains b'/' suffix)
      then ok (upload r suffix)
      else err (oci 404 "BLOB_UPLOAD_UNKNOWN")

-- the branch of a manifest route
unfoldable pub manifest_endpoint : Bytes → Bytes → Result AppError Endpoint
manifest_endpoint r reference = do
  validate_repository r
  if is_empty reference || contains b'/' reference
      then err (oci 400 "MANIFEST_INVALID")
      else ok (manifest r reference)

-- the last branch
unfoldable pub tags_endpoint : Option Bytes → Result AppError Endpoint
tags_endpoint none = err (oci 404 "NAME_UNKNOWN")
tags_endpoint (some r) = do validate_repository r; ok (tags r)

unfoldable pub parse_endpoint : Bytes → Result AppError Endpoint
parse_endpoint path = elim (split_once_at uploads_infix path) [
  | some (r, suffix) ↦ upload_endpoint r suffix
  | none ↦ elim (strip_suffix uploads_suffix path) [
    | some r ↦ do validate_repository r; ok (upload_start r)
    | none ↦ elim (split_once_at blobs_infix path) [
      | some (r, digest) ↦ do validate_repository r; ok (blob r digest)
      | none ↦ elim (split_once_at manifests_infix path) [
        | some (r, reference) ↦ manifest_endpoint r reference
        | none ↦ tags_endpoint (strip_suffix tags_suffix path)
      ]
    ]
  ]
]

abbrev is_ascii_alphanumeric : ℕ → Bool
is_ascii_alphanumeric b = is_ascii_lowercase b || (is_ascii_uppercase b || is_ascii_digit b)

abbrev is_tag_byte : ℕ → Bool
is_tag_byte b = is_ascii_alphanumeric b || (b == b'_' || (b == b'.' || b == b'-'))

-- The separators are refused at index 0.
abbrev is_tag_text : Bytes → Bool
is_tag_text [] = true
is_tag_text (b ∷ s) = is_ascii_alphanumeric b && all is_tag_byte s

unfoldable pub is_valid_tag : Bytes → Bool
is_valid_tag tag = not (is_empty tag) && (leb (length tag) 128 && is_tag_text tag)

unfoldable pub validate_tag : Bytes → Result AppError (Unit {0})
unfolding is_valid_tag
validate_tag tag = if is_valid_tag tag then ok tt else err (oci 400 "TAG_INVALID")
