-- ===== src/Server/Session.antt =====
-- crates/jcrd/src/registry.rs, lines 95-106, 1206-1340 and 1450-1461: the statements on upload
-- sessions and their parts.
pub mod Invariant
pub mod Steps
pub mod Limits
pub mod Parts
use jcr.Prelude.{
  ℕ, zero, suc, ◌+◌, ◌-◌, ◌*◌, ◌/◌, ◌%◌, ◌^◌, ◌≤◌, ◌<◌, String, ◌≡◌, refl, sym, ap, ◌∙◌, ◌≢◌, ◌↔◌,
  ◌⊎◌, inl, inr, Bool, true, false, not, ◌&&◌, ◌||◌, Option, none, some, List, [], ◌∷◌, ◌++◌, map,
  reverse, arith, ltb, leb, ◌==◌, ==_iff, if◌then◌else◌, Bool-cases, Option-cases, &&-eq-true,
  ||-eq-false, length, all, any, is_empty, length-append, all-append, any-append, Bytes, codes,
  bytes_eq, bytes_eq_refl, eq_of_bytes_eq, bytes_eq_iff, Result, ok, err, ok_or, is_ok, to_option,
  map_err, ok-injective, All, All-concat,
}
use jcr.Storage.{StorageUpload, CompletedPart}
use jcr.Server.Error.{AppError, oci}
use jcr.Server.Database.{Database}
use jcr.Server.Database.Rows.{UploadSession, UploadPart, UploadStatus}
use jcr.Server.Database.Tables.{find, select, update, exists, insert, order_by}

-- `UploadRecord`: the row, and the size of the part with the greatest number.
pub record UploadRecord : Type 0 where
  pub session : UploadSession
  pub last_part_size : Option ℕ

abbrev pub parts_of : ℕ → List UploadPart → List UploadPart
parts_of id parts = select (λ p. p.upload_id == id) parts

-- `ORDER BY part_number DESC LIMIT 1`
unfoldable pub greatest : List UploadPart → Option UploadPart
greatest [] = none
greatest (p ∷ ps) = elim (greatest ps) [
  | none ↦ some p
  | some q ↦ if ltb q.part_number p.part_number then some p else some q
]

abbrev pub size_of : Option UploadPart → Option ℕ
size_of none = none
size_of (some p) = some p.size

abbrev pub is_session : ℕ → ℕ → UploadSession → Bool
is_session repository_id id u = u.id == id && u.repository_id == repository_id

abbrev pub as_record : Database → Option UploadSession → Option UploadRecord
as_record db none = none
as_record db (some u) =
    some
      (record { session = u; last_part_size = size_of (greatest (parts_of u.id db.upload_parts)) })

-- `lock_upload` and `fetch_upload`, which differ in the lock alone
unfoldable pub fetch_upload : ℕ → ℕ → Database → Option UploadRecord
fetch_upload repository_id id db =
    as_record db (find (is_session repository_id id) db.upload_sessions)

abbrev pub upload_unknown : AppError
upload_unknown = oci 404 "BLOB_UPLOAD_UNKNOWN"

abbrev pub is_uploading : UploadStatus → Bool
is_uploading UploadStatus.uploading = true
is_uploading _ = false

unfoldable pub validate_upload : ℕ → UploadRecord → Result AppError (Unit {0})
validate_upload now u =
    if not (is_uploading u.session.status) || leb u.session.expires_at now
    then err upload_unknown
    else ok tt

abbrev pub max_bigint : ℕ
max_bigint = 2 ^ 63 - 1

abbrev pub max_integer : ℕ
max_integer = 2 ^ 31 - 1

-- the `CASE` of the update
abbrev pub established : Bool → ℕ → Option ℕ → Option ℕ
established true size none = some size
established false size none = none
established flag size (some uniform) = some uniform

unfoldable pub advance : ℕ → Bool → UploadSession → UploadSession
advance size establish_uniform_size u = record u {
  accepted_offset = u.accepted_offset + size;
  next_part_number = u.next_part_number + 1;
  uniform_part_size = established establish_uniform_size size u.uniform_part_size;
}

abbrev pub part_row : ℕ → CompletedPart → UploadPart
part_row id part = record {
  upload_id = id;
  part_number = part.part_number;
  etag = part.etag;
  size = part.size;
}

-- whether the statement sets the uniform size
abbrev pub sets_size : Bool → Option ℕ → Bool
sets_size establish_uniform_size none = establish_uniform_size
sets_size establish_uniform_size (some s) = false

-- The values that the columns hold: positive numbers, and a positive uniform size, where this statement sets it.
abbrev fits : ℕ → Bool → UploadSession → Bool
fits size establish_uniform_size u =
    leb (u.accepted_offset + size) max_bigint
    && (leb (u.next_part_number + 1) max_integer
        && (ltb 0 size || not (sets_size establish_uniform_size u.uniform_part_size)))

-- The primary key, the ranges and the checks of the columns refuse the two statements.
unfoldable pub is_refused : ℕ → CompletedPart → Bool → Database → Bool
is_refused id part establish_uniform_size db =
    exists (λ p. p.upload_id == id && p.part_number == part.part_number) db.upload_parts
    || (not (ltb 0 part.part_number)
        || any (λ u. u.id == id && not (fits part.size establish_uniform_size u))
            db.upload_sessions)

abbrev pub persisted : ℕ → CompletedPart → Bool → Database → Database
persisted id part establish_uniform_size db = record db {
  upload_parts = insert (part_row id part) db.upload_parts;
  upload_sessions =
      update (λ u. u.id == id) (advance part.size establish_uniform_size) db.upload_sessions;
}

unfoldable pub persist_part : UploadRecord → CompletedPart → Bool → Database → Option Database
unfolding is_refused advance
persist_part upload part establish_uniform_size db =
    if is_refused upload.session.id part establish_uniform_size db
    then none
    else some (persisted upload.session.id part establish_uniform_size db)

unfoldable pub set_status : ℕ → UploadStatus → Database → Database
set_status id status db = record db {
  upload_sessions = update (λ u. u.id == id) (λ u. record u { status = status }) db.upload_sessions;
}

-- `WHERE id = $1 AND status = 'uploading'`
unfoldable pub cancel_session : ℕ → Database → Database
cancel_session id db = record db {
  upload_sessions =
      update (λ u. u.id == id && is_uploading u.status)
        (λ u. record u { status = UploadStatus.cancelled }) db.upload_sessions;
}

abbrev as_completed : UploadPart → CompletedPart
as_completed p = record { part_number = p.part_number; etag = p.etag; size = p.size }

-- `upload_parts`: in the order of their numbers
unfoldable pub upload_parts : ℕ → Database → List CompletedPart
upload_parts id db =
    map as_completed
      (order_by (λ p q. leb p.part_number q.part_number) (parts_of id db.upload_parts))

unfoldable pub storage_upload : UploadRecord → StorageUpload
storage_upload u = record { key = u.session.object_key; upload_id = u.session.storage_upload_id }
