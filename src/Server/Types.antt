-- ===== src/Server/Types.antt =====
-- What the handlers share: the joined rows of db.rs, requests and responses, and the code of other
-- packages that they call, as parameters.
use jcr.Prelude.{
  ℕ, String, Bool, true, false, not, ◌&&◌, ◌||◌, Option, none, some, List, [], ◌∷◌, ◌++◌, ltb, leb,
  ◌==◌, if◌then◌else◌, length, all, Bytes, codes, Result, ok, err, ok_or,
}
use jcr.Text.Decimal.{parse_u64}
use jcr.Storage.{StorageError}
use jcr.Server.Error.{AppError, oci, internal, status, oci_code}
use jcr.Server.Database.Rows.{InstanceRole, Visibility}

-- `db::User`
pub record User : Type 0 where
  pub id : ℕ
  pub username : Bytes
  pub display_name : Option Bytes
  pub primary_email : Bytes
  pub instance_role : InstanceRole

abbrev pub is_instance_admin : User → Bool
is_instance_admin u = elim u.instance_role [ InstanceRole.admin ↦ true | InstanceRole.user ↦ false ]

-- `db::Repository`
pub record Repository : Type 0 where
  pub id : ℕ
  pub namespace_id : ℕ
  pub namespace : Bytes
  pub name : Bytes
  pub visibility : Visibility
  pub immutable_tag_pattern : Option Bytes

unfoldable pub full_name : Repository → Bytes
full_name r = r.namespace ++ b'/' ∷ r.name

abbrev pub is_public : Repository → Bool
is_public r = elim r.visibility [
  | Visibility.public_visibility ↦ true
  | Visibility.private_visibility ↦ false
]

-- `Authorized`
pub record Authorized : Type 0 where
  pub repository : Option Repository
  pub user : Option User

pub data HeaderName : Type 0 where
  location docker_upload_uuid range docker_content_digest content_type content_length link :
      HeaderName
  api_version www_authenticate : HeaderName

-- The bytes that `HeaderValue::from_str` accepts: no control character but the tab.
abbrev pub is_header_byte : ℕ → Bool
is_header_byte b = b == 9 || (leb 32 b && not (b == 127))

-- The body of a response: bytes, the chunks of a stored object, the JSON of an error by its code, or
-- the JSON of a page of tags.
pub data Payload : Type 0 where
  no_payload : Payload
  raw : Bytes → Payload
  chunks : List (Result StorageError Bytes) → Payload
  oci_errors : String → Payload
  tag_list : Bytes → List Bytes → Payload

pub record Response : Type 0 where
  pub status : ℕ
  pub headers : List (HeaderName × Bytes)
  pub body : Payload

-- `registry_response`
abbrev pub registry_response : ℕ → Response
registry_response code = record {
  status = code;
  headers = (api_version, codes "registry/2.0") ∷ [];
  body = no_payload;
}

-- `into_oci_response`
unfoldable pub into_oci_response : AppError → Response
into_oci_response e = record { status = status e; headers = []; body = oci_errors (oci_code e) }

unfoldable pub insert_header : HeaderName → Bytes → Response → Result AppError Response
insert_header name value response =
    if all is_header_byte value
    then ok (record response { headers = (name, value) ∷ response.headers })
    else err internal

-- The headers that the handlers read, as `to_str` gives them: `none` for one that is absent,
-- `some none` for one with bytes that are no visible ASCII.
abbrev pub HeaderValue : Type 0
HeaderValue = Option (Option Bytes)

pub record Headers : Type 0 where
  pub content_range : HeaderValue
  pub content_length : HeaderValue
  pub content_type : HeaderValue
  pub authorization : HeaderValue

-- The query parameters that the handlers read, decoded.
pub record Query : Type 0 where
  pub digest : Option Bytes
  pub mount : Option Bytes
  pub from_name : Option Bytes
  pub n : Option Bytes
  pub last : Option Bytes

-- A request's body, or a transport that breaks off.
abbrev pub Body : Type 0
Body = Option Bytes

abbrev pub to_str : HeaderValue → Option Bytes
to_str none = none
to_str (some v) = v

abbrev declared_length : HeaderValue → Option ℕ
declared_length v = elim (to_str v) [ none ↦ none | some s ↦ parse_u64 s ]

abbrev is_over : ℕ → Option ℕ → Bool
is_over limit none = false
is_over limit (some n) = ltb limit n

-- `read_body`: the declared length is looked at first, and the body is cut off past the limit.
unfoldable pub read_body : Body → Headers → ℕ → Result AppError Bytes
read_body body headers limit =
    if is_over limit (declared_length headers.content_length)
    then err (oci 413 "SIZE_INVALID")
    else elim body [
      | none ↦ err (oci 413 "SIZE_INVALID")
      | some bytes ↦ if ltb limit (length bytes) then err (oci 413 "SIZE_INVALID") else ok bytes
    ]

unfoldable pub require_repository : Option Repository → Result AppError Repository
require_repository r = ok_or r (oci 404 "NAME_UNKNOWN")

-- Code of other packages that the handlers call.
pub record Platform : Type 0 where
  -- `Uuid::parse_str`, and `Display` of a UUID
  pub parse_uuid : Bytes → Option ℕ
  pub uuid_text : ℕ → Bytes
  -- `hex::encode(Sha256::digest(…))`
  pub hex_sha256 : Bytes → Bytes
  -- `Regex::new` and `is_match`; none for a pattern that is refused
  pub regex_match : Bytes → Bytes → Option Bool
  -- `<` of PostgreSQL on text
  pub precedes : Bytes → Bytes → Bool
  -- `form_urlencoded::Serializer` of pairs
  pub encode_pairs : List (Bytes × Bytes) → Bytes
  -- `LOWER` of PostgreSQL
  pub lower : Bytes → Bytes
