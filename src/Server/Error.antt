-- ===== src/Server/Error.antt =====
-- crates/jcrd/src/error.rs: the errors of the server, with the status and the OCI code that they
-- are answered by. The messages, which are text for people, are left out.
use jcr.Prelude.{ℕ, String, Bool, ◌&&◌, ltb, leb}

-- An HTTP status code is its number.
abbrev pub StatusCode : Type 0
StatusCode = ℕ

pub data AppError : Type 0 where
  oci : StatusCode → String → AppError
  bad_request unauthorized denied not_found conflict payload_too_large : AppError
  database storage internal : AppError

unfoldable pub status : AppError → StatusCode
status (oci s code) = s
status bad_request = 400
status unauthorized = 401
status denied = 403
status not_found = 404
status conflict = 409
status payload_too_large = 413
status database = 500
status storage = 500
status internal = 500

unfoldable pub oci_code : AppError → String
oci_code (oci s code) = code
oci_code bad_request = "BLOB_UPLOAD_INVALID"
oci_code unauthorized = "UNAUTHORIZED"
oci_code denied = "DENIED"
oci_code not_found = "NAME_UNKNOWN"
oci_code conflict = "MANIFEST_INVALID"
oci_code payload_too_large = "SIZE_INVALID"
oci_code database = "UNKNOWN"
oci_code storage = "UNKNOWN"
oci_code internal = "UNKNOWN"

-- `StatusCode::is_server_error`
abbrev pub is_server_error : StatusCode → Bool
is_server_error s = leb 500 s && ltb s 600
