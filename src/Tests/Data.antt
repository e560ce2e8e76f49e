-- ===== src/Tests/Data.antt =====
-- A small registry for the tests: a store that keeps what it is sent in memory, a hash that counts, and a
-- database with one user, one repository and one upload.
use jcr.Prelude.{
  ℕ, zero, suc, ◌+◌, ◌%◌, not, ◌&&◌, none, some, List, [], ◌∷◌, ◌++◌, map, ltb, leb, if◌then◌else◌,
  length, is_empty, Bytes, codes, bytes_eq, Result, ok,
}
use jcr.Storage.{BlobStore, StorageError}
use jcr.Digest.{Digest}
use jcr.Server.Types.{User, Repository, Authorized, Headers, Query, Platform}
use jcr.Server.Database.{Database}
use jcr.Server.Database.Rows.{
  InstanceRole, NamespaceRole, Visibility, UploadStatus, RegistrationMode, UserRow, RepositoryRow,
  UploadSession,
}
use jcr.Server.Exec.{World}
use jcr.Server.Upload.{Config}

-- every chunk that was sent, with its key
abbrev pub Memory : Type 0
Memory = List (Bytes × Bytes)

abbrev pub at_key : Bytes → Memory → List (Result StorageError Bytes)
at_key key [] = []
at_key key ((k, bytes) ∷ s) =
    let rest = at_key key s in if bytes_eq k key then ok bytes ∷ rest else rest

abbrev pub without_key : Bytes → Memory → Memory
without_key key [] = []
without_key key ((k, bytes) ∷ s) =
    let rest = without_key key s in if bytes_eq k key then rest else (k, bytes) ∷ rest

abbrev pub memory : BlobStore Memory
memory = record {
  initiate_upload = λ key s. (ok (record { key = key; upload_id = codes "u" }), s);
  upload_part = λ upload number bytes s. (
    ok (record { part_number = number; etag = []; size = length bytes }),
    s ++ (upload.key, bytes) ∷ [],
  );
  complete_upload = λ upload parts s. (ok tt, s);
  abort_upload = λ upload s. (ok tt, s);
  put = λ key bytes s. (ok tt, s ++ (key, bytes) ∷ []);
  exists = λ key s. (ok (not (is_empty (at_key key s))), s);
  stream = λ key s. (ok (at_key key s), s);
  signed_get_url = λ key seconds s. (ok none, s);
  delete = λ key s. (ok tt, without_key key s);
}

abbrev pub digits : ℕ → ℕ → Bytes
digits zero d = []
digits (suc n) d = (48 + d) ∷ digits n d

-- 64 times the last digit of the length
abbrev pub counting_hash : Bytes → Bytes
counting_hash bytes = digits 64 (length bytes % 10)

abbrev pub lower_byte : ℕ → ℕ
lower_byte b = if leb 65 b && leb b 90 then b + 32 else b

abbrev pub platform : Platform
platform = record {
  parse_uuid = λ text. if bytes_eq text (codes "seven") then some 7 else none;
  uuid_text = λ id. codes "seven";
  hex_sha256 = counting_hash;
  regex_match = λ pattern text. some (bytes_eq pattern text);
  precedes = λ s t. ltb (length s) (length t);
  encode_pairs = λ pairs. [];
  lower = λ text. map lower_byte text;
}

abbrev pub ada : UserRow
ada = record {
  id = 1;
  username = codes "ada";
  display_name = none;
  primary_email = codes "ada@example.org";
  instance_role = InstanceRole.user;
  disabled_at = none;
}

abbrev pub ada_user : User
ada_user = record {
  id = 1;
  username = codes "ada";
  display_name = none;
  primary_email = codes "ada@example.org";
  instance_role = InstanceRole.user;
}

abbrev pub tool_row : RepositoryRow
tool_row = record {
  id = 3;
  namespace_id = 2;
  name = codes "tool";
  visibility = Visibility.private_visibility;
  immutable_tag_pattern = none;
  deleted_at = none;
}

abbrev pub tool : Repository
tool = record {
  id = 3;
  namespace_id = 2;
  namespace = codes "ada";
  name = codes "tool";
  visibility = Visibility.private_visibility;
  immutable_tag_pattern = none;
}

abbrev pub session : UploadSession
session = record {
  id = 7;
  repository_id = 3;
  actor_user_id = 1;
  object_key = codes "uploads/seven";
  storage_upload_id = codes "u";
  accepted_offset = 0;
  next_part_number = 1;
  uniform_part_size = none;
  status = UploadStatus.uploading;
  expires_at = 1000;
}

abbrev pub db : Database
db = record {
  registration_mode = RegistrationMode.closed;
  users = ada ∷ [];
  verified_identities = [];
  registration_entries = [];
  namespaces = record { id = 2; name = codes "ada"; owner_user_id = 1 } ∷ [];
  namespace_memberships = record { namespace_id = 2; user_id = 1; role = NamespaceRole.admin } ∷ [];
  repositories = tool_row ∷ [];
  repository_permissions = [];
  personal_access_tokens = [];
  browser_sessions = [];
  blobs = [];
  repository_blobs = [];
  manifests = [];
  repository_manifests = [];
  descriptor_edges = [];
  tags = [];
  tag_events = [];
  upload_sessions = session ∷ [];
  upload_parts = [];
  audit_events = [];
}

abbrev pub world : World Memory
world = record { db = db; store = [] }

abbrev pub config : Config
config = record { upload_chunk_limit = 8; upload_session_hours = 24; gc_grace_days = 7 }

abbrev pub authorized : Authorized
authorized = record { repository = some tool; user = some ada_user }

abbrev pub no_headers : Headers
no_headers = record {
  content_range = none;
  content_length = none;
  content_type = none;
  authorization = none;
}

-- the digest of five bytes
abbrev pub five : Digest
five = record { algorithm = codes "sha256"; encoded = digits 64 5 }

abbrev pub query : Query
query = record {
  digest = some (codes "sha256:" ++ digits 64 5);
  mount = none;
  from_name = none;
  n = none;
  last = none;
}
