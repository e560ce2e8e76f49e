-- ===== src/Lib.antt =====
-- The container registry jcr: its shared data (crates/jcr-core), its server (crates/jcrd) and its client (crates/jcr).
--
-- Parts, and how they work together. A request on /v2/ is routed to an endpoint, authorized against the database
-- and the token that it carries, and handled. Handlers run statements on PostgreSQL and calls of an object store.
-- A blob is uploaded in chunks to a session, completed, hashed and committed; a manifest names committed blobs and
-- other manifests, and is stored with its tag in one transaction. The client uploads the blobs of an image in chunks,
-- resumes what was cut off, and then puts the manifests.
--
--   Prelude    shared names, lists of bytes, results
--   Text       what the code uses of str: split_once, split, strip_prefix, parsing and printing of integers
--   Digest     crates/jcr-core/src/digest.rs
--   Reference  crates/jcr-core/src/reference.rs
--   Scope      crates/jcr-core/src/auth.rs
--   Manifest   crates/jcr-core/src/manifest.rs; JSON is the parameter Json
--   Storage    crates/jcr-core/src/storage.rs; a store is a record of operations on a state of its own
--   Server     crates/jcrd/src:
--     Error       error.rs, the statuses and codes of errors
--     Endpoint    registry.rs, parse_endpoint and the names and tags it accepts
--     Database    migrations/0001_initial.sql, tables as lists of rows, and the SQL statements on them
--     Exec        handlers as state passing over the database and the store, with transactions;
--                 Exec/Keeps and Exec/Returns hold the rules by which handlers are proved
--     Types       db.rs and registry.rs, users, repositories, requests and responses
--     Range       registry.rs, validate_content_range and set_upload_headers
--     Session     registry.rs, fetch_upload, persist_part and the other statements on upload sessions
--     Upload      registry.rs, patch_upload, upload_status, cancel_upload
--     Commit      registry.rs, complete_upload with hash_stored_blob and commit_blob
--     Manifests   registry.rs, put_manifest, get_manifest, delete_manifest; Manifests/Statements their statements
--     Start       registry.rs and db.rs, start_upload, mount_blob, ensure_repository_for_push
--     Reads       registry.rs, get_blob, list_tags
--     Dispatch    registry.rs, dispatch
--     Access      db.rs, find_repository, authorize_repository, authorize_repository_name
--     Auth        auth.rs and db.rs, authenticate and validate_pat
--     Token       auth.rs, token
--     Authorize   registry.rs and auth.rs, authorize and challenge_response
--     Gc          gc.rs, run_once
--     Accounts    db.rs, user names, registration, personal access tokens, browser sessions
--   Client     crates/jcr/src:
--     Exec        registry.rs and resume.rs, the state of the client and what it calls; Runs holds the rules of its proofs
--     Ranges      registry.rs, parse_range_offset, content_range, transient; Ranges/Agreement is about both sides
--     Requests    registry.rs, blob_exists, start_upload, patch_upload, complete_upload, put_manifest and their retries
--     Login       registry.rs, normalize_registry, discover_challenge, for_push, validate_login; Web stands for URLs
--     Registry    what the client relies on of a registry
--     Upload      registry.rs, upload_blob and push; image.rs, the data of a prepared image
--   Tests      runs on a small registry with a store in memory, and of the client against a registry that loses answers
--
-- Conventions. Text and bodies are lists of bytes. A UUID is a number, a time a number of seconds, and the time of a
-- request is an argument of its handler. Integers of PostgreSQL are natural numbers with their limits written out
-- where a statement can exceed them. A statement that a constraint can refuse returns no database, and its handler
-- fails with a database error. An error inside a transaction restores the database, not the object store. Every loop
-- is a structural recursion, but for the one over the chunks of a file in upload_blob: its fuel is the size of the
-- file divided by the size of a chunk, and one, which is enough since each round sends a chunk. CHUNK_SIZE is the
-- parameter chunk_size. The client sums and subtracts offsets of 64 bits as a release build does, with wrap-around;
-- its uploads, which the source runs several at a time, follow one another, and the delays between attempts are left
-- out.
--
-- Parameters. BlobStore stands for an implementation of the trait; ReportsParts says that it reports of a part the
-- number it was given and the size of its bytes. Platform stands for UUIDs, SHA-256 in hexadecimal, regular
-- expressions, the order and LOWER of text in PostgreSQL and the encoding of queries, Credentials for base64, UTF-8,
-- password hashes and signed tokens, Json for serde_json. Environment stands for HTTP, URLs and the file of resumable
-- uploads of the client; IsFaithful says that the registry behind it appends chunks at their offset, answers questions
-- at the URLs of its uploads with what they hold, and stores under a digest what is completed with it and nothing
-- else, while any request and any answer may be lost. It does not say that the registry checks a digest. Requests are modelled
-- one at a time: the row locks of the code are what makes two of them follow each other.
--
-- Not modelled: the timer of the garbage collection, the web interface, configuration and start-up, the S3 store, and
-- of the client its files of credentials, its command line and the reading of image archives. Messages of errors,
-- time stamps that no code reads back and the details of audit events are left out.
pub mod Prelude
pub mod Text
pub mod Digest
pub mod Reference
pub mod Scope
pub mod Manifest
pub mod Storage
pub mod Server
pub mod Client
pub mod Tests
