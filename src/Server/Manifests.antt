-- ===== src/Server/Manifests.antt =====
-- crates/jcrd/src/registry.rs, lines 751-938 and 1000-1204: manifests and tags.
pub mod Deletes
pub mod Statements
pub mod Tags
pub mod Held
pub mod Sessions
pub mod Resolves
unfoldable pub use Statements.*
use jcr.Prelude.{
  ℕ, zero, suc, ◌+◌, ◌-◌, ◌*◌, ◌/◌, ◌%◌, ◌^◌, ◌≤◌, ◌<◌, String, ◌≡◌, refl, sym, ap, ◌∙◌, ◌≢◌, ◌↔◌,
  ◌⊎◌, inl, inr, Bool, true, false, not, ◌&&◌, ◌||◌, Option, none, some, List, [], ◌∷◌, ◌++◌, map,
  reverse, arith, ltb, leb, ◌==◌, ==_iff, if◌then◌else◌, Bool-cases, Option-cases, &&-eq-true,
  ||-eq-false, length, all, any, is_empty, length-append, all-append, any-append, Bytes, codes,
  bytes_eq, bytes_eq_refl, eq_of_bytes_eq, bytes_eq_iff, Result, ok, err, ok_or, is_ok, to_option,
  map_err, ok-injective, Result-cases, All, All-concat,
}
use jcr.Text.{is_ascii_digit, is_ascii_lowercase}
use jcr.Text.Decimal.{ℤ, pos, negsuc, decimal}
use jcr.Digest
use jcr.Digest.{Digest, digest_eq}
use jcr.Manifest.{
  Json, Entry, ManifestDocument, DescriptorRelationship, Descriptor, parse, config, layer, manifest,
  subject,
}
use jcr.Server.Error.{AppError, oci, denied, internal}
use jcr.Server.Types.{
  User, Repository, full_name, Authorized, Headers, HeaderName, Body, Response, Platform, Payload,
  registry_response, read_body, require_repository, insert_header, location, docker_content_digest,
  content_type, content_length, raw, to_str,
}
use jcr.Server.Database.{Database}
use jcr.Server.Database.Rows.{
  ManifestRow, RepositoryManifest, DescriptorEdge, Tag, TagEvent, Relationship,
}
use jcr.Server.Database.Tables.{find, select, update, delete, exists, insert, insert_new, upsert}
use jcr.Server.Exec.{World, Exec, pure, throw, lift, gets, fetch, transaction, modify, ◌>>=◌, ◌>>◌}
use jcr.Server.Access.{is_none}
use jcr.Server.Range.{is_int}
use jcr.Server.Endpoint.{validate_tag}
use jcr.Server.Commit.{is_committed, has_digest, insert_audit}

abbrev pub manifest_limit : ℕ
manifest_limit = 8 * 1024 * 1024

abbrev pub is_digest_reference : Bytes → Bool
is_digest_reference reference = is_ok (Digest.from_str reference)

module _ {S : Type 0} (platform : Platform) where
  -- the tag's part of the transaction
  unfoldable pub point_tag : Repository → ℕ → Bytes → Bytes → Exec S (Unit {0})
  point_tag repository actor reference digest = do
    lift (validate_tag reference)
    previous ← gets (tag_digest repository.id reference)
    lift (check_immutable platform repository.immutable_tag_pattern reference previous digest)
    modify (set_tag repository.id reference digest)
    if is_same previous digest
        then pure tt
        else modify (insert_tag_event repository.id reference previous (some digest) actor)

  unfoldable pub persist_transaction :
      ℕ → Repository → ℕ → Bytes → ManifestDocument → Exec S (Unit {0})
  persist_transaction now repository actor reference m = do
    modify (store_manifest now repository.id m)
    if is_digest_reference reference
        then pure tt
        else point_tag repository actor reference (Digest.to_string m.digest)

  unfoldable pub persist_manifest :
      ℕ → Repository → ℕ → Bytes → ManifestDocument → Exec S (Unit {0})
  persist_manifest now repository actor reference m = do
    transaction (persist_transaction now repository actor reference m)
    modify (
        insert_audit (some actor) "manifest.pushed" (some repository.id) (some "manifest")
          (some (Digest.to_string m.digest)))

abbrev pub named_digest : {E : Type 0} → Result E Digest → Digest → Result AppError (Unit {0})
named_digest (err e) actual = ok tt
named_digest (ok d) actual = if digest_eq d actual then ok tt else err (oci 400 "DIGEST_INVALID")

-- A reference that is a digest is the digest of the bytes.
unfoldable pub check_reference : Bytes → Digest → Result AppError (Unit {0})
check_reference reference actual = named_digest (Digest.from_str reference) actual

abbrev pub parsed_manifest :
    {E : Type 0} → Result E ManifestDocument → Result AppError ManifestDocument
parsed_manifest (ok m) = ok m
parsed_manifest (err e) = err (oci 400 "MANIFEST_INVALID")

module _ {S Value : Type 0} (library : Json Value) (platform : Platform) where
  unfoldable pub put_manifest : ℕ → Authorized → Bytes → Headers → Body → Exec S Response
  put_manifest now authorized reference headers body = do
    repository ← lift (require_repository authorized.repository)
    actor ← lift (ok_or authorized.user denied)
    bytes ← lift (read_body body headers manifest_limit)
    m ←
        lift
          (parsed_manifest (parse library platform.hex_sha256 bytes (to_str headers.content_type)))
    lift (check_reference reference m.digest)
    checked ← gets (validate_manifest_dependencies repository.id m.descriptors)
    lift checked
    persist_manifest platform now repository actor.id reference m
    response ← lift (
        insert_header location
          (codes "/v2/"
            ++ (full_name repository ++ (codes "/manifests/" ++ Digest.to_string m.digest)))
          (registry_response 201))
    lift (insert_header docker_content_digest (Digest.to_string m.digest) response)

abbrev pub live_row : ℕ → Database → Option Bytes → Option ManifestRow
live_row repository_id db none = none
live_row repository_id db (some digest) =
    if is_live repository_id digest db
    then find (λ m. bytes_eq m.digest digest) db.manifests
    else none

-- the two queries of `get_manifest`
unfoldable pub lookup_manifest : ℕ → Bytes → Database → Option ManifestRow
lookup_manifest repository_id reference db =
    if is_digest_reference reference
    then live_row repository_id db (some reference)
    else live_row repository_id db (tag_digest repository_id reference db)

abbrev pub deleted_events : ℕ → ℕ → Bytes → List Tag → Database → Database
deleted_events repository_id actor digest [] db = db
deleted_events repository_id actor digest (t ∷ tags) db =
    deleted_events repository_id actor digest tags
      (insert_tag_event repository_id t.name (some digest) none actor db)

abbrev pub points_to : ℕ → Bytes → Tag → Bool
points_to repository_id digest t =
    t.repository_id == repository_id && bytes_eq t.manifest_digest digest

unfoldable pub unlink_manifest : ℕ → ℕ → Bytes → Database → Database
unlink_manifest now repository_id digest db = record db {
  repository_manifests =
      update (λ r. is_link repository_id digest r && is_none r.deleted_at)
        (λ r. record r { deleted_at = some now }) db.repository_manifests;
}

unfoldable pub delete_tags : ℕ → Bytes → Database → Database
delete_tags repository_id digest db = record db {
  tags = delete (points_to repository_id digest) db.tags;
}

abbrev pub by_digest : {E : Type 0} → Result E Digest → Result AppError Digest
by_digest (ok d) = ok d
by_digest (err e) = err (oci 400 "DIGEST_INVALID")

module _ {S : Type 0} where
  unfoldable pub get_manifest : Authorized → Bytes → Bool → Exec S Response
  get_manifest authorized reference head_only = do
    repository ← lift (require_repository authorized.repository)
    row ← fetch (lookup_manifest repository.id reference) (oci 404 "MANIFEST_UNKNOWN")
    typed ← lift (
        insert_header content_type row.media_type (
          if head_only
          then registry_response 200
          else record (registry_response 200) { body = raw row.payload }))
    sized ← lift (insert_header content_length (decimal (length row.payload)) typed)
    lift (insert_header docker_content_digest row.digest sized)

  unfoldable pub delete_transaction : ℕ → ℕ → ℕ → Bytes → Exec S (Unit {0})
  unfolding insert_tag_event
  delete_transaction now repository_id actor digest = do
    changed ← gets (is_live repository_id digest)
    if not changed then throw (oci 404 "MANIFEST_UNKNOWN") else do
      modify (unlink_manifest now repository_id digest)
      tags ← gets (λ db. select (points_to repository_id digest) db.tags)
      modify (delete_tags repository_id digest)
      modify (deleted_events repository_id actor digest tags)

  unfoldable pub delete_manifest : ℕ → Authorized → Bytes → Exec S Response
  delete_manifest now authorized reference = do
    repository ← lift (require_repository authorized.repository)
    actor ← lift (ok_or authorized.user denied)
    digest ← lift (by_digest (Digest.from_str reference))
    transaction (delete_transaction now repository.id actor.id (Digest.to_string digest))
    modify (
        insert_audit (some actor.id) "manifest.deleted" (some repository.id) (some "manifest")
          (some (Digest.to_string digest)))
    pure (registry_response 202)
