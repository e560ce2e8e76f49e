-- ===== src/Server/Manifests/Statements.antt =====
-- crates/jcrd/src/registry.rs, lines 1013-1046 and 1071-1172: the statements on manifests and tags.
use jcr.Prelude.{
  ℕ, Bool, true, false, not, ◌&&◌, Option, none, some, List, [], ◌∷◌, ◌==◌, if◌then◌else◌, length,
  Bytes, bytes_eq, Result, ok, err,
}
use jcr.Text.Decimal.{ℤ, pos, negsuc}
use jcr.Digest
use jcr.Digest.{Digest, digest_eq}
use jcr.Manifest.{
  Entry, ManifestDocument, DescriptorRelationship, Descriptor, config, layer, manifest, subject,
}
use jcr.Server.Error.{AppError, oci, internal}
use jcr.Server.Types.{Platform}
use jcr.Server.Database.{Database}
use jcr.Server.Database.Rows.{ManifestRow, RepositoryManifest, DescriptorEdge, Tag, Relationship}
use jcr.Server.Database.Tables.{find, exists, insert, insert_new, upsert}
use jcr.Server.Access.{is_none}
use jcr.Server.Range.{is_int}
use jcr.Server.Commit.{is_committed, has_digest}

-- the link of a repository to a manifest that is not deleted
abbrev pub is_link : ℕ → Bytes → RepositoryManifest → Bool
is_link repository_id digest r = r.repository_id == repository_id && bytes_eq r.digest digest

unfoldable pub is_live : ℕ → Bytes → Database → Bool
is_live repository_id digest db =
    exists (λ r. is_link repository_id digest r && is_none r.deleted_at) db.repository_manifests

abbrev pub is_tag : ℕ → Bytes → Tag → Bool
is_tag repository_id name t = t.repository_id == repository_id && bytes_eq t.name name

abbrev pub digest_of_tag : Option Tag → Option Bytes
digest_of_tag none = none
digest_of_tag (some t) = some t.manifest_digest

-- the digest that a tag points to
unfoldable pub tag_digest : ℕ → Bytes → Database → Option Bytes
tag_digest repository_id name db = digest_of_tag (find (is_tag repository_id name) db.tags)

abbrev pub is_negative : ℤ → Bool
is_negative (pos n) = false
is_negative (negsuc n) = true

-- the three queries of `validate_manifest_dependencies`
unfoldable pub is_available : ℕ → Entry → Database → Bool
unfolding is_live
is_available repository_id entry db =
    let digest = Digest.to_string entry.descriptor.digest in
    let blob_there =
      exists (λ r. r.repository_id == repository_id && bytes_eq r.digest digest) db.repository_blobs
      && exists
          (λ b.
            has_digest digest b && (is_committed b.status && is_int entry.descriptor.size b.size))
          db.blobs in
    elim entry.relationship [
      | config ↦ blob_there
      | layer ↦ blob_there
      | manifest ↦ is_live repository_id digest db
      | subject ↦ true
    ]

unfoldable pub validate_manifest_dependencies :
    ℕ → List Entry → Database → Result AppError (Unit {0})
validate_manifest_dependencies repository_id [] db = ok tt
validate_manifest_dependencies repository_id (entry ∷ entries) db =
    let rest = validate_manifest_dependencies repository_id entries db in
    if is_negative entry.descriptor.size
    then err (oci 400 "MANIFEST_INVALID")
    else if not (is_available repository_id entry db)
    then err (oci 400 "MANIFEST_BLOB_UNKNOWN")
    else rest

abbrev pub as_relationship : DescriptorRelationship → Relationship
as_relationship config = Relationship.config
as_relationship layer = Relationship.layer
as_relationship manifest = Relationship.manifest
as_relationship subject = Relationship.subject

abbrev pub same_relationship : Relationship → Relationship → Bool
same_relationship Relationship.config Relationship.config = true
same_relationship Relationship.layer Relationship.layer = true
same_relationship Relationship.manifest Relationship.manifest = true
same_relationship Relationship.subject Relationship.subject = true
same_relationship _ _ = false

abbrev pub edge_of : Bytes → Entry → DescriptorEdge
edge_of digest entry = record {
  parent_digest = digest;
  child_digest = Digest.to_string entry.descriptor.digest;
  relationship = as_relationship entry.relationship;
  position = entry.position;
  media_type = entry.descriptor.media_type;
  size = entry.descriptor.size;
}

-- the primary key of the edges
abbrev pub same_edge : DescriptorEdge → DescriptorEdge → Bool
same_edge e f =
    bytes_eq e.parent_digest f.parent_digest
    && (same_relationship e.relationship f.relationship
        && (e.position == f.position && bytes_eq e.child_digest f.child_digest))

unfoldable pub insert_edges : Bytes → List Entry → List DescriptorEdge → List DescriptorEdge
insert_edges digest [] edges = edges
insert_edges digest (entry ∷ entries) edges =
    let e = edge_of digest entry in insert_edges digest entries (insert_new (same_edge e) e edges)

abbrev pub text_of_subject : Option Descriptor → Option Bytes
text_of_subject none = none
text_of_subject (some d) = some (Digest.to_string d.digest)

abbrev pub manifest_row : ManifestDocument → ManifestRow
manifest_row m = record {
  digest = Digest.to_string m.digest;
  media_type = m.media_type;
  artifact_type = m.artifact_type;
  subject_digest = text_of_subject m.subject_descriptor;
  size = length m.raw;
  payload = m.raw;
}

-- the statements up to the tag: the manifest, its edges, and the link of the repository
unfoldable pub store_manifest : ℕ → ℕ → ManifestDocument → Database → Database
unfolding insert_edges
store_manifest now repository_id m db =
    let digest = Digest.to_string m.digest in
    record db {
      manifests = insert_new (λ r. bytes_eq r.digest digest) (manifest_row m) db.manifests;
      descriptor_edges = insert_edges digest m.descriptors db.descriptor_edges;
      repository_manifests =
          upsert (is_link repository_id digest)
            (record {
              repository_id = repository_id;
              digest = digest;
              linked_at = now;
              deleted_at = none;
            })
            (λ r. record r { deleted_at = none; linked_at = now }) db.repository_manifests;
    }

abbrev pub differs : Option Bytes → Bytes → Bool
differs none digest = false
differs (some previous) digest = not (bytes_eq previous digest)

abbrev pub is_same : Option Bytes → Bytes → Bool
is_same none digest = false
is_same (some previous) digest = bytes_eq previous digest

abbrev pub refuse_match : Option Bool → Result AppError (Unit {0})
refuse_match none = err internal
refuse_match (some true) = err (oci 409 "TAG_INVALID")
refuse_match (some false) = ok tt

abbrev pub match_pattern : Platform → Option Bytes → Bytes → Result AppError (Unit {0})
match_pattern platform none reference = ok tt
match_pattern platform (some pattern) reference =
    refuse_match (platform.regex_match pattern reference)

-- A tag that points elsewhere may not match the pattern of immutable tags.
unfoldable pub check_immutable :
    Platform → Option Bytes → Bytes → Option Bytes → Bytes → Result AppError (Unit {0})
check_immutable platform pattern reference previous digest =
    if differs previous digest then match_pattern platform pattern reference else ok tt

unfoldable pub set_tag : ℕ → Bytes → Bytes → Database → Database
set_tag repository_id name digest db = record db {
  tags =
      upsert (is_tag repository_id name)
        (record { repository_id = repository_id; name = name; manifest_digest = digest })
        (λ t. record t { manifest_digest = digest }) db.tags;
}

unfoldable pub insert_tag_event : ℕ → Bytes → Option Bytes → Option Bytes → ℕ → Database → Database
insert_tag_event repository_id name previous new actor db = record db {
  tag_events =
      insert
        (record {
          repository_id = repository_id;
          tag_name = name;
          previous_digest = previous;
          new_digest = new;
          actor_user_id = actor;
        })
        db.tag_events;
}
