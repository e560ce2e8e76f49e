-- ===== src/Tests/Manifests.antt =====
-- Manifests on the small registry.
use jcr.Prelude.{ℕ, ◌≡◌, refl, ◌≢◌, true, none, some, [], ◌∷◌, ◌++◌, Bytes, codes, bytes_eq, is_ok}
use jcr.Text.Decimal.{pos}
use jcr.Digest
use jcr.Digest.{Digest}
use jcr.Manifest.{Json, oci_image_index, parse}
use jcr.Server.Types.{Repository, Platform}
use jcr.Server.Database.{Database}
use jcr.Server.Database.Rows.{ManifestRow}
use jcr.Server.Database.Tables.{find}
use jcr.Server.Exec.{World}
use jcr.Server.Manifests.{put_manifest, delete_manifest, lookup_manifest, tag_digest}
use jcr.Server.Manifests.Tags.{put_manifest-immutable}
use jcr.Server.Manifests.Resolves.{IsResolved, put_manifest-IsResolved}
use jcr.Server.Manifests.Deletes.{delete_manifest-unresolved}
use jcr.Tests.Data.{Memory, platform, tool, ada_user, db, world, no_headers, five, digits}

-- Whatever the bytes, an index of no manifests with a subject.
abbrev pub library : Json ℕ
library = record {
  from_slice = λ bytes. some 0;
  get = λ value name. some 0;
  as_u64 = λ value. some 2;
  as_str = λ value. some oci_image_index;
  as_array = λ value. some [];
  to_descriptor =
      λ value. some (record { media_type = oci_image_index; digest = five; size = pos 5 });
}

is_pushed :
    is_ok
      (put_manifest {S = Memory} library platform 10
        (record { repository = some tool; user = some ada_user })
        (codes "v1")
        no_headers
        (some (codes "{}"))
        world).0
    ≡ true
unfolding put_manifest jcr.Server.Exec.◌>>=◌ jcr.Server.Exec.lift
    jcr.Server.Types.require_repository jcr.Server.Types.read_body parse jcr.Manifest.media_type_of
    jcr.Manifest.kind_of bytes_eq jcr.Manifest.trim_front jcr.Manifest.optional_descriptor
    jcr.Manifest.entries_of jcr.Server.Manifests.check_reference Digest.from_str jcr.Text.split_once
    jcr.Server.Exec.gets jcr.Server.Manifests.validate_manifest_dependencies
    jcr.Server.Manifests.is_available Digest.check_parts Digest.digest_eq Digest.sha256
    Digest.sha256_name Digest.to_string jcr.Manifest.enumerate jcr.Manifest.trim
    jcr.Server.Commit.insert_audit find jcr.Server.Exec.modify jcr.Server.Exec.pure
    jcr.Server.Exec.transaction jcr.Server.Manifests.check_immutable jcr.Server.Manifests.is_live
    jcr.Server.Manifests.persist_manifest jcr.Server.Manifests.persist_transaction
    jcr.Server.Manifests.point_tag jcr.Server.Manifests.set_tag jcr.Server.Manifests.store_manifest
    tag_digest jcr.Server.Endpoint.validate_tag jcr.Server.Endpoint.is_valid_tag
    jcr.Server.Types.full_name jcr.Server.Types.insert_header
is_pushed = refl

put_manifest-IsResolved_example :
    IsResolved library platform tool
      (codes "v1")
      no_headers
      (some (codes "{}"))
      (put_manifest library platform 10
        (record { repository = some tool; user = some ada_user })
        (codes "v1")
        no_headers
        (some (codes "{}"))
        world).1.db
put_manifest-IsResolved_example =
    put_manifest-IsResolved library platform 10 (some ada_user) tool (codes "v1") no_headers
      (some (codes "{}")) world is_pushed

abbrev release : Repository
release = record tool { immutable_tag_pattern = some (codes "v1") }

abbrev tagged : World Memory
tagged = record world {
  db = record db {
    tags =
        record { repository_id = 3; name = codes "v1"; manifest_digest = Digest.to_string five }
        ∷ [];
  };
}

is_tagged : tag_digest 3 (codes "v1") tagged.db ≡ some (Digest.to_string five)
unfolding tag_digest find bytes_eq
is_tagged = refl

is_match : platform.regex_match (codes "v1") (codes "v1") ≡ some true
unfolding bytes_eq
is_match = refl

put_manifest-immutable_example :
    tag_digest 3
      (codes "v1")
      (put_manifest library platform 10
        (record { repository = some release; user = some ada_user })
        (codes "v1")
        no_headers
        (some (codes "{}"))
        tagged).1.db
    ≡ some (Digest.to_string five)
put_manifest-immutable_example =
    put_manifest-immutable library platform release (codes "v1") (codes "v1")
      (Digest.to_string five) 10 (some ada_user) (codes "v1") no_headers (some (codes "{}")) tagged
      refl is_match is_tagged

abbrev text_of : ℕ → Bytes
text_of d = codes "sha256:" ++ digits 64 d

abbrev row_of : ℕ → ManifestRow
row_of d = record {
  digest = text_of d;
  media_type = oci_image_index;
  artifact_type = none;
  subject_digest = none;
  size = 1;
  payload = codes "x";
}

abbrev two_manifests : World Memory
two_manifests = record world {
  db = record db {
    manifests = row_of 5 ∷ row_of 6 ∷ [];
    repository_manifests =
        record { repository_id = 3; digest = text_of 5; linked_at = 0; deleted_at = none }
        ∷ record { repository_id = 3; digest = text_of 6; linked_at = 0; deleted_at = none }
        ∷ [];
  };
}

is_deleted :
    is_ok
      (delete_manifest 10
        (record { repository = some tool; user = some ada_user })
        (text_of 5)
        two_manifests).0
    ≡ true
unfolding delete_manifest jcr.Server.Exec.◌>>=◌ jcr.Server.Exec.lift
    jcr.Server.Types.require_repository Digest.from_str jcr.Text.split_once bytes_eq
    Digest.sha256_name jcr.Server.Exec.transaction jcr.Server.Manifests.delete_transaction
    jcr.Server.Exec.gets jcr.Server.Manifests.is_live Digest.to_string jcr.Server.Exec.modify
    jcr.Server.Exec.pure
is_deleted = refl

is_kept :
    lookup_manifest 3
      (text_of 6)
      (delete_manifest 10
        (record { repository = some tool; user = some ada_user })
        (text_of 5)
        two_manifests).1.db
    ≡ some (row_of 6)
unfolding delete_manifest lookup_manifest jcr.Server.Exec.◌>>=◌ jcr.Server.Exec.lift
    jcr.Server.Types.require_repository Digest.from_str jcr.Text.split_once bytes_eq
    Digest.sha256_name jcr.Server.Exec.transaction jcr.Server.Manifests.delete_transaction
    jcr.Server.Exec.gets jcr.Server.Manifests.is_live Digest.to_string jcr.Server.Exec.modify
    jcr.Server.Exec.pure jcr.Server.Commit.insert_audit jcr.Server.Database.Tables.select
    jcr.Server.Manifests.unlink_manifest Digest.check_parts jcr.Server.Database.Tables.delete find
    jcr.Server.Database.Tables.update jcr.Server.Manifests.delete_tags
    jcr.Server.Manifests.insert_tag_event tag_digest
is_kept = refl

delete_manifest-unresolved_example : (row_of 6).digest ≢ text_of 5
delete_manifest-unresolved_example =
    delete_manifest-unresolved 10 (some ada_user) tool (text_of 5) (text_of 6) (row_of 6)
      two_manifests is_deleted is_kept
