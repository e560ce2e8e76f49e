-- ===== src/Tests/Collection.antt =====
-- Collections on the small registry.
use jcr.Prelude.{refl, none, [], ◌∷◌, codes, bytes_eq}
use jcr.Text.Decimal.{pos}
use jcr.Server.Exec.{World}
use jcr.Server.Database.Rows.{Relationship, BlobStatus}
use jcr.Server.Gc.{is_referenced}
use jcr.Server.Gc
use jcr.Server.Gc.Laws.{IsInUse, run_once-IsInUse}
use jcr.Server.Gc.Spares.{run_once-spares}
use mathlib.Core.List.{Memᴰ}
use jcr.Tests.Data.{Memory, memory, db, session, config}

-- the layer of a manifest, older than the grace period
abbrev kept_world : World Memory
kept_world = record {
  db = record db {
    blobs =
        record {
          digest = codes "layer";
          size = 5;
          object_key = codes "blobs/layer";
          status = BlobStatus.committed;
          created_at = 0;
          tombstoned_at = none;
        }
        ∷ record {
          digest = codes "stray";
          size = 5;
          object_key = codes "blobs/stray";
          status = BlobStatus.committed;
          created_at = 0;
          tombstoned_at = none;
        }
        ∷ [];
    descriptor_edges =
        record {
          parent_digest = codes "image";
          child_digest = codes "layer";
          relationship = Relationship.layer;
          position = 0;
          media_type = codes "tar";
          size = pos 5;
        }
        ∷ [];
    repository_manifests =
        record { repository_id = 3; digest = codes "image"; linked_at = 0; deleted_at = none } ∷ [];
  };
  store = [];
}

kept_world-IsInUse : IsInUse (codes "layer") (codes "blobs/layer") kept_world.db
unfolding is_referenced bytes_eq
kept_world-IsInUse = record { referenced = refl; stored = refl }

run_once-IsInUse_example :
    IsInUse
      (codes "layer")
      (codes "blobs/layer")
      (Gc.run_once memory config 1000000 kept_world).1.db
run_once-IsInUse_example =
    run_once-IsInUse memory config 1000000 (codes "layer") (codes "blobs/layer") kept_world
      kept_world-IsInUse

-- a second session, which has expired
abbrev crowded_world : World Memory
crowded_world = record {
  db = record db { upload_sessions = record session { id = 8; expires_at = 0 } ∷ session ∷ [] };
  store = [];
}

run_once-spares_example :
    Memᴰ session (Gc.run_once memory config 10 crowded_world).1.db.upload_sessions
run_once-spares_example =
    run_once-spares memory config 10 session crowded_world (refl, (refl, tt)) refl
      (Memᴰ.tail (Memᴰ.head refl))
