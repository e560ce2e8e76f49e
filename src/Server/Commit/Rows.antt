-- ===== src/Server/Commit/Rows.antt =====
-- What the statements of `commit_blob` leave in the tables.
use jcr.Prelude.{
  ℕ, String, ◌≡◌, refl, sym, inl, inr, Bool, true, false, not, ◌&&◌, Option, none, some, arith,
  ◌==◌, if◌then◌else◌, Bool-cases, Bytes, bytes_eq, bytes_eq_refl, ok,
}
use mathlib.Core.Path.{subst}
use jcr.Server.Database.{Database}
use jcr.Server.Database.Rows.{Blob}
use jcr.Server.Database.Tables.{find, exists}
use jcr.Server.Database.Tables.Upsert.{upserted, find-upsert, any-insert_new}
use jcr.Server.Exec.{World}
use jcr.Server.Exec.Returns.{
  Returns, Returns-bind, Returns-gets, Returns-execute, Returns-pure, Returns-transaction,
}
use jcr.Server.Session.Steps.{eq_refl}
use jcr.Server.Commit.{
  is_committed, has_digest, merge_blob, is_key_taken, is_duplicate, new_blob, committed_rows,
  commit_statements, commit_blob, insert_audit,
}

-- What a committed digest is in the database: a committed row, and a link of the repository.
pub record IsStored (repository_id : ℕ) (digest object_key : Bytes) (is_other : Bool)
    (db : Database) : Type 0 where
  pub blob : Blob
  pub found : find (has_digest digest) db.blobs ≡ some blob
  pub status : is_committed blob.status ≡ true
  pub key : bytes_eq blob.object_key object_key ≡ not is_other
  pub linked :
      exists (λ r. r.repository_id == repository_id && bytes_eq r.digest digest) db.repository_blobs
      ≡ true

own_link : (n : ℕ) (d : Bytes) → n == n && bytes_eq d d ≡ true
own_link n d = rw (eq_refl n, bytes_eq_refl d)

merged_key :
    (size : ℕ) (object_key : Bytes) (b : Blob)
    → bytes_eq (merge_blob size object_key b).object_key object_key
      ≡ not (is_duplicate object_key (some b))
unfolding merge_blob
merged_key size object_key b = elim (Bool-cases (is_committed b.status)) [
  | inl e ↦ rw e (double_not (bytes_eq b.object_key object_key))
  | inr e ↦ rw e (bytes_eq_refl object_key)
]
  where
    double_not : (c : Bool) → c ≡ not (true && not c)
    double_not c = ground arith

module _ (now repository_id upload_id : ℕ) (object_key digest : Bytes) (size : ℕ) where
  abbrev pub row : Option Blob → Blob
  row o = upserted (new_blob now digest size object_key) (merge_blob size object_key) o

  row_key :
      (o : Option Blob) → bytes_eq (row o).object_key object_key ≡ not (is_duplicate object_key o)
  row_key none = bytes_eq_refl object_key
  row_key (some b) = merged_key size object_key b

  row_status : (o : Option Blob) → is_committed (row o).status ≡ true
  unfolding merge_blob
  row_status none = refl
  row_status (some b) = refl

  same_digest : (b : Blob) → has_digest digest (merge_blob size object_key b) ≡ has_digest digest b
  unfolding merge_blob
  same_digest b = refl

  pub committed_rows-IsStored :
      (db : Database)
      → IsStored repository_id digest object_key
          (is_duplicate object_key (find (has_digest digest) db.blobs))
          (committed_rows now repository_id upload_id object_key digest size db)
  unfolding committed_rows
  committed_rows-IsStored db = record {
    blob = row (find (has_digest digest) db.blobs);
    found =
        find-upsert (has_digest digest) (new_blob now digest size object_key)
          (merge_blob size object_key) db.blobs (bytes_eq_refl digest) same_digest;
    status = row_status (find (has_digest digest) db.blobs);
    key = row_key (find (has_digest digest) db.blobs);
    linked =
        any-insert_new (λ r. r.repository_id == repository_id && bytes_eq r.digest digest)
          (record { repository_id = repository_id; digest = digest }) db.repository_blobs
          (own_link repository_id digest);
  }

  pub not_refused : (b : Bool) (d d' : Database) → (if b then none else some d) ≡ some d' → d' ≡ d
  not_refused true d d' e = cc
  not_refused false d d' e = ground arith

  commit_statements-IsStored :
      (db db' : Database)
      → commit_statements now repository_id upload_id object_key digest size db ≡ some db'
      → IsStored repository_id digest object_key
          (is_duplicate object_key (find (has_digest digest) db.blobs))
          db'
  unfolding commit_statements
  commit_statements-IsStored db db' h =
      subst
        (IsStored repository_id digest object_key
          (is_duplicate object_key (find (has_digest digest) db.blobs)))
        (sym (not_refused (is_key_taken object_key digest db) _ db' h)) (committed_rows-IsStored db)

  pub commit_blob-Returns :
      {S : Type 0} (w : World S)
      → Returns
          (commit_blob now repository_id upload_id object_key digest size)
          w
          (λ duplicate w'. IsStored repository_id digest object_key duplicate w'.db)
  unfolding commit_blob
  commit_blob-Returns w = Returns-transaction _ _ _ (
      Returns-bind _ _ _ _ (
        Returns-gets _ _ _ (
          Returns-bind _ _ _ _ (
            Returns-execute _ _ _
              (λ d e. Returns-pure _ _ _ (commit_statements-IsStored w.db d e))))))

  -- A blob that is committed has a committed row and a link of the repository; the row has the key that was
  -- given, exactly if no duplicate is reported, so that the object that the handler then deletes is never the
  -- one that the row points to.
  pub commit_blob-IsStored :
      {S : Type 0} (w w' : World S) (duplicate : Bool)
      → commit_blob now repository_id upload_id object_key digest size w ≡ (ok duplicate, w')
      → IsStored repository_id digest object_key duplicate w'.db
  commit_blob-IsStored w w' duplicate h = (commit_blob-Returns w).at duplicate w' h

pub audited-IsStored :
    (repository_id : ℕ) (digest object_key : Bytes) (is_other : Bool) (db : Database)
    (actor : Option ℕ) (action : String) (r : Option ℕ) (resource_type : Option String)
    (resource_id : Option Bytes)
    → IsStored repository_id digest object_key is_other db
    → IsStored repository_id digest object_key is_other
        (insert_audit actor action r resource_type resource_id db)
unfolding insert_audit
audited-IsStored repository_id digest object_key is_other db actor action r resource_type
      resource_id h =
    record { blob = h.blob; found = h.found; status = h.status; key = h.key; linked = h.linked }
