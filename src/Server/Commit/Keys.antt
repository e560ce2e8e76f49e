-- ===== src/Server/Commit/Keys.antt =====
-- The object key that the row of a digest has behind a completion, and the session that is closed.
use jcr.Prelude.{
  false-true, ℕ, String, ◌≡◌, refl, sym, ◌∙◌, inl, inr, Bool, true, false, not, ◌&&◌, ◌||◌, Option,
  none, some, List, [], ◌∷◌, arith, ◌==◌, Bool-cases, &&-eq-true, any, Bytes, bytes_eq,
  bytes_eq_refl,
}
use mathlib.Core.Path.{subst}
use jcr.Server.Database.{Database}
use jcr.Server.Database.Rows.{Blob, BlobStatus, UploadSession, UploadStatus}
use jcr.Server.Database.Tables.{find, update, exists, holds_of_find}
use jcr.Server.Database.Tables.Upsert.{find-upsert}
use jcr.Server.Exec.{World}
use jcr.Server.Exec.Returns.{
  Returns, Returns-bind, Returns-gets, Returns-execute, Returns-pure, Returns-transaction,
}
use jcr.Server.Session.{is_uploading}
use jcr.Server.Commit.{
  is_committed, has_digest, merge_blob, is_key_taken, is_duplicate, new_blob, committed_rows,
  commit_statements, commit_blob, tombstone, insert_audit,
}
use jcr.Server.Commit.Rows.{IsStored, row, not_refused, committed_rows-IsStored}

-- a row that is committed under the object key
abbrev pub was_committed : Bytes → Bytes → List Blob → Bool
was_committed digest object_key blobs =
    exists (λ b. has_digest digest b && (is_committed b.status && bytes_eq b.object_key object_key))
      blobs

-- a session with the id that still takes chunks
abbrev pub is_open_session : ℕ → List UploadSession → Bool
is_open_session id sessions = exists (λ u. u.id == id && is_uploading u.status) sessions

module _ {A : Type 0} where
  any_of_find_both :
      (p q : A → Bool) (rs : List A) (r : A) → find p rs ≡ some r → q r ≡ true → any q rs ≡ true
  unfolding find
  any_of_find_both p q [] r h k = cc
  any_of_find_both p q (a ∷ rs) r h k = elim (Bool-cases (p a)) [
    | inl e ↦ rw (subst (λ x. q x ≡ true) (sym (some_inj (rw (e, find) at h))) k) refl
    | inr e ↦ rw (any_of_find_both p q rs r (rw (e, find) at h) k) (or_true (q a))
  ]
    where
      some_inj : some a ≡ some r → a ≡ r
      some_inj k = cc

      or_true : (b : Bool) → b || true ≡ true
      or_true b = ground arith

  -- What an update takes from the rows that it changes, it gives to none.
  any-update_lost :
      (p q : A → Bool) (f : A → A) (rs : List A)
      → ((r : A) → q (f r) ≡ false)
      → any q (update p f rs) ≡ true
      → any q rs ≡ true
  unfolding update
  any-update_lost p q f [] k h = h
  any-update_lost p q f (r ∷ rs) k h = elim (Bool-cases (p r)) [
    | inl e ↦ later (any-update_lost p q f rs k (rw (e, k r) at h))
    | inr e ↦ either (q r) (rw e at h) (any-update_lost p q f rs k)
  ]
    where
      later : any q rs ≡ true → q r || any q rs ≡ true
      later e = ground arith

      either :
          (b : Bool)
          → b || any q (update p f rs) ≡ true
          → (any q (update p f rs) ≡ true → any q rs ≡ true)
          → b || any q rs ≡ true
      either true h k = refl
      either false h k = k h

pub tombstone-was_committed :
    (now : ℕ) (digest object_key other : Bytes) (db : Database)
    → was_committed digest other (tombstone now digest object_key db).blobs ≡ true
    → was_committed digest other db.blobs ≡ true
unfolding tombstone
tombstone-was_committed now digest object_key other db h =
    any-update_lost
      (λ b. has_digest digest b && (bytes_eq b.object_key object_key && is_committed b.status)) _
      (λ b. record b { status = BlobStatus.tombstoned; tombstoned_at = some now }) db.blobs
      (λ b. never (has_digest digest b)) h
  where
    never : (b : Bool) → b && (false && true) ≡ false
    never b = ground arith

-- What a completion leaves in the tables: a committed digest, whose row has the key of the object
-- unless it is an `is_other`, which was committed before, and a session that takes no more chunks.
pub record IsRecorded (repository_id upload_id : ℕ) (digest object_key : Bytes) (before : List Blob)
    (db : Database) : Type 0 where
  pub is_other : Bool
  pub stored : IsStored repository_id digest object_key is_other db
  pub kept : is_other ≡ true → was_committed digest stored.blob.object_key before ≡ true
  pub closed : is_open_session upload_id db.upload_sessions ≡ false

some_blob : {a b : Blob} → some a ≡ some b → a ≡ b
some_blob h = cc

module _ (now repository_id upload_id : ℕ) (object_key digest : Bytes) (size : ℕ) where
  merged_kept :
      (b : Blob)
      → is_duplicate object_key (some b) ≡ true
      → (is_committed b.status ≡ true) × ((merge_blob size object_key b).object_key ≡ b.object_key)
  unfolding merge_blob
  merged_kept b h =
      let (committed, differs) =
        &&-eq-true (is_committed b.status) (not (bytes_eq b.object_key object_key)) h in
      (committed, rw committed refl)

  was_there :
      (blobs : List Blob) (b : Blob)
      → find (has_digest digest) blobs ≡ some b
      → is_committed b.status ≡ true
      → was_committed digest b.object_key blobs ≡ true
  was_there blobs b found committed =
      any_of_find_both (has_digest digest)
        (λ a. has_digest digest a && (is_committed a.status && bytes_eq a.object_key b.object_key))
        blobs b found
        (rw (holds_of_find (has_digest digest) blobs b found, committed)
          (bytes_eq_refl b.object_key))

  row_kept :
      (blobs : List Blob) (o : Option Blob)
      → find (has_digest digest) blobs ≡ o
      → is_duplicate object_key o ≡ true
      → was_committed digest
          (row now repository_id upload_id object_key digest size o).object_key
          blobs
        ≡ true
  row_kept blobs none found h = absurd (false-true h)
  row_kept blobs (some b) found h =
      let (committed, same) = merged_kept b h in
      subst (λ k. was_committed digest k blobs ≡ true) (sym same)
        (was_there blobs b found committed)

  session_closed :
      (sessions : List UploadSession)
      → is_open_session upload_id (
          update
            (λ u. u.id == upload_id)
            (λ u. record u { status = UploadStatus.committed; accepted_offset = size })
            sessions)
        ≡ false
  unfolding update
  session_closed [] = refl
  session_closed (u ∷ sessions) = elim (Bool-cases (u.id == upload_id)) [
    | inl e ↦ rw (e, session_closed sessions) (nowhere (u.id == upload_id))
    | inr e ↦ rw (e, session_closed sessions) (skipped _ (is_uploading u.status) e)
  ]
    where
      nowhere : (b : Bool) → b && false || false ≡ false
      nowhere b = ground arith

      skipped : (b c : Bool) → b ≡ false → b && c || false ≡ false
      skipped b c e = ground arith

  rows_kept :
      (db : Database) (b : Blob)
      → find
          (has_digest digest)
          (committed_rows now repository_id upload_id object_key digest size db).blobs
        ≡ some b
      → is_duplicate object_key (find (has_digest digest) db.blobs) ≡ true
      → was_committed digest b.object_key db.blobs ≡ true
  unfolding committed_rows merge_blob
  rows_kept db b found h =
      subst (λ b. was_committed digest b.object_key db.blobs ≡ true)
        (some_blob (
          sym (
            find-upsert (has_digest digest) (new_blob now digest size object_key)
              (merge_blob size object_key) db.blobs (bytes_eq_refl digest) (λ b. refl))
          ∙ found))
        (row_kept db.blobs (find (has_digest digest) db.blobs) refl h)

  rows_closed :
      (db : Database)
      → is_open_session upload_id
          (committed_rows now repository_id upload_id object_key digest size db).upload_sessions
        ≡ false
  unfolding committed_rows
  rows_closed db = session_closed db.upload_sessions

  rows-IsRecorded :
      (db : Database)
      → IsRecorded repository_id upload_id digest object_key db.blobs
          (committed_rows now repository_id upload_id object_key digest size db)
  rows-IsRecorded db =
      let stored = committed_rows-IsStored now repository_id upload_id object_key digest size db in
      record {
        is_other = is_duplicate object_key (find (has_digest digest) db.blobs);
        stored = stored;
        kept = rows_kept db stored.blob stored.found;
        closed = rows_closed db;
      }

  statements-IsRecorded :
      (db db' : Database)
      → commit_statements now repository_id upload_id object_key digest size db ≡ some db'
      → IsRecorded repository_id upload_id digest object_key db.blobs db'
  unfolding commit_statements
  statements-IsRecorded db db' h =
      subst (IsRecorded repository_id upload_id digest object_key db.blobs)
        (sym (
          not_refused now repository_id upload_id object_key digest size
            (is_key_taken object_key digest db) _ db' h))
        (rows-IsRecorded db)

  pub commit_blob-IsRecorded :
      {S : Type 0} (w : World S)
      → Returns
          (commit_blob now repository_id upload_id object_key digest size)
          w
          (λ duplicate w'. IsRecorded repository_id upload_id digest object_key w.db.blobs w'.db)
  unfolding commit_blob
  commit_blob-IsRecorded w = Returns-transaction _ _ _ (
      Returns-bind _ _ _ _ (
        Returns-gets _ _ _ (
          Returns-bind _ _ _ _
            (Returns-execute _ _ _ (λ d e. Returns-pure _ _ _ (statements-IsRecorded w.db d e))))))

module _ (repository_id upload_id : ℕ) (digest object_key : Bytes) where
  -- What is recorded stays so behind an entry of the audit, and counted from blobs before.
  pub audited-IsRecorded :
      (before : List Blob) (db : Database) (actor : Option ℕ) (action : String) (r : Option ℕ)
      (resource_type : Option String) (resource_id : Option Bytes)
      → IsRecorded repository_id upload_id digest object_key before db
      → IsRecorded repository_id upload_id digest object_key before
          (insert_audit actor action r resource_type resource_id db)
  unfolding insert_audit
  audited-IsRecorded before db actor action r resource_type resource_id h = record {
    is_other = h.is_other;
    stored = record {
      blob = h.stored.blob;
      found = h.stored.found;
      status = h.stored.status;
      key = h.stored.key;
      linked = h.stored.linked;
    };
    kept = h.kept;
    closed = h.closed;
  }

  pub earlier-IsRecorded :
      (before later : List Blob) (db : Database)
      → ((key : Bytes)
          → was_committed digest key later ≡ true
          → was_committed digest key before ≡ true)
      → IsRecorded repository_id upload_id digest object_key later db
      → IsRecorded repository_id upload_id digest object_key before db
  earlier-IsRecorded before later db k h = record {
    is_other = h.is_other;
    stored = h.stored;
    kept = λ e. k h.stored.blob.object_key (h.kept e);
    closed = h.closed;
  }
