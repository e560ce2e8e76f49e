-- ===== src/Server/Gc/Laws.antt =====
-- gc.rs, run_once, on the blobs that manifests name and on upload sessions.
use jcr.Prelude.{
  true-false, ℕ, ◌≡◌, refl, sym, ◌∙◌, inl, inr, Bool, true, false, not, ◌&&◌, ◌||◌, none, some,
  List, [], ◌∷◌, arith, ltb, if◌then◌else◌, Bool-cases, &&-eq-true, any, Bytes, bytes_eq,
  eq_of_bytes_eq, Result, ok, err, All,
}
use jcr.Storage.{BlobStore, StorageError}
use jcr.Server.Database.{Database}
use jcr.Server.Database.Rows.{UploadSession, Blob, BlobStatus}
use jcr.Server.Database.Tables.{update, exists}
use jcr.Server.Exec.{World, pure, attempt, ◌>>=◌}
use jcr.Server.Exec.Keeps.{
  Keeps, Keeps-bind, Keeps-if, Keeps-throw, Keeps-modify, Keeps-gets, Keeps-attempt,
  Keeps-call_ignored, Keeps-pure,
}
use jcr.Server.Upload.{Config}
use jcr.Server.Commit.{has_digest, is_committed}
use jcr.Server.Gc.{
  expire_session, is_referenced, is_garbage, is_claimed, claim_blob, restore_blob, unlink_blob,
  expire_uploads, clean_expired_uploads, after_delete, collect_blob, collect_blobs,
  clean_unreferenced_blobs, run_once,
}

module _ {A : Type 0} where
  -- A row that satisfies `q` is there behind an update that spares or keeps it.
  any-update_kept :
      (p q : A → Bool) (f : A → A) (rs : List A)
      → ((r : A) → q r ≡ true → p r ≡ true → q (f r) ≡ true)
      → any q rs ≡ true
      → any q (update p f rs) ≡ true
  unfolding update
  any-update_kept p q f [] k h = h
  any-update_kept p q f (r ∷ rs) k h = elim (Bool-cases (q r)) [
    | inl e ↦ elim (Bool-cases (p r)) [ inl c ↦ rw (c, k r e c) refl | inr c ↦ rw (c, e) refl ]
    | inr e ↦ rw (any-update_kept p q f rs k (rw e at h)) (or_true (q (if p r then f r else r)))
  ]
    where
      or_true : (b : Bool) → b || true ≡ true
      or_true b = ground arith

module _ (digest object_key : Bytes) where
  abbrev is_stored : Blob → Bool
  is_stored b =
      bytes_eq b.digest digest && (is_committed b.status && bytes_eq b.object_key object_key)

  -- A blob that is committed under the object key, and that a live manifest names.
  pub record IsInUse (db : Database) : Type 0 where
    pub referenced : is_referenced digest db ≡ true
    pub stored : exists is_stored db.blobs ≡ true

  expired-IsInUse : (id : ℕ) (db : Database) → IsInUse db → IsInUse (expire_session id db)
  unfolding expire_session is_referenced
  expired-IsInUse id db h = record { referenced = h.referenced; stored = h.stored }

  unlinked-IsInUse : (other : Bytes) (db : Database) → IsInUse db → IsInUse (unlink_blob other db)
  unfolding unlink_blob is_referenced
  unlinked-IsInUse other db h = record { referenced = h.referenced; stored = h.stored }

  not_garbage :
      (cutoff : ℕ) (db : Database) (b : Blob)
      → is_referenced digest db ≡ true
      → bytes_eq b.digest digest ≡ true
      → is_garbage cutoff db b ≡ false
  unfolding is_garbage
  not_garbage cutoff db b h same =
      rw (eq_of_bytes_eq b.digest digest same, h)
        (never (is_committed b.status) (ltb b.created_at cutoff))
    where
      never : (a c : Bool) → a && (c && not true) ≡ false
      never a c = ground arith

  claimed-IsInUse :
      (now cutoff : ℕ) (other : Bytes) (db : Database)
      → IsInUse db
      → IsInUse (claim_blob now cutoff other db)
  unfolding claim_blob is_referenced
  claimed-IsInUse now cutoff other db h = record {
    referenced = h.referenced;
    stored =
        any-update_kept (is_claimed cutoff other db) is_stored
          (λ b. record b { status = BlobStatus.tombstoned; tombstoned_at = some now }) db.blobs
          (λ b e c. absurd (spared b e c)) h.stored;
  }
    where
      spared : (b : Blob) → is_stored b ≡ true → is_claimed cutoff other db b ≡ true → ⊥
      spared b e c =
          let (same, rest) =
            &&-eq-true (bytes_eq b.digest digest)
              (is_committed b.status && bytes_eq b.object_key object_key) e in
          let (named, garbage) = &&-eq-true (has_digest other b) (is_garbage cutoff db b) c in
          true-false (sym garbage ∙ not_garbage cutoff db b h.referenced same)

  restored-IsInUse : (other : Bytes) (db : Database) → IsInUse db → IsInUse (restore_blob other db)
  unfolding restore_blob is_referenced
  restored-IsInUse other db h = record {
    referenced = h.referenced;
    stored =
        any-update_kept (λ b. has_digest other b && not (is_committed b.status)) is_stored
          (λ b. record b { status = BlobStatus.committed; tombstoned_at = none }) db.blobs
          (λ b e c. kept b e) h.stored;
  }
    where
      kept :
          (b : Blob)
          → is_stored b ≡ true
          → bytes_eq b.digest digest && (true && bytes_eq b.object_key object_key) ≡ true
      kept b e = ground arith

-- A pass keeps what each of its statements keeps.
pub record Kept (P : Database → Type 0) : Type 0 where
  pub claims :
      (now cutoff : ℕ) (digest : Bytes) (db : Database) → P db → P (claim_blob now cutoff digest db)
  pub restores : (digest : Bytes) (db : Database) → P db → P (restore_blob digest db)
  pub unlinks : (digest : Bytes) (db : Database) → P db → P (unlink_blob digest db)

module _ {S : Type 0} (store : BlobStore S) (P : Database → Type 0) where
  pub expire_uploads-Keeps :
      (uploads : List UploadSession)
      → All (λ u. (db : Database) → P db → P (expire_session u.id db)) uploads
      → Keeps P (expire_uploads store uploads)
  unfolding expire_uploads
  expire_uploads-Keeps [] k = Keeps-pure _
  expire_uploads-Keeps (u ∷ uploads) (k, ks) =
      Keeps-bind _ _ (Keeps-call_ignored _)
        (λ _. Keeps-bind _ _ (Keeps-modify _ k) (λ _. expire_uploads-Keeps uploads ks))

  clean_expired_uploads-Keeps :
      ((id : ℕ) (db : Database) → P db → P (expire_session id db))
      → (now : ℕ) → Keeps P (clean_expired_uploads store now)
  unfolding clean_expired_uploads
  clean_expired_uploads-Keeps expires now =
      Keeps-bind _ _ (Keeps-gets _) (λ uploads. expire_uploads-Keeps uploads (every uploads))
    where
      every :
          (uploads : List UploadSession)
          → All (λ u. (db : Database) → P db → P (expire_session u.id db)) uploads
      every [] = tt
      every (u ∷ uploads) = (expires u.id, every uploads)

module _ {S : Type 0} (store : BlobStore S) (P : Database → Type 0) (k : Kept P) where
  after_delete-Keeps :
      (digest : Bytes) (result : Result StorageError (Unit {0}))
      → Keeps P (after_delete store digest result)
  after_delete-Keeps digest (err e) =
      Keeps-bind _ _ (Keeps-modify _ (k.restores digest)) (λ _. Keeps-throw _)
  after_delete-Keeps digest (ok done) = Keeps-modify _ (k.unlinks digest)

  collect_blob-Keeps : (now cutoff : ℕ) (b : Blob) → Keeps P (collect_blob store now cutoff b)
  unfolding collect_blob
  collect_blob-Keeps now cutoff b = Keeps-bind _ _ (Keeps-gets _) (λ claimed.
      Keeps-bind _ _ (Keeps-modify _ (k.claims now cutoff b.digest)) (λ _.
        Keeps-if (not claimed) (pure tt)
          (attempt (store.delete b.object_key) >>= λ result. after_delete store b.digest result)
          (λ _. Keeps-pure _)
          (λ _. Keeps-bind _ _ (Keeps-attempt _) (λ result. after_delete-Keeps b.digest result))))

  collect_blobs-Keeps :
      (now cutoff : ℕ) (blobs : List Blob) → Keeps P (collect_blobs store now cutoff blobs)
  unfolding collect_blobs
  collect_blobs-Keeps now cutoff [] = Keeps-pure _
  collect_blobs-Keeps now cutoff (b ∷ blobs) =
      Keeps-bind _ _ (collect_blob-Keeps now cutoff b) (λ _. collect_blobs-Keeps now cutoff blobs)

  pub run_once-Keeps :
      (config : Config) (now : ℕ)
      → Keeps P (clean_expired_uploads store now)
      → Keeps P (run_once store config now)
  unfolding run_once clean_unreferenced_blobs
  run_once-Keeps config now cleaned =
      Keeps-bind _ _ cleaned
        (λ _. Keeps-bind _ _ (Keeps-gets _) (λ blobs. collect_blobs-Keeps now _ blobs))

-- A pass of the garbage collection never takes a blob in use: a blob that is committed under an object key, and that a
-- manifest which some repository still has names as its config or a layer, is so after the pass too, whatever calls of
-- the store fail.
pub run_once-IsInUse :
    {S : Type 0} (store : BlobStore S) (config : Config) (now : ℕ) (digest object_key : Bytes)
    (w : World S)
    → IsInUse digest object_key w.db
    → IsInUse digest object_key (run_once store config now w).1.db
run_once-IsInUse store config now digest object_key w h =
    (run_once-Keeps store (IsInUse digest object_key)
        (record {
          claims = claimed-IsInUse digest object_key;
          restores = restored-IsInUse digest object_key;
          unlinks = unlinked-IsInUse digest object_key;
        })
        config now
        (clean_expired_uploads-Keeps store (IsInUse digest object_key)
          (expired-IsInUse digest object_key) now)).at
      w h
