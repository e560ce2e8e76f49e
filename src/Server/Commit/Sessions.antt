-- ===== src/Server/Commit/Sessions.antt =====
-- registry.rs, complete_upload, on the invariant of upload sessions.
use jcr.Prelude.{
  ℕ, ◌<◌, String, ◌≡◌, refl, sym, Bool, true, false, Option, none, some, List, [], ◌∷◌, arith, ◌==◌,
  if◌then◌else◌, length, is_empty, Bytes,
}
use mathlib.Core.Path.{subst}
use jcr.Digest
use jcr.Digest.{Digest, digest_eq, sha256, verify}
use jcr.Storage.{BlobStore, CompletedPart}
use jcr.Server.Types.{User, Repository, Authorized, Headers, HeaderValue, Query, Body, Platform}
use jcr.Server.Database.{Database}
use jcr.Server.Database.Rows.{UploadStatus}
use jcr.Server.Database.Tables.{holds_of_find}
use jcr.Server.Exec.{World, call, pure, execute, modify, lift, ◌>>=◌, ◌>>◌}
use jcr.Server.Exec.Returns.{
  Returns, Returns-bind, Returns-fetch, Returns-lift, Returns-call, Returns-execute, Returns-modify,
  Returns-pure, Returns-if, Keeps-committed,
}
use jcr.Server.Session.{UploadRecord}
use jcr.Server.Session.{storage_upload, persist_part, set_status, fetch_upload, is_session}
use jcr.Server.Session.Invariant.{IsValid, fetched}
use jcr.Server.Session.Steps.{closing-IsValid, fail-IsValid, put-IsValid, finalize-IsValid}
use jcr.Server.Upload.Laws.{ReportsParts, accepted, validate_upload-open}
use jcr.Server.Exec.Keeps.{
  Keeps, Keeps-bind, Keeps-lift, Keeps-if, Keeps-throw, Keeps-modify, Keeps-execute, Keeps-gets,
  Keeps-call, Keeps-pure, Keeps-transaction,
}
use jcr.Server.Upload.{Config, check_chunk}
use jcr.Server.Commit
use jcr.Server.Commit.{
  max_bigint, expected_digest, is_committed, collect_chunks, hash_chunks, has_digest, merge_blob,
  is_key_taken, is_duplicate, new_blob, tombstone, committed_rows, commit_statements, commit_blob,
  begin_completion, assemble, hash_stored_blob, repair_missing_blob_metadata, finish_upload,
  refuse_upload, complete_upload, insert_audit, user_id,
}

closed_by_commit :
    (now repository_id upload_id : ℕ) (object_key digest : Bytes) (size : ℕ) (db : Database)
    → IsValid db
    → IsValid (committed_rows now repository_id upload_id object_key digest size db)
unfolding committed_rows
closed_by_commit now repository_id upload_id object_key digest size db v =
    let c =
      closing-IsValid (λ u. u.id == upload_id)
        (λ u. record u { status = UploadStatus.committed; accepted_offset = size }) db
        (λ u. (refl, refl, refl, refl, refl)) v in
    record { unique = c.unique; sessions = c.sessions; owned = c.owned }

pub audited :
    (actor : Option ℕ) (action : String) (r : Option ℕ) (resource_type : Option String)
    (resource_id : Option Bytes) (db : Database)
    → IsValid db
    → IsValid (insert_audit actor action r resource_type resource_id db)
unfolding insert_audit
audited actor action r resource_type resource_id db v = record {
  unique = v.unique;
  sessions = v.sessions;
  owned = v.owned;
}

tombstoned :
    (now : ℕ) (digest object_key : Bytes) (db : Database)
    → IsValid db
    → IsValid (tombstone now digest object_key db)
unfolding tombstone
tombstoned now digest object_key db v = record {
  unique = v.unique;
  sessions = v.sessions;
  owned = v.owned;
}

commit_statements-IsValid :
    (now repository_id upload_id : ℕ) (object_key digest : Bytes) (size : ℕ) (db db' : Database)
    → commit_statements now repository_id upload_id object_key digest size db ≡ some db'
    → IsValid db
    → IsValid db'
unfolding commit_statements
commit_statements-IsValid now repository_id upload_id object_key digest size db db' h v =
    subst IsValid (sym (not_refused (is_key_taken object_key digest db) _ db' h))
      (closed_by_commit now repository_id upload_id object_key digest size db v)
  where
    not_refused : (b : Bool) (d d' : Database) → (if b then none else some d) ≡ some d' → d' ≡ d
    not_refused true d d' e = cc
    not_refused false d d' e = ground arith

module _ {S : Type 0} where
  commit_blob-IsValid :
      (now repository_id upload_id : ℕ) (object_key digest : Bytes) (size : ℕ)
      → Keeps IsValid (commit_blob {S = S} now repository_id upload_id object_key digest size)
  unfolding commit_blob
  commit_blob-IsValid now repository_id upload_id object_key digest size = Keeps-transaction _ (
      Keeps-bind _ _ (Keeps-gets _) (λ duplicate.
        Keeps-bind _ _
          (Keeps-execute _
            (commit_statements-IsValid now repository_id upload_id object_key digest size))
          (λ _. Keeps-pure _)))

module _ {S : Type 0} (store : BlobStore S) (platform : Platform) where
  nonempty : (bytes : Bytes) → is_empty bytes ≡ false → 0 < length bytes
  nonempty [] e = cc
  nonempty (b ∷ bs) e = omega arith

  same_id :
      (repository_id id : ℕ) (db : Database) (upload : UploadRecord)
      → IsValid db
      → fetch_upload repository_id id db ≡ some upload
      → upload.session.id ≡ id
  same_id repository_id id db upload v found =
      let is_found =
        holds_of_find (is_session repository_id id) db.upload_sessions upload.session
          (fetched repository_id id db upload v found).0 in
      ground arith

  begin_completion-IsValid :
      ReportsParts store
      → (now repository_id id : ℕ) (range : HeaderValue) (bytes : Bytes) (w : World S)
      → IsValid w.db
      → Returns
          (begin_completion store platform now repository_id id range bytes)
          w
          (λ upload w'. IsValid w'.db)
  unfolding begin_completion
  begin_completion-IsValid reports now repository_id id range bytes w v = Returns-bind _ _ _ _ (
      Returns-fetch _ _ _ _ (λ upload found. Returns-bind _ _ _ _ (
        Returns-lift _ _ _ (λ _ valid. Returns-bind _ _ _ _ (
          Returns-lift _ _ _ (λ _ ranged. Returns-bind _ _ _ _ (
            Returns-if (is_empty bytes) (pure tt)
              (lift (
                  check_chunk upload.session.uniform_part_size upload.last_part_size (length bytes))
                >>= λ _.
                    call (
                      store.upload_part (storage_upload upload) upload.session.next_part_number
                        bytes)
                    >>= λ completed. execute (persist_part upload completed false))
              _ _
              (λ e. Returns-pure _ _ _ (
                Returns-bind _ _ _ _ (
                  Returns-modify _ _ _ (
                    Returns-pure _ _ _ (
                      subst (λ k. IsValid (set_status k UploadStatus.finalizing w.db))
                        (same_id repository_id id w.db upload v found)
                        (finalize-IsValid repository_id id w.db upload v found
                          (validate_upload-open now upload valid)))))))
              (λ e. Returns-bind _ _ _ _ (
                Returns-lift _ _ _ (λ _ checked. Returns-bind _ _ _ _ (
                  Returns-call _ _ _ (λ part s sent. Returns-execute _ _ _ (λ d stored.
                    Returns-bind _ _ _ _ (
                      Returns-modify _ _ _ (
                        Returns-pure _ _ _ (
                          subst (λ k. IsValid (set_status k UploadStatus.finalizing d))
                            (same_id repository_id id w.db upload v found)
                            (put-IsValid repository_id id w.db upload v found part
                              (accepted store reports now upload bytes w.store s part valid
                                (nonempty bytes e) checked sent)
                              d stored)))))))))))))))))

  abbrev repair_key-IsValid :
      (now : ℕ) (digest : Bytes) (key : Option Bytes)
      → Keeps IsValid (Commit.repair_key store platform now digest key)
  repair_key-IsValid now digest none = Keeps-pure _
  repair_key-IsValid now digest (some object_key) = Keeps-bind _ _ (Keeps-call _) (λ present.
      Keeps-if present (pure tt) (modify (tombstone now digest object_key)) (λ _. Keeps-pure _)
        (λ _. Keeps-modify _ (tombstoned now digest object_key)))

  finish_upload-IsValid :
      (now : ℕ) (repository : Repository) (actor : Option User) (id : ℕ) (upload : UploadRecord)
      (expected : Digest) (size : ℕ)
      → Keeps IsValid (finish_upload store platform now repository actor id upload expected size)
  unfolding finish_upload repair_missing_blob_metadata
  finish_upload-IsValid now repository actor id upload expected size =
      Keeps-bind _ _
        (Keeps-bind _ _ (Keeps-gets _)
          (λ key. repair_key-IsValid now (Digest.to_string expected) key))
        (λ _.
          Keeps-bind _ _
            (commit_blob-IsValid now repository.id id upload.session.object_key
              (Digest.to_string expected) size)
            (λ is_other.
              Keeps-bind _ _
                (Keeps-if is_other (call (store.delete upload.session.object_key)) (pure tt)
                  (λ _. Keeps-call _) (λ _. Keeps-pure _))
                (λ _.
                  Keeps-bind _ _
                    (Keeps-modify _ (
                      audited (user_id actor) "blob.uploaded" (some repository.id) (some "blob")
                        (some (Digest.to_string expected))))
                    (λ _. Keeps-bind _ _ (Keeps-lift _) (λ _. Keeps-lift _)))))

  refuse_upload-IsValid :
      (id : ℕ) (upload : UploadRecord) → Keeps IsValid (refuse_upload store platform id upload)
  unfolding refuse_upload
  refuse_upload-IsValid id upload =
      Keeps-bind _ _ (Keeps-call _)
        (λ _. Keeps-bind _ _ (Keeps-modify _ (fail-IsValid id)) (λ _. Keeps-throw _))

  assemble-IsValid :
      (upload : UploadRecord) (parts : List CompletedPart)
      → Keeps IsValid (assemble store platform upload parts)
  unfolding assemble
  assemble-IsValid upload parts =
      Keeps-if (is_empty parts)
        (call (store.abort_upload (storage_upload upload))
          >> call (store.put upload.session.object_key []))
        (call (store.complete_upload (storage_upload upload) parts))
        (λ _. Keeps-bind _ _ (Keeps-call _) (λ _. Keeps-call _)) (λ _. Keeps-call _)

module _ {S : Type 0} (store : BlobStore S) (platform : Platform) (config : Config) where
  pub complete_upload-Keeps :
      ReportsParts store
      → (now : ℕ) (authorized : Authorized) (id : Bytes) (headers : Headers) (query : Query)
        (body : Body)
      → Keeps IsValid (complete_upload store platform config now authorized id headers query body)
  unfolding complete_upload hash_stored_blob
  complete_upload-Keeps reports now authorized id headers query body =
      Keeps-bind _ _ (Keeps-lift _) (λ repository. Keeps-bind _ _ (Keeps-lift _) (λ upload_id.
        Keeps-bind _ _ (Keeps-lift _) (λ expected. Keeps-bind _ _ (Keeps-lift _) (λ final_bytes.
          Keeps-bind _ _
            (Keeps-committed _ (λ w v.
              begin_completion-IsValid store platform reports now repository.id upload_id
                headers.content_range final_bytes w v))
            (λ upload. Keeps-bind _ _ (Keeps-gets _) (λ parts.
              Keeps-bind _ _ (assemble-IsValid store platform upload parts) (λ _.
                Keeps-bind _ _ (Keeps-bind _ _ (Keeps-call _) (λ _. Keeps-lift _))
                  (λ (actual, size).
                    Keeps-if (digest_eq actual expected) _ _
                      (λ _.
                        finish_upload-IsValid store platform now repository authorized.user
                          upload_id upload expected size)
                      (λ _. refuse_upload-IsValid store platform upload_id upload)))))))))

  -- The PUT handler keeps the invariant of upload sessions, whether it completes, refuses the digest or fails at
  -- any other step, for a store that reports the number and the size of the part that it was sent.
  pub complete_upload-IsValid :
      ReportsParts store
      → (now : ℕ) (authorized : Authorized) (id : Bytes) (headers : Headers) (query : Query)
        (body : Body) (w : World S)
      → IsValid w.db
      → IsValid (complete_upload store platform config now authorized id headers query body w).1.db
  complete_upload-IsValid reports now authorized id headers query body w v =
      (complete_upload-Keeps reports now authorized id headers query body).at w v
