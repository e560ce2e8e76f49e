-- ===== src/Server/Commit/Runs.antt =====
-- registry.rs, complete_upload: what each part of it does.
use jcr.Prelude.{
  ℕ, ◌≡◌, refl, ◌∙◌, ap, Bool, true, false, Option, none, some, List, [], ◌++◌, arith,
  if◌then◌else◌, length, ◌⊎◌, inl, inr, is_empty, Bytes, codes, Result, ok,
}
use jcr.Digest
use jcr.Digest.{Digest, digest_eq, sha256, verify}
use jcr.Storage.{BlobStore, CompletedPart, StorageError}
use jcr.Server.Types.{
  User, Repository, HeaderValue, Response, Platform, full_name, registry_response, insert_header,
  location, docker_content_digest,
}
use jcr.Server.Database.{Database}
use jcr.Server.Database.Rows.{UploadStatus}
use jcr.Server.Exec.{World, call, pure, modify, execute, lift, ◌>>=◌, ◌>>◌}
use jcr.Server.Exec.Returns.{
  Returns, Returns-any, Returns-mono, Returns-bind, Returns-lift, Returns-call, Returns-fetch,
  Returns-gets, Returns-execute, Returns-modify, Returns-pure, Returns-throw, Returns-if,
}
use jcr.Server.Session.{
  UploadRecord, fetch_upload, validate_upload, storage_upload, persist_part, set_status,
}
use jcr.Server.Commit.Keys.{
  IsRecorded, was_committed, tombstone-was_committed, commit_blob-IsRecorded, audited-IsRecorded,
  earlier-IsRecorded,
}
use jcr.Server.Upload.{check_chunk}
use jcr.Server.Commit.{
  hash_chunks, hash_stored_blob, finish_upload, refuse_upload, insert_audit, user_id,
  begin_completion, assemble, repair_missing_blob_metadata, repair_key, committed_key,
}

-- the call that left the store as it is: an empty object where there is no part, or the parts joined
abbrev pub Assembled : {S : Type 0} → BlobStore S → UploadRecord → List CompletedPart → S → Type 0
Assembled {S} store upload parts after =
    (s : S) × (((is_empty parts ≡ true)
        × (store.put upload.session.object_key [] s ≡ (ok tt, after)))
      ⊎ (store.complete_upload (storage_upload upload) parts s ≡ (ok tt, after)))

status_blobs :
    (id : ℕ) (status : UploadStatus) (db : Database) → (set_status id status db).blobs ≡ db.blobs
unfolding set_status
status_blobs id status db = refl

of_if : (b : Bool) (d d' : Database) → (if b then none else some d) ≡ some d' → d' ≡ d
of_if true d d' e = cc
of_if false d d' e = ground arith

part_blobs :
    (upload : UploadRecord) (part : CompletedPart) (db d : Database)
    → persist_part upload part false db ≡ some d
    → d.blobs ≡ db.blobs
unfolding persist_part
part_blobs upload part db d e = ap (λ d. d.blobs) (of_if _ _ d e)

module _ {S : Type 0} (store : BlobStore S) (platform : Platform) where
  pub hash_stored_blob-sound :
      (key : Bytes) (w : World S) (Q : Digest × ℕ → World S → Type 0)
      → ((stream : List (Result StorageError Bytes)) (s : S) (p : Digest × ℕ)
          → store.stream key w.store ≡ (ok stream, s)
          → hash_chunks platform.hex_sha256 stream ≡ ok p
          → Q p (record w { store = s }))
      → Returns (hash_stored_blob store platform key) w Q
  unfolding hash_stored_blob
  hash_stored_blob-sound key w Q q = Returns-bind _ _ _ _ (
      Returns-call _ _ _
        (λ stream s sent. Returns-lift _ _ _ (λ p hashed. q stream s p sent hashed)))

  -- A refused upload does not return.
  pub refuse_upload-returns :
      (id : ℕ) (upload : UploadRecord) (w : World S) (Q : Response → World S → Type 0)
      → Returns (refuse_upload store platform id upload) w Q
  unfolding refuse_upload
  refuse_upload-returns id upload w Q = Returns-bind _ _ _ _ (
      Returns-any _ _ _
        (λ _ _. Returns-bind _ _ _ _ (Returns-any _ _ _ (λ _ _. Returns-throw _ _ _))))

  last_chunk :
      (upload : UploadRecord) (bytes : Bytes) (w : World S)
      → Returns
          (if is_empty bytes then pure tt else do
            lift (check_chunk upload.session.uniform_part_size upload.last_part_size (length bytes))
            completed ←
                call
                  (store.upload_part (storage_upload upload) upload.session.next_part_number bytes)
            execute (persist_part upload completed false))
          w
          (λ _ w'. w'.db.blobs ≡ w.db.blobs)
  last_chunk upload bytes w =
      Returns-if (is_empty bytes) _ _ _ _ (λ _. Returns-pure _ _ _ refl)
        (λ _. Returns-bind _ _ _ _ (
          Returns-lift _ _ _ (λ _ _. Returns-bind _ _ _ _ (
            Returns-call _ _ _
              (λ part s _. Returns-execute _ _ _ (λ d e. part_blobs upload part w.db d e))))))

  -- the start: the session is the one that is there, and the blobs are as they were
  pub begin_completion-fetched :
      (now repository_id id : ℕ) (range : HeaderValue) (final_bytes : Bytes) (w : World S)
      → Returns
          (begin_completion store platform now repository_id id range final_bytes)
          w
          (λ upload w'.
            (fetch_upload repository_id id w.db ≡ some upload)
            × (validate_upload now upload ≡ ok tt)
            × (w'.db.blobs ≡ w.db.blobs))
  unfolding begin_completion
  begin_completion-fetched now repository_id id range final_bytes w = Returns-bind _ _ _ _ (
      Returns-fetch _ _ _ _ (λ upload found. Returns-bind _ _ _ _ (
        Returns-lift _ _ _ (λ _ valid. Returns-bind _ _ _ _ (
          Returns-lift _ _ _ (λ _ _. Returns-bind _ _ _ _ (
            Returns-mono _ _ (λ _ w'. w'.db.blobs ≡ w.db.blobs) _ (last_chunk upload final_bytes w)
              (λ _ w' same. Returns-bind _ _ _ _ (
                Returns-modify _ _ _ (
                  Returns-pure _ _ _
                    (found, valid, status_blobs id UploadStatus.finalizing w'.db ∙ same)))))))))))

  pub assemble-db :
      (upload : UploadRecord) (parts : List CompletedPart) (w : World S)
      → Returns
          (assemble store platform upload parts)
          w
          (λ _ w'. (w'.db.blobs ≡ w.db.blobs) × Assembled store upload parts w'.store)
  unfolding assemble
  assemble-db upload parts w =
      Returns-if (is_empty parts) _ _ _ _
        (λ none_there. Returns-bind _ _ _ _ (
          Returns-call _ _ _
            (λ _ s _. Returns-call _ _ _ (λ _ s' put. (refl, (s, inl (none_there, put)))))))
        (λ _. Returns-call _ _ _ (λ _ s completed. (refl, (w.store, inr completed))))

  -- No blob is committed by the repair.
  repair-was_committed :
      (now : ℕ) (digest : Bytes) (w : World S)
      → Returns (repair_missing_blob_metadata store platform now digest) w (λ _ w'.
        (key : Bytes)
        → was_committed digest key w'.db.blobs ≡ true
        → was_committed digest key w.db.blobs ≡ true)
  unfolding repair_missing_blob_metadata
  repair-was_committed now digest w =
      Returns-bind _ _ _ _ (Returns-gets _ _ _ (of (committed_key digest w.db)))
    where
      of :
          (key : Option Bytes)
          → Returns (repair_key store platform now digest key) w (λ _ w'.
            (key : Bytes)
            → was_committed digest key w'.db.blobs ≡ true
            → was_committed digest key w.db.blobs ≡ true)
      of none = Returns-pure _ _ _ (λ key h. h)
      of (some object_key) = Returns-bind _ _ _ _ (
          Returns-call _ _ _ (λ present s _.
            Returns-if present _ _ _ _ (λ _. Returns-pure _ _ _ (λ key h. h))
              (λ _.
                Returns-modify _ _ _
                  (λ key h. tombstone-was_committed now digest object_key key w.db h))))

  -- behind the digest's test
  pub finish_upload-IsRecorded :
      (now : ℕ) (repository : Repository) (actor : Option User) (id : ℕ) (upload : UploadRecord)
      (expected : Digest) (size : ℕ) (w : World S)
      → Returns
          (finish_upload store platform now repository actor id upload expected size)
          w
          (λ response w'.
            IsRecorded repository.id id
              (Digest.to_string expected)
              upload.session.object_key
              w.db.blobs
              w'.db)
  unfolding finish_upload
  finish_upload-IsRecorded now repository actor id upload expected size w = Returns-bind _ _ _ _ (
      Returns-mono _ _ _ _ (repair-was_committed now (Digest.to_string expected) w) (λ _ w1 earlier.
        Returns-bind _ _ _ _ (
          Returns-mono _ _ _ _
            (commit_blob-IsRecorded now repository.id id upload.session.object_key
              (Digest.to_string expected) size w1)
            (λ is_other w2 h.
              let known =
                earlier-IsRecorded repository.id id (Digest.to_string expected)
                  upload.session.object_key w.db.blobs w1.db.blobs w2.db earlier h in
              Returns-bind _ _ _ _ (
                Returns-if is_other (call (store.delete upload.session.object_key)) (pure tt) _ _
                  (λ _. Returns-call _ _ _ (λ _ s _. closing (record w2 { store = s }) known))
                  (λ _. Returns-pure _ _ _ (closing w2 known)))))))
    where
      Recorded : Database → Type 0
      Recorded db =
          IsRecorded repository.id id (Digest.to_string expected) upload.session.object_key
            w.db.blobs db

      closing :
          (w3 : World S)
          → Recorded w3.db
          → Returns
              (do
                modify (
                    insert_audit
                      (user_id actor)
                      "blob.uploaded"
                      (some repository.id)
                      (some "blob")
                      (some (Digest.to_string expected)))
                response ← lift (
                    insert_header location
                      (codes "/v2/"
                        ++ (full_name repository ++ (codes "/blobs/" ++ Digest.to_string expected)))
                      (registry_response 201))
                lift (insert_header docker_content_digest (Digest.to_string expected) response))
              w3
              (λ response w'. Recorded w'.db)
      closing w3 h = Returns-bind _ _ _ _ (
          Returns-modify _ _ _ (
            Returns-bind _ _ _ _ (
              Returns-lift _ _ _ (λ _ _.
                Returns-lift _ _ _
                  (λ _ _. audited-IsRecorded _ _ _ _ w.db.blobs w3.db _ _ _ _ _ h)))))
