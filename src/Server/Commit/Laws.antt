-- ===== src/Server/Commit/Laws.antt =====
-- registry.rs, complete_upload: what it commits.
use jcr.Prelude.{ℕ, ◌≡◌, ◌∙◌, true, some, List, [], Bytes, Result, ok, is_ok}
use mathlib.Core.Path.{subst}
use jcr.Digest
use jcr.Digest.{Digest, digest_eq, sha256, verify}
use jcr.Storage.{BlobStore, CompletedPart, StorageError}
use jcr.Server.Types.{Repository, Authorized, Headers, Query, Body, Platform, require_repository}
use jcr.Server.Database.{Database}
use jcr.Server.Exec.{World}
use jcr.Server.Exec.Returns.{
  Returns, returned_ok, Returns-mono, Returns-bind, Returns-lift, Returns-gets, Returns-transaction,
  Returns-if,
}
use jcr.Server.Session.{UploadRecord, fetch_upload, validate_upload, upload_parts}
use jcr.Server.Commit.Keys.{IsRecorded}
use jcr.Server.Commit.Hashing.{hash_chunks_sound, digest_eq-verify}
use jcr.Server.Upload.{Config, parse_upload_id}
use jcr.Server.Commit.{expected_digest, collect_chunks, complete_upload}
use jcr.Server.Commit.Runs.{
  Assembled, hash_stored_blob-sound, refuse_upload-returns, begin_completion-fetched, assemble-db,
  finish_upload-IsRecorded,
}

-- What the upload handler found, read back and hashed before it committed: the session of the
-- request, and the object under its key.
pub record IsCompleted {S : Type 0} (store : BlobStore S) (platform : Platform) (config : Config)
    (now : ℕ) (authorized : Authorized) (id : Bytes) (query : Query) (before after : Database)
    : Type 0 where
  pub expected : Digest
  pub named : expected_digest query ≡ ok expected
  pub repository : Repository
  pub authorized_for : require_repository authorized.repository ≡ ok repository
  pub upload_id : ℕ
  pub parsed : parse_upload_id store platform config id ≡ ok upload_id
  pub upload : UploadRecord
  pub fetched : fetch_upload repository.id upload_id before ≡ some upload
  pub open_still : validate_upload now upload ≡ ok tt
  pub parts : List CompletedPart
  pub state : S
  pub assembled : Assembled store upload parts state
  pub state_after : S
  pub stream : List (Result StorageError Bytes)
  pub streamed : store.stream upload.session.object_key state ≡ (ok stream, state_after)
  pub bytes : Bytes
  pub size : ℕ
  pub collected : collect_chunks 0 [] stream ≡ ok (bytes, size)
  pub verified : verify platform.hex_sha256 expected bytes ≡ true
  pub recorded :
      IsRecorded repository.id upload_id
        (Digest.to_string expected)
        upload.session.object_key
        before.blobs
        after

module _ {S : Type 0} (store : BlobStore S) (platform : Platform) (config : Config) where
  complete_upload-Returns :
      (now : ℕ) (authorized : Authorized) (id : Bytes) (headers : Headers) (query : Query)
      (body : Body) (w : World S)
      → Returns
          (complete_upload store platform config now authorized id headers query body)
          w
          (λ response w'. IsCompleted store platform config now authorized id query w.db w'.db)
  unfolding complete_upload
  complete_upload-Returns now authorized id headers query body w = Returns-bind _ _ _ _ (
      Returns-lift _ _ _ (λ repository authorized_for. Returns-bind _ _ _ _ (
        Returns-lift _ _ _ (λ upload_id parsed. Returns-bind _ _ _ _ (
          Returns-lift _ _ _ (λ expected named. Returns-bind _ _ _ _ (
            Returns-lift _ _ _ (λ final_bytes _. Returns-bind _ _ _ _ (
              Returns-mono _ _ _ _
                (Returns-transaction _ _ _ (
                  begin_completion-fetched store platform now repository.id upload_id
                    headers.content_range final_bytes w))
                (λ upload w1 (fetched, open_still, begun). Returns-bind _ _ _ _ (
                  Returns-gets _ _ _ (
                    Returns-bind _ _ _ _ (
                      Returns-mono _ _ _ _
                        (assemble-db store platform upload (upload_parts upload_id w1.db) w1)
                        (λ _ w3 (same_blobs, assembled). Returns-bind _ _ _ _ (
                          hash_stored_blob-sound store platform upload.session.object_key w3 _
                            (λ stream s (actual, size) streamed hashed.
                              Returns-if (digest_eq actual expected) _ _ _ _
                                (λ same.
                                  Returns-mono _ _ _ _
                                    (finish_upload-IsRecorded store platform now repository
                                      authorized.user upload_id upload expected size _)
                                    (λ _ w4 recorded.
                                      let (bytes, collected, is_hash) =
                                        hash_chunks_sound platform.hex_sha256 stream actual size
                                          hashed in
                                      record {
                                        expected = expected;
                                        named = named;
                                        repository = repository;
                                        authorized_for = authorized_for;
                                        upload_id = upload_id;
                                        parsed = parsed;
                                        upload = upload;
                                        fetched = fetched;
                                        open_still = open_still;
                                        parts = upload_parts upload_id w1.db;
                                        state = w3.store;
                                        assembled = assembled;
                                        state_after = s;
                                        stream = stream;
                                        streamed = streamed;
                                        bytes = bytes;
                                        size = size;
                                        collected = collected;
                                        verified =
                                            digest_eq-verify platform.hex_sha256 actual expected
                                              bytes is_hash same;
                                        recorded =
                                            subst
                                              (λ blobs.
                                                IsRecorded repository.id upload_id
                                                  (Digest.to_string expected)
                                                  upload.session.object_key blobs w4.db)
                                              (same_blobs ∙ begun) recorded;
                                      }))
                                (λ _.
                                  refuse_upload-returns store platform upload_id upload _
                                    _)))))))))))))))))

  -- An upload that is answered without an error has committed the digest that its request names. The session was
  -- the one that the request's id names in the database before, of the repository that was authorized, and it was
  -- open; its object was assembled in the store and then read back under that session's key, and its bytes hash to the digest; now
  -- the digest's row is committed, and it points to that object, or else to an object that the digest was already
  -- committed under before; the repository is linked to the digest, and the session takes no more chunks.
  pub complete_upload-IsCompleted :
      (now : ℕ) (authorized : Authorized) (id : Bytes) (headers : Headers) (query : Query)
      (body : Body) (w : World S)
      → is_ok (complete_upload store platform config now authorized id headers query body w).0
        ≡ true
      → IsCompleted store platform config now authorized id query w.db
          (complete_upload store platform config now authorized id headers query body w).1.db
  complete_upload-IsCompleted now authorized id headers query body w h =
      returned_ok (complete_upload store platform config now authorized id headers query body) w
        (IsCompleted store platform config now authorized id query w.db)
        (complete_upload-Returns now authorized id headers query body w) h
