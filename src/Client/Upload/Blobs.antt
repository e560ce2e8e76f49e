-- ===== src/Client/Upload/Blobs.antt =====
-- registry.rs, upload_blob as a whole.
use jcr.Prelude.{true, ℕ, ◌^◌, ◌<◌, ◌≡◌, some, ◌++◌, Bytes, length, ok}
use mathlib.Core.Path.{subst}
use jcr.Digest.{Digest}
use jcr.Client.Exec.{ClientState, ResumeEntry, resume_entry, Environment, RegistryClient}
use jcr.Client.Runs.{Runs, Runs-mono, Runs-if, Runs-bind}
use jcr.Client.Registry.{IsFaithful, IsClean}
use jcr.Client.Upload.{BlobFile, upload_key, upload_blob}
use jcr.Client.Upload.Starting.{resume_remove-Runs}
use jcr.Client.Runs.{returned}
use jcr.Client.Upload.Delivery.{IsStored}
use jcr.Client.Upload.Missing.{Resumable, saved-Resumable, kept-Stored, upload_missing-Runs}
use jcr.Client.Upload.Asking.{blob_exists-Asked}

module _ {N : Type 0} (environment : Environment N) (client : RegistryClient)
    (received : Bytes → N → Bytes) (stored : Digest → Bytes → N → Type 0)
    (faithful : IsFaithful environment client received stored) (chunk_size : ℕ)
    (positive : 0 < chunk_size) (content : Bytes) (blob : BlobFile)
    (readable : blob.content ≡ some content) (sized : length content ≡ blob.size)
    (bounded : blob.size < 2 ^ 64) (registry : Bytes) where
  abbrev key : Bytes
  key = upload_key client registry blob.digest

  pub upload_blob-Runs :
      (s : ClientState N)
      → Resumable environment client received stored faithful chunk_size positive content blob
          readable sized bounded key s
      → Runs
          (upload_blob environment client chunk_size registry blob)
          s
          (IsStored environment client received stored faithful chunk_size positive content blob
            readable sized bounded key)
          (Resumable environment client received stored faithful chunk_size positive content blob
            readable sized bounded key)
  unfolding upload_blob
  upload_blob-Runs s h = Runs-bind _ _ _ _ _ (
      Runs-mono _ _ _ _ _ _
        (λ found s' (resumable, there).
          Runs-if _ _ _ found _ _
            (λ yes_found.
              resume_remove-Runs environment client received stored faithful key s' _ _
                (λ uploads v. (
                  kept-Stored environment client received stored faithful chunk_size positive
                      content blob readable sized bounded key uploads s'
                      (
                        let (other, held) = there yes_found in
                            subst (λ c. stored blob.digest c s'.network) (resumable.1 other held)
                              held,
                        resumable.1,
                      ),
                  saved-Resumable environment client received stored faithful chunk_size positive
                      content blob readable sized bounded key s' uploads v resumable.1,
                )))
            (λ missing.
              upload_missing-Runs environment client received stored faithful chunk_size positive
                content blob readable sized bounded key s' resumable))
        (λ s' i. i)
        (blob_exists-Asked environment client received stored faithful chunk_size positive content
          blob readable sized bounded key s h))

-- What is known before an upload of a blob: the registry stores no other content under its digest than
-- the file's, and an upload that is remembered of it is one that holds a part of the file.
abbrev pub CanUpload :
    {N : Type 0} (environment : Environment N) (client : RegistryClient)
    (received : Bytes → N → Bytes) (stored : Digest → Bytes → N → Type 0)
    → IsFaithful environment client received stored
    → Bytes
    → Bytes
    → BlobFile
    → ClientState N
    → Type 0
CanUpload environment client received stored faithful content registry blob s =
    ((entry : ResumeEntry)
      → resume_entry (upload_key client registry blob.digest) s.uploads ≡ some entry
      → (url : Bytes) → environment.resolve entry.location ≡ some url
      → (faithful.is_upload url ≡ true)
        × ((rest : Bytes) × (received url s.network ++ rest ≡ content)))
    × IsClean stored blob.digest content s.network

-- An upload that returns has delivered the file: its digest is stored with the content of the file, and with no
-- other. The registry is one that keeps to the documented behaviour of uploads, behind a network that may lose any
-- request and any answer; it need not check what it is sent. The file is read as it is, and has the size that the
-- image names; before, no other content is stored under the digest, and an upload that is remembered of the blob
-- holds a part of the file.
pub upload_blob-delivers :
    {N : Type 0} (environment : Environment N) (client : RegistryClient)
    (received : Bytes → N → Bytes) (stored : Digest → Bytes → N → Type 0)
    (faithful : IsFaithful environment client received stored) (chunk_size : ℕ)
    (content registry : Bytes) (blob : BlobFile) (s s' : ClientState N)
    → 0 < chunk_size
    → blob.content ≡ some content
    → length content ≡ blob.size
    → blob.size < 2 ^ 64
    → CanUpload environment client received stored faithful content registry blob s
    → upload_blob environment client chunk_size registry blob s ≡ (ok tt, s')
    → stored blob.digest content s'.network × IsClean stored blob.digest content s'.network
upload_blob-delivers environment client received stored faithful chunk_size content registry blob s
      s' positive readable sized bounded ready run =
    returned _ s _ _ tt s'
      (upload_blob-Runs environment client received stored faithful chunk_size positive content blob
        readable sized bounded registry s ready)
      run
