-- ===== src/Client/Upload/Resumption.antt =====
-- registry.rs, upload_blob, run again after it was cut off.
use jcr.Prelude.{ℕ, ◌^◌, ◌<◌, ◌≡◌, some, Bytes, length, Result, ok, err}
use jcr.Digest.{Digest}
use jcr.Client.Exec.{Client, ClientState, ClientError, Environment, RegistryClient}
use jcr.Client.Runs.{failed}
use jcr.Client.Registry.{IsFaithful, IsClean}
use jcr.Client.Upload.{BlobFile, upload_blob, upload_key}
use jcr.Client.Upload.Blobs.{CanUpload, upload_blob-Runs}
use jcr.Client.Upload.Missing.{Resumable}

-- the states that failed runs lead to, one after another
pub data Attempts {N : Type 0} (run : Client N (Unit {0})) (s : ClientState N)
    : ClientState N → Type 0 where
  untried : Attempts run s s
  cut_off :
      (before after : ClientState N) (e : ClientError)
      → Attempts run s before
      → run before ≡ (err e, after)
      → Attempts run s after

module _ {N : Type 0} (environment : Environment N) (client : RegistryClient)
    (received : Bytes → N → Bytes) (stored : Digest → Bytes → N → Type 0)
    (faithful : IsFaithful environment client received stored) (chunk_size : ℕ)
    (positive : 0 < chunk_size) (content : Bytes) (blob : BlobFile)
    (readable : blob.content ≡ some content) (sized : length content ≡ blob.size)
    (bounded : blob.size < 2 ^ 64) (registry : Bytes) where
  abbrev CanStart : ClientState N → Type 0
  CanStart =
      Resumable environment client received stored faithful chunk_size positive content blob
        readable sized bounded (upload_key client registry blob.digest)

  pub Attempts-CanStart :
      (s s' : ClientState N)
      → CanStart s
      → Attempts (upload_blob environment client chunk_size registry blob) s s'
      → CanStart s'
  Attempts-CanStart s s' h untried = h
  Attempts-CanStart s s' h (cut_off before after e tried run) =
      failed _ before _ _ e after
        (upload_blob-Runs environment client received stored faithful chunk_size positive content
          blob readable sized bounded registry before (Attempts-CanStart s before h tried))
        run

-- How an attempt leaves the blob: delivered where it returns, and ready for the next attempt where it fails.
abbrev pub IsLeft :
    {N : Type 0} (environment : Environment N) (client : RegistryClient)
    (received : Bytes → N → Bytes) (stored : Digest → Bytes → N → Type 0)
    → IsFaithful environment client received stored
    → Bytes
    → Bytes
    → BlobFile
    → Result ClientError (Unit {0})
    → ClientState N
    → Type 0
IsLeft environment client received stored faithful content registry blob (ok done) s =
    stored blob.digest content s.network × IsClean stored blob.digest content s.network
IsLeft environment client received stored faithful content registry blob (err e) s =
    CanUpload environment client received stored faithful content registry blob s
