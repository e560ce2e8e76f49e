-- ===== src/Tests/Resumption.antt =====
-- An upload that is cut off on the small registry, and resumed.
use jcr.Prelude.{
  ℕ, ◌+◌, ◌&&◌, ◌==◌, true, false, Bool, none, some, [], ◌∷◌, Bytes, codes, length, Result,
}
use jcr.Digest.{Digest}
use jcr.Client.Exec.{Method, Request, Environment, RegistryClient, ClientState, ClientError}
use jcr.Client.Upload.{BlobFile, upload_key}
use jcr.Tests.Registry.{Remote, remote}
use jcr.Tests.Lossy.{lossy}
use jcr.Tests.Client.{client, file, holding}

-- The answer to the second chunk is lost.
abbrev is_patch : Method → Bool
is_patch Method.patch = true
is_patch _ = false

abbrev loses_second : Request → Remote → Bool
loses_second r n = is_patch r.method && length n.held == 2

abbrev network : Environment Remote
network = lossy loses_second remote

abbrev half : ClientState Remote
half = record {
  network = holding (codes "laye");
  token = codes "token";
  uploads =
      (
        upload_key client (codes "registry") file.digest,
        record { location = codes "v2/ada/tool/blobs/uploads/"; offset = 2 },
      )
      ∷ [];
}
