-- ===== src/Client/Upload/Asking.antt =====
-- registry.rs, blob_exists: the question for a digest, and what can be resumed.
use jcr.Prelude.{
  none-some, false-true, ℕ, ◌^◌, ◌<◌, ◌≡◌, inl, inr, sym, ◌∙◌, Bool, true, false, none, some, [],
  ◌++◌, Bytes, length, Option-cases,
}
use mathlib.Core.Path.{subst}
use jcr.Digest.{Digest}
use jcr.Client.Exec.{
  ClientState, ResumeEntry, ResumeData, resume_entry, Environment, RegistryClient,
}
use jcr.Client.Runs.{Runs, Runs-mono}
use jcr.Client.Requests.{blob_exists}
use jcr.Client.Requests.Retries.{HasDigest, blob_exists-Runs}
use jcr.Client.Registry.{IsFaithful, IsClean, IsQuiet, IsClean-IsQuiet}
use jcr.Client.Upload.{BlobFile}
use jcr.Client.Upload.Delivery.{CanResume}

module _ {N : Type 0} (environment : Environment N) (client : RegistryClient)
    (received : Bytes → N → Bytes) (stored : Digest → Bytes → N → Type 0)
    (faithful : IsFaithful environment client received stored) (chunk_size : ℕ)
    (positive : 0 < chunk_size) (content : Bytes) (blob : BlobFile)
    (readable : blob.content ≡ some content) (sized : length content ≡ blob.size)
    (bounded : blob.size < 2 ^ 64) (key : Bytes) where
  abbrev Clean : N → Type 0
  Clean = IsClean stored blob.digest content

  quiet : IsQuiet environment Clean
  quiet = IsClean-IsQuiet environment client received stored faithful blob.digest content

  abbrev IsPrefix : Bytes → Type 0
  IsPrefix held = (rest : Bytes) × (held ++ rest ≡ content)

  abbrev Resumable : ClientState N → Type 0
  Resumable =
      CanResume environment client received stored faithful chunk_size positive content blob
        readable sized bounded key

  -- a question for the digest leaves what can be resumed
  abbrev Asked : Bool → ClientState N → Type 0
  Asked found s =
      Resumable s × (found ≡ true → (other : Bytes) × stored blob.digest other s.network)

  some_same : (a b : ResumeEntry) → some a ≡ some b → a ≡ b
  some_same a b h = cc

  some_url : (a b : Bytes) → some a ≡ some b → a ≡ b
  some_url a b h = cc

  asked :
      (url : Bytes) (K : Bytes → ResumeData → Type 0) (s : ClientState N)
      → ((s : ClientState N) → K (received url s.network) s.uploads → Clean s.network → Resumable s)
      → K (received url s.network) s.uploads
      → Clean s.network
      → Runs (blob_exists environment client blob.digest) s Asked (λ s'. Resumable s')
  asked url K s resumable j clean =
      Runs-mono _ _ _ _ _ _ (λ found s' k. of found s' k) (λ s' (j', clean). resumable s' j' clean)
        (blob_exists-Runs environment client received stored faithful url K Clean quiet blob.digest
          s (j, clean))
    where
      of :
          (found : Bool) (s' : ClientState N)
          → HasDigest environment client received stored faithful url K Clean quiet blob.digest
              found s'
          → Asked found s'
      of true s' ((k, clean), there) = (resumable s' k clean, λ _. there)
      of false s' (k, clean) = (resumable s' k clean, λ h. absurd (false-true h))

  pub blob_exists-Asked :
      (s : ClientState N)
      → Resumable s
      → Runs (blob_exists environment client blob.digest) s Asked (λ s'. Resumable s')
  blob_exists-Asked s h = elim (Option-cases (resume_entry key s.uploads)) [
    | inl nothing ↦
        asked [] (λ c u. resume_entry key u ≡ none) s
          (λ s' n clean. (λ entry e. absurd (none-some (sym n ∙ e)), clean)) nothing h.1
    | inr (entry, known) ↦ elim (Option-cases (environment.resolve entry.location)) [
      | inl lost ↦
          asked [] (λ c u. resume_entry key u ≡ some entry) s
            (λ s' k clean. (
              λ other e url at.
                  let same = some_same entry other (sym k ∙ e) in
                  absurd (
                    nowhere url (
                      sym lost
                      ∙ subst (λ x. environment.resolve x.location ≡ some url) (sym same) at)),
              clean,
            ))
            known h.1
      | inr (url, at) ↦
          asked url (λ c u. (resume_entry key u ≡ some entry) × IsPrefix c) s
            (λ s' (k, prefix) clean. (
              λ other e target at'.
                  let same = some_same entry other (sym k ∙ e) in
                  let there = some_url url target (
                    sym at
                    ∙ subst (λ x. environment.resolve x.location ≡ some target) (sym same) at') in
                  subst (λ t. (faithful.is_upload t ≡ true) × IsPrefix (received t s'.network))
                    there ((h.0 entry known url at).0, prefix),
              clean,
            ))
            (known, (h.0 entry known url at).1) h.1
    ]
  ]
    where
      nowhere : (url : Bytes) → none ≡ some url → ⊥
      nowhere url e = cc
