-- ===== src/Client/Upload/Delivery.antt =====
-- registry.rs, upload_blob: what follows the position from which a blob is sent.
use jcr.Prelude.{
  refl, ◌⊎◌, inr, ℕ, ◌+◌, ◌-◌, ◌/◌, ◌^◌, ◌≤◌, ◌<◌, ◌≡◌, inl, sym, ap, ◌∙◌, some, [], ◌∷◌, ◌++◌,
  Bytes, length, length-append, arith, Result, ok, ok_or,
}
use mathlib.Core.Path.{subst}
use mathlib.Core.List.{append-nil}
use jcr.Digest.{Digest}
use jcr.Client.Exec.{
  ClientState, ClientError, Environment, RegistryClient, unreadable_file, out_of_fuel, lift, ◌>>=◌,
}
use jcr.Client.Runs.{Runs, Runs-lift, Runs-mono, Runs-bind}
use jcr.Client.Requests.{UploadPosition, complete_upload}
use jcr.Client.Requests.Completion.{complete_upload-Runs}
use jcr.Client.Registry.{IsFaithful, IsClean}
use jcr.Client.Upload.{BlobFile, drop, read_exact, sub_u64, upload_chunks, upload_from}
use jcr.Client.Upload.Files.{read_exact_sound, sub_u64_lem}
use jcr.Client.Upload.Starting.{some_of}
use jcr.Client.Upload.Chunked.{
  IsResumable, remembered-IsResumable, same-Remembers, Loop, Loop-IsResumable, upload_chunks-Runs,
}

module _ {N : Type 0} (environment : Environment N) (client : RegistryClient)
    (received : Bytes → N → Bytes) (stored : Digest → Bytes → N → Type 0)
    (faithful : IsFaithful environment client received stored) (chunk_size : ℕ)
    (positive : 0 < chunk_size) (content : Bytes) (blob : BlobFile)
    (readable : blob.content ≡ some content) (sized : length content ≡ blob.size)
    (bounded : blob.size < 2 ^ 64) (key : Bytes) where
  abbrev At : UploadPosition → Bytes → ClientState N → Type 0
  At =
      Loop environment client received stored faithful chunk_size positive content blob.size sized
        bounded key blob.digest

  abbrev pub CanResume : ClientState N → Type 0
  CanResume =
      IsResumable environment client received stored faithful chunk_size positive content blob.size
        sized bounded key blob.digest

  abbrev pub IsStored : Unit {0} → ClientState N → Type 0
  IsStored _ s = stored blob.digest content s.network × IsClean stored blob.digest content s.network

  -- the last bytes of the file
  rest_all :
      (held rest final left : Bytes)
      → held ++ rest ≡ content
      → final ++ left ≡ rest
      → length final ≡ blob.size - length held
      → held ++ final ≡ content
  rest_all held rest final [] whole joined long =
      ap (λ x. held ++ x) (sym (append-nil final) ∙ joined) ∙ whole
  rest_all held rest final (b ∷ left) whole joined long = absurd (
      omega (
        arith,
        ap length whole,
        ap length joined,
        long,
        sized,
        length-append {0} held rest,
        length-append {0} final (b ∷ left),
      ))

  within : (held rest : Bytes) → held ++ rest ≡ content → length held ≤ blob.size
  within held rest whole = omega (arith, ap length whole, sized, length-append {0} held rest)

  pub upload_from-Runs :
      (position : UploadPosition) (s : ClientState N)
      → At position (drop position.offset content) s
      → Runs
          (upload_from environment client chunk_size key blob position)
          s
          IsStored
          (λ s'. CanResume s')
  unfolding upload_from
  upload_from-Runs position s l = rw readable (
      Runs-bind _ _ _ _ _ (
        Runs-lift _ _ _ _
          (λ file e.
            subst (λ f. After_file f) (file_of file e)
              (Runs-bind _ _ _ _ _ (
                Runs-mono _ _ _ _ _ _
                  (λ result s' (looped, resumable). Runs-bind _ _ _ _ _ (
                    Runs-lift _ _ _ _
                      (λ (end, rest) e'.
                        let l' = looped end rest (some_of out_of_fuel result (end, rest) e') in
                        Runs-bind _ _ _ _ _ (
                          Runs-lift _ _ _ _
                            (λ (final, left) e''.
                              let (joined, long) = read_exact_sound _ rest final left (
                                some_of unreadable_file
                                  (read_exact (sub_u64 blob.size end.offset) rest) (final, left)
                                  e'') in
                              let bound : end.offset ≤ blob.size =
                                subst (λ n. n ≤ blob.size) (sym l'.offset)
                                  (within l'.held rest l'.whole) in
                              let long' : length final ≡ blob.size - length l'.held =
                                long
                                ∙ (sub_u64_lem blob.size end.offset bounded bound
                                    ∙ ap (λ n. blob.size - n) l'.offset) in
                              let all_there =
                                rest_all l'.held rest final left l'.whole joined long' in
                              Runs-mono _ _ _ _ _ _
                                (λ _ s'' d.
                                  subst
                                    (λ c.
                                      stored blob.digest c s''.network
                                      × IsClean stored blob.digest c s''.network)
                                    all_there d)
                                (λ s'' ((pending, same), clean).
                                  ended end rest s' s'' l' final all_there same pending (
                                    subst (λ c. IsClean stored blob.digest c s''.network) all_there
                                      clean))
                                (complete_upload-Runs environment client received stored faithful
                                  l'.url l'.held final blob.digest s'.uploads end.location
                                  end.offset s' l'.offset l'.resolved
                                  (
                                    (inl l'.holds, refl),
                                    subst (λ c. IsClean stored blob.digest c s'.network)
                                        (sym all_there) l'.clean,
                                  )))
                            resumable))
                      resumable))
                  (λ s' i. i)
                  (upload_chunks-Runs environment client received stored faithful chunk_size
                    positive content blob.size sized bounded key blob.digest
                    (blob.size / chunk_size + 1) position (drop position.offset content) s l))))
          (Loop-IsResumable _ _ _ _ _ _ _ _ _ _ _ _ _ position (drop position.offset content) s l)))
    where
      After_file : Bytes → Type 0
      After_file f =
          Runs
            (upload_chunks environment client chunk_size (blob.size / chunk_size + 1) key blob.size
                position (drop position.offset f)
              >>= λ uploaded. lift (ok_or uploaded out_of_fuel) >>= λ (end, rest).
                  lift (ok_or (read_exact (sub_u64 blob.size end.offset) rest) unreadable_file)
                  >>= λ (final_bytes, _).
                      complete_upload environment client end.location end.offset blob.digest
                        final_bytes)
            s IsStored (λ s'. CanResume s')

      ended :
          (position : UploadPosition) (rest : Bytes) (s s'' : ClientState N)
          (l' : At position rest s) (final : Bytes)
          → l'.held ++ final ≡ content
          → s''.uploads ≡ s.uploads
          → (received l'.url s''.network ≡ l'.held)
            ⊎ (received l'.url s''.network ≡ l'.held ++ final)
          → IsClean stored blob.digest content s''.network
          → CanResume s''
      ended position rest s s'' l' final whole same pending clean =
          remembered-IsResumable environment client received stored faithful chunk_size positive
            content blob.size sized bounded key blob.digest l'.url s''
            (same-Remembers environment client received stored faithful chunk_size positive content
              blob.size sized bounded key blob.digest l'.url s.uploads s''.uploads same
              l'.remembers)
            l'.is_one (prefix pending) clean
        where
          prefix :
              (received l'.url s''.network ≡ l'.held)
                ⊎ (received l'.url s''.network ≡ l'.held ++ final)
              → (more : Bytes) × (received l'.url s''.network ++ more ≡ content)
          prefix (inl e) = (final, ap (λ x. x ++ final) e ∙ whole)
          prefix (inr e) = ([], append-nil (received l'.url s''.network) ∙ (e ∙ whole))

      file_of :
          (file : Bytes)
          → ◌≡◌ {A = Result ClientError Bytes} (ok content) (ok file)
          → content ≡ file
      file_of file e = cc
