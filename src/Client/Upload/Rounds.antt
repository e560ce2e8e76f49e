-- ===== src/Client/Upload/Rounds.antt =====
-- registry.rs, upload_blob: the loop over the chunks and its fuel.
use jcr.Client.Ranges.{add_u64}
use jcr.Client.Requests.Chunks.{add_u64_lem}
use jcr.Prelude.{
  ◌∙◌, ℕ, zero, suc, ◌+◌, ◌-◌, ◌*◌, ◌/◌, ◌^◌, ◌≤◌, ◌<◌, ◌≡◌, refl, sym, inl, inr, some, Option,
  Bytes, ltb, ◌==◌, ==_iff, arith, Bool-cases, Result, ok, err,
}
use mathlib.Core.Path.{subst}
use jcr.Client.Exec.{
  Client, ClientState, ClientError, Environment, RegistryClient, unexpected_offset,
}
use jcr.Client.Runs.{Runs, Outcome, Runs-pure, Runs-lift, Runs-mono, Runs-if, Runs-bind, returned}
use jcr.Client.Requests.{UploadPosition}
use jcr.Client.Upload.{sub_u64, check_offset, upload_chunk, upload_chunks}
use jcr.Client.Upload.Files.{sub_u64_lem}

abbrev Any : {N : Type 0} → ClientState N → Type 0
Any s = Unit {0}

module _ {N A : Type 0} where
  Runs-weaken :
      (m : Client N A) (s : ClientState N) (Q : A → ClientState N → Type 0)
      → ((a : A) (s : ClientState N) → Q a s)
      → Runs m s Q Any
  Runs-weaken m s Q q = record { at = of (m s) }
    where
      of : (p : Result ClientError A × ClientState N) → Outcome Q Any p
      of (ok a, s) = q a s
      of (err e, s) = tt

module _ {N : Type 0} (environment : Environment N) (client : RegistryClient) (chunk_size : ℕ) where
  checked :
      (acknowledged expected : ℕ) (u : Unit {0})
      → check_offset acknowledged expected ≡ ok u
      → acknowledged ≡ expected
  checked acknowledged expected u h = elim (Bool-cases (acknowledged == expected)) [
    | inl same ↦ (==_iff acknowledged expected).0 same
    | inr other ↦ absurd (never (rw other at h))
  ]
    where
      never :
          ◌≡◌ {A = Result ClientError (Unit {0})}
            (err (unexpected_offset acknowledged expected))
            (ok u)
          → ⊥
      never h = cc

  -- A chunk moves the position by its size, whatever the registry answers.
  upload_chunk-offset :
      (key : Bytes) (position : UploadPosition) (rest : Bytes) (s : ClientState N)
      → Runs
          (upload_chunk environment client chunk_size key position rest)
          s
          (λ p s'. p.0.offset ≡ add_u64 position.offset chunk_size)
          Any
  unfolding upload_chunk
  upload_chunk-offset key position rest s = Runs-bind _ _ _ _ _ (
      Runs-weaken _ _ _ (λ (buffer, left) s1. Runs-bind _ _ _ _ _ (
        Runs-weaken _ _ _ (λ next s2. Runs-bind _ _ _ _ _ (
          Runs-lift _ _ _ _
            (λ u e. Runs-bind _ _ _ _ _ (
              Runs-weaken _ _ _ (λ _ s3.
                Runs-pure _ _ _ _ (checked next.offset (add_u64 position.offset chunk_size) u e))))
            tt)))))

  module _ (size : ℕ) (positive : 0 < chunk_size) (bounded : size < 2 ^ 64) where
    -- the position that ends the loop
    abbrev IsLast : Option (UploadPosition × Bytes) → Type 0
    IsLast o =
        (end : UploadPosition) × (left : Bytes) × (o ≡ some (end, left))
        × (end.offset ≤ size)
        × (size - end.offset < chunk_size)

    fewer :
        (fuel offset : ℕ)
        → size < offset + suc fuel * chunk_size
        → size < offset + chunk_size + fuel * chunk_size
    fewer fuel offset h = grind arith

    upload_chunks-IsLast :
        (fuel : ℕ) (key : Bytes) (position : UploadPosition) (rest : Bytes) (s : ClientState N)
        → position.offset ≤ size
        → size < position.offset + fuel * chunk_size
        → Runs
            (upload_chunks environment client chunk_size fuel key size position rest)
            s
            (λ o s'. IsLast o)
            Any
    unfolding upload_chunks
    upload_chunks-IsLast zero key position rest s h k = absurd (omega arith)
    upload_chunks-IsLast (suc fuel) key position rest s h k =
        let difference = sub_u64_lem size position.offset bounded h in
        Runs-if _ _ _ (ltb (sub_u64 size position.offset) chunk_size) _ _
          (λ small. Runs-pure _ _ _ _ (position, rest, refl, h, ground (arith, difference)))
          (λ big. Runs-bind _ _ _ _ _ (
            let step : position.offset + chunk_size ≤ size = ground (arith, difference) in
            let moved = add_u64_lem position.offset chunk_size (omega (arith, step, bounded)) in
            Runs-mono _ _ _ _ _ _
              (λ (next, left) s' e.
                upload_chunks-IsLast fuel key next left s'
                  (subst (λ n. n ≤ size) (sym (e ∙ moved)) step)
                  (subst (λ n. size < n + fuel * chunk_size) (sym (e ∙ moved))
                    (fewer fuel position.offset k)))
              (λ s' i. i) (upload_chunk-offset key position rest s)))

    enough : (offset : ℕ) → size < offset + (size / chunk_size + 1) * chunk_size
    enough offset = grind arith

-- The loop over the chunks ends: whatever the registry and the network answer, the fuel that `upload_from`
-- gives does not run out. A run that returns has a position within the file that leaves less than a
-- chunk, so that no difference of offsets wraps.
pub upload_chunks-ends :
    {N : Type 0} (environment : Environment N) (client : RegistryClient) (chunk_size size : ℕ)
    (key : Bytes) (position : UploadPosition) (rest : Bytes) (s s' : ClientState N)
    (o : Option (UploadPosition × Bytes))
    → 0 < chunk_size
    → size < 2 ^ 64
    → position.offset ≤ size
    → upload_chunks environment client chunk_size (size / chunk_size + 1) key size position rest s
      ≡ (ok o, s')
    → (end : UploadPosition) × (left : Bytes) × (o ≡ some (end, left))
      × (end.offset ≤ size)
      × (size - end.offset < chunk_size)
upload_chunks-ends environment client chunk_size size key position rest s s' o positive bounded h
      run =
    returned _ s _ Any o s'
      (upload_chunks-IsLast environment client chunk_size size positive bounded
        (size / chunk_size + 1) key position rest s h
        (enough environment client chunk_size size positive bounded position.offset))
      run
