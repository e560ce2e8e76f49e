-- ===== src/Server/Commit/Hashing.antt =====
-- What `hash_stored_blob` computes of the chunks of a stored object.
use jcr.Prelude.{
  err-ok, ℕ, ◌+◌, ◌≡◌, refl, sym, ap, ◌∙◌, inl, inr, true, List, [], ◌∷◌, ◌++◌, map, arith, ltb,
  ◌==◌, Bool-cases, length, length-append, Bytes, bytes_eq, Result, ok, err, ok-injective,
}
use mathlib.Core.Path.{subst}
use mathlib.Core.List.{append_assoc, append-nil}
use jcr.Digest.{Digest, digest_eq, sha256, verify}
use jcr.Storage.{StorageError}
use jcr.Server.Error.{AppError}
use jcr.Server.Commit
use jcr.Server.Commit.{
  max_bigint, expected_digest, is_committed, collect_chunks, hash_chunks, has_digest, merge_blob,
  is_key_taken, is_duplicate, new_blob, committed_rows, commit_statements, commit_blob,
  begin_completion, assemble, hash_stored_blob, repair_missing_blob_metadata, finish_upload,
  refuse_upload, complete_upload, insert_audit, user_id,
}

pub hash_chunks_sound :
    (hex : Bytes → Bytes) (stream : List (Result StorageError Bytes)) (d : Digest) (size : ℕ)
    → hash_chunks hex stream ≡ ok (d, size)
    → (bytes : Bytes) × (collect_chunks 0 [] stream ≡ ok (bytes, size)) × (d ≡ sha256 hex bytes)
unfolding hash_chunks
hash_chunks_sound hex stream d size h = of (collect_chunks 0 [] stream) h
  where
    of :
        (r : Result AppError (Bytes × ℕ))
        → Commit.digest_of hex r ≡ ok (d, size)
        → (bytes : Bytes) × (r ≡ ok (bytes, size)) × (d ≡ sha256 hex bytes)
    of (ok (bytes, n)) h =
        let p = ok-injective h in
        (bytes, ap (λ k. ok (bytes, k)) (ap (λ q. q.1) p), sym (ap (λ q. q.0) p))
    of (err e) h = absurd (err-ok h)

eq_sym : (a b : ℕ) → a == b ≡ b == a
eq_sym a b = ground arith

bytes_eq_sym : (s t : Bytes) → bytes_eq s t ≡ bytes_eq t s
unfolding bytes_eq
bytes_eq_sym [] [] = refl
bytes_eq_sym [] (b ∷ t) = refl
bytes_eq_sym (a ∷ s) [] = refl
bytes_eq_sym (a ∷ s) (b ∷ t) = rw (eq_sym a b, bytes_eq_sym s t)

digest_eq_sym : (d e : Digest) → digest_eq d e ≡ digest_eq e d
unfolding digest_eq
digest_eq_sym d e = rw (bytes_eq_sym d.algorithm e.algorithm, bytes_eq_sym d.encoded e.encoded)

pub digest_eq-verify :
    (hex : Bytes → Bytes) (actual expected : Digest) (bytes : Bytes)
    → actual ≡ sha256 hex bytes
    → digest_eq actual expected ≡ true
    → verify hex expected bytes ≡ true
unfolding verify
digest_eq-verify hex actual expected bytes e h =
    digest_eq_sym expected (sha256 hex bytes) ∙ subst (λ d. digest_eq d expected ≡ true) e h

abbrev pub contents : List Bytes → Bytes
contents [] = []
contents (c ∷ cs) = c ++ contents cs

abbrev pub whole : List Bytes → List (Result StorageError Bytes)
whole cs = map ok cs

-- The bytes that are hashed are all the chunks of the stream in their order, and the size is their length.
pub collect_chunks-contents :
    (n : ℕ) (seen : Bytes) (stream : List (Result StorageError Bytes)) (bytes : Bytes) (size : ℕ)
    → collect_chunks n seen stream ≡ ok (bytes, size)
    → (cs : List Bytes) × (stream ≡ whole cs)
      × (bytes ≡ seen ++ contents cs)
      × (size ≡ n + length (contents cs))
unfolding collect_chunks
collect_chunks-contents n seen [] bytes size h = (
  [],
  refl,
  sym (ap (λ q. q.0) (ok-injective h)) ∙ sym (append-nil seen),
  sym (ap (λ q. q.1) (ok-injective h)) ∙ plus_zero n,
)
  where
    plus_zero : (n : ℕ) → n ≡ n + 0
    plus_zero n = omega arith
collect_chunks-contents n seen (err e ∷ stream) bytes size h = absurd (err-ok h)
collect_chunks-contents n seen (ok c ∷ stream) bytes size h =
    elim (Bool-cases (ltb max_bigint (n + length c))) [
      | inl e ↦ absurd (err-ok (rw (e, collect_chunks) at h))
      | inr e ↦
          let (cs, whole_of, all_of, sized) =
            collect_chunks-contents (n + length c) (seen ++ c) stream bytes size
              (rw (e, collect_chunks) at h) in
          (
            c ∷ cs,
            ap (λ s. ok c ∷ s) whole_of,
            all_of ∙ append_assoc seen c (contents cs),
            omega (arith, sized, length-append c (contents cs)),
          )
    ]
