-- ===== src/Tests/Lossy.antt =====
-- A registry behind a network that loses answers, which keeps what the client relies on.
use jcr.Prelude.{
  ℕ, ◌+◌, ◌≡◌, ◌⊎◌, inl, inr, refl, Bool, true, false, [], ◌∷◌, length, Bytes, codes, if◌then◌else◌,
  Result, err,
}
use jcr.Digest
use jcr.Digest.{Digest}
use jcr.Client.Exec.{
  Method, Request, HttpResponse, TransportError, broken, Environment, RegistryClient,
}
use jcr.Client.Registry
use jcr.Client.Registry.{IsFaithful, Appended, ignored, taken, has_status, succeeded}

abbrev Answer : Type 0
Answer = Result TransportError HttpResponse

abbrev kept_or_lost : Bool → Answer → Answer
kept_or_lost lost answer = if lost then err broken else answer

-- Requests arrive; the answers that `lose` picks do not.
abbrev pub lossy : {N : Type 0} → (Request → N → Bool) → Environment N → Environment N
lossy lose environment = record environment {
  send = λ r n. (kept_or_lost (lose r n) (environment.send r n).0, (environment.send r n).1);
}

lost-Appended :
    (before after body : Bytes) (offset status : ℕ) (lost : Bool) (answer : Answer)
    → Appended before after body offset (has_status status answer)
    → Appended before after body offset (has_status status (kept_or_lost lost answer))
lost-Appended before after body offset status true answer (ignored a same) = ignored refl same
lost-Appended before after body offset status true answer (taken at grown) = taken at grown
lost-Appended before after body offset status false answer k = k

-- What an answer says, it said before it was lost or not.
answered_before :
    (test : Answer → Bool) (P : Answer → Type 0) (lost : Bool) (answer : Answer)
    → test (err broken) ≡ false
    → test (kept_or_lost lost answer) ≡ true
    → (test answer ≡ true → P answer)
    → P (kept_or_lost lost answer)
answered_before test P true answer silent h k = absurd (never silent h)
  where
    never : test (err broken) ≡ false → test (err broken) ≡ true → ⊥
    never e h = cc
answered_before test P false answer silent h k = k h

module _ {N : Type 0} (lose : Request → N → Bool) (environment : Environment N) where
  abbrev answer_of : Request → N → Answer
  answer_of r n = (environment.send r n).0

  of_answer :
      (test : Answer → Bool) (P : Answer → Type 0) (r : Request) (n : N)
      → test (err broken) ≡ false
      → test (kept_or_lost (lose r n) (answer_of r n)) ≡ true
      → (test (answer_of r n) ≡ true → P (answer_of r n))
      → P (kept_or_lost (lose r n) (answer_of r n))
  of_answer test P r n silent h k = answered_before test P (lose r n) (answer_of r n) silent h k

  started_before :
      (P : Answer → Type 0) (r : Request) (n : N)
      → (has_status 202 (kept_or_lost (lose r n) (answer_of r n)) ≡ true)
        ⊎ (has_status 201 (kept_or_lost (lose r n) (answer_of r n)) ≡ true)
      → ((has_status 202 (answer_of r n) ≡ true) ⊎ (has_status 201 (answer_of r n) ≡ true)
          → P (answer_of r n))
      → P (kept_or_lost (lose r n) (answer_of r n))
  started_before P r n (inl h) k = of_answer (has_status 202) P r n refl h (λ e. k (inl e))
  started_before P r n (inr h) k = of_answer (has_status 201) P r n refl h (λ e. k (inr e))

pub lossy-IsFaithful :
    {N : Type 0} (lose : Request → N → Bool) (environment : Environment N) (client : RegistryClient)
    (received : Bytes → N → Bytes) (stored : Digest → Bytes → N → Type 0)
    → IsFaithful environment client received stored
    → IsFaithful (lossy lose environment) client received stored
lossy-IsFaithful {N} lose environment client received stored f = record {
  patched = λ url token offset body n some_bytes.
      let r = Registry.patch_request url token offset body in
      lost-Appended (received url n) (received url (environment.send r n).1) body offset 202
        (lose r n) (environment.send r n).0 (f.patched url token offset body n some_bytes);
  acknowledged = λ url token offset body n some_bytes h.
      of_answer lose environment (has_status 202)
        (λ a.
          Registry.IsAt environment.resolve url (offset + length body) (Registry.chunk_position a))
        (Registry.patch_request url token offset body) n refl h
        (f.acknowledged url token offset body n some_bytes);
  asked = f.asked;
  is_upload = f.is_upload;
  answered = λ url token n one h.
      of_answer lose environment succeeded
        (λ a.
          Registry.IsAt environment.resolve url (length (received url n))
            (Registry.status_position a))
        (Registry.bare_request Method.get url token) n refl h (f.answered url token n one);
  started = λ target token n at h.
      started_before lose environment
        (λ a.
          (url : Bytes) × (f.is_upload url ≡ true)
          × Registry.IsAt environment.resolve url 0 (Registry.start_position a)
          × (received url (environment.send (Registry.bare_request Method.post target token) n).1
              ≡ []))
        (Registry.bare_request Method.post target token) n h (f.started target token n at);
  completed = λ url token offset digest body n.
      let r =
        Registry.put_request
          (environment.with_pairs url ((codes "digest", Digest.to_string digest) ∷ [])) token offset
          body in
      lost-Appended (received url n) (received url (environment.send r n).1) body offset 201
        (lose r n) (environment.send r n).0 (f.completed url token offset digest body n);
  committed = λ url token offset digest body n h.
      let r =
        Registry.put_request
          (environment.with_pairs url ((codes "digest", Digest.to_string digest) ∷ [])) token offset
          body in
      of_answer lose environment (has_status 201)
        (λ _. stored digest (received url (environment.send r n).1) (environment.send r n).1) r n
        refl h (f.committed url token offset digest body n);
  headed = f.headed;
  found = λ digest target token n at h.
      let r = Registry.bare_request Method.head target token in
      of_answer lose environment succeeded
        (λ _. (content : Bytes) × stored digest content (environment.send r n).1) r n refl h
        (f.found digest target token n at);
  authenticated = f.authenticated;
  saved = f.saved;
  kept = f.kept;
  unstored = f.unstored;
  opened = f.opened;
  replaced = f.replaced;
  unsaved = f.unsaved;
}
