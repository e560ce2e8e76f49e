-- ===== src/Client/Upload/Starting.antt =====
-- registry.rs, start_upload, and resume.rs, set and remove.
use jcr.Prelude.{
  ap, ◌∙◌, bytes_eq, bytes_eq_refl, err-ok, ◌≡◌, ◌⊎◌, inl, inr, sym, refl, Bool, true, false, none,
  some, Option, [], ◌∷◌, Bytes, ◌==◌, if◌then◌else◌, Bool-cases, Result, ok, err, ok_or,
}
use mathlib.Core.Path.{subst}
use jcr.Digest.{Digest}
use jcr.Client.Exec.{
  Method, Client, ClientState, ClientError, ResumeEntry, ResumeData, resume_entry, without,
  Environment, RegistryClient, HttpResponse, TransportError, unreachable, broken, transport,
  refused, unreadable_file, out_of_fuel, invalid_url, pure, lift, attempt, resume_get, resume_set,
  resume_remove, ◌>>=◌, ◌>>◌,
}
use jcr.Client.Exec
use jcr.Client.Runs.{Runs, Runs-pure, Runs-lift, Runs-bind, Outcome}
use jcr.Client.Ranges.{transient}
use jcr.Client.Requests.{
  UploadPosition, Next, finish, refresh, again, max_attempts, registry_url, send_authorized,
  upload_position, start_answer, start_upload,
}
use jcr.Client.Requests.Sending.{After, retry-Runs, send_authorized-Runs}
use jcr.Client.Registry.{
  IsFaithful, IsAt, IsClean, IsClean-IsQuiet, uploads_url, token_request, start_position,
  has_status,
}

pub some_of : {A : Type 0} (e : ClientError) (o : Option A) (a : A) → ok_or o e ≡ ok a → o ≡ some a
some_of {A} e none a h = absurd (err-ok h)
some_of e (some b) a h = cc

abbrev pub Any : {N : Type 0} → ClientState N → Type 0
Any s = Unit {0}

-- What is remembered of a key is what was set last.
resume_entry-set :
    (key : Bytes) (entry : ResumeEntry) (uploads : ResumeData)
    → resume_entry key ((key, entry) ∷ uploads) ≡ some entry
resume_entry-set key entry uploads = rw (bytes_eq_refl key) refl

resume_entry-other :
    (key k : Bytes) (entry : ResumeEntry) (uploads : ResumeData)
    → bytes_eq k key ≡ false
    → resume_entry key ((k, entry) ∷ uploads) ≡ resume_entry key uploads
resume_entry-other key k entry uploads h = rw h refl

resume_entry-without :
    (key : Bytes) (uploads : ResumeData) → resume_entry key (without key uploads) ≡ none
resume_entry-without key [] = refl
resume_entry-without key ((k, entry) ∷ uploads) = elim (Bool-cases (bytes_eq k key)) [
  | inl same ↦ rw same (resume_entry-without key uploads)
  | inr other ↦
      ap (resume_entry key) (kept other)
      ∙ (resume_entry-other key k entry (without key uploads) other
          ∙ resume_entry-without key uploads)
]
  where
    kept :
        bytes_eq k key ≡ false
        → without key ((k, entry) ∷ uploads) ≡ (k, entry) ∷ without key uploads
    kept h = rw h refl

module _ {N : Type 0} (environment : Environment N) (client : RegistryClient)
    (received : Bytes → N → Bytes) (stored : Digest → Bytes → N → Type 0)
    (faithful : IsFaithful environment client received stored) (key : Bytes) where
  module _ (digest : Digest) (content : Bytes) where
    -- an upload that is empty
    abbrev pub Fresh : UploadPosition → ClientState N → Type 0
    Fresh position s =
        (url : Bytes) × (environment.resolve position.location ≡ some url)
        × (faithful.is_upload url ≡ true)
        × (position.offset ≡ 0)
        × (received url s.network ≡ [])
        × IsClean stored digest content s.network

    -- Nothing is remembered of the key.
    abbrev Vacant : ClientState N → Type 0
    Vacant s = (resume_entry key s.uploads ≡ none) × IsClean stored digest content s.network

    token_kept :
        (target : Bytes) (s : ClientState N)
        → Vacant s
        → Vacant (record s {
          network =
              (environment.send (token_request target client.username client.secret) s.network).1;
        })
    token_kept target s v = (
      v.0,
      IsClean-IsQuiet environment client received stored faithful digest content
          (token_request target client.username client.secret) s.network refl v.1,
    )

    abbrev FreshAfter : Next UploadPosition → ClientState N → Type 0
    FreshAfter = After environment client Vacant token_kept (λ _ _ v. v) Fresh

    start_answer-After :
        (response : Result TransportError HttpResponse) (s : ClientState N)
        → Vacant s
        → ((has_status 202 response ≡ true) ⊎ (has_status 201 response ≡ true)
            → (url : Bytes) × (faithful.is_upload url ≡ true)
              × IsAt environment.resolve url 0 (start_position response)
              × (received url s.network ≡ []))
        → FreshAfter (start_answer response) s
    unfolding start_answer
    start_answer-After (err unreachable) s v f = v
    start_answer-After (err broken) s v f = v
    start_answer-After (ok response) s v f = elim (Bool-cases (response.status == 202)) [
      | inl accepted ↦ rw accepted (located (f (inl accepted)))
      | inr other ↦ elim (Bool-cases (response.status == 201)) [
        | inl created ↦ rw (other, created) (located (f (inr created)))
        | inr neither ↦
            rw (other, neither) (retried-After (response.status == 401) (transient response.status))
      ]
    ]
      where
        located :
            ((url : Bytes) × (faithful.is_upload url ≡ true)
              × IsAt environment.resolve url 0 (upload_position response 0)
              × (received url s.network ≡ []))
            → FreshAfter (finish (upload_position response 0)) s
        located (url, is_one, there, empty) =
            subst (λ r. FreshAfter (finish r) s) (sym there.position)
              (url, there.resolved, is_one, refl, empty, v.1)

        retried-After :
            (a b : Bool)
            → FreshAfter
                (if a then refresh else if b then again else finish (err (refused response.status)))
                s
        retried-After true b = v
        retried-After false true = v
        retried-After false false = v

    pub start_upload-Runs :
        (s : ClientState N)
        → Vacant s
        → Runs (start_upload environment client) s Fresh (λ s'. Vacant s')
    unfolding start_upload registry_url
    start_upload-Runs s v = Runs-bind _ _ _ _ _ (
        Runs-lift _ _ _ _
          (λ target e.
            retry-Runs environment client Vacant token_kept (λ _ _ v. v) Fresh _ _
              (step target (joined _ target e)) max_attempts s v)
          v)
      where
        joined :
            (o : Option Bytes) (target : Bytes) → ok_or o invalid_url ≡ ok target → o ≡ some target
        joined none target e = absurd (err-ok e)
        joined (some a) target e = cc

        step :
            (target : Bytes)
            → uploads_url environment client ≡ some target
            → (s : ClientState N) → Vacant s
            → Runs
                (send_authorized environment client Method.post target none none [])
                s
                (λ response s'.
                  Runs (pure (start_answer response)) s' FreshAfter (λ s''. Vacant s''))
                (λ s'. Vacant s')
        step target j s k = send_authorized-Runs environment client _ _ _ _ _ s _ _ (
            Runs-pure _ _ _ _ (
              start_answer-After _ _
                (
                  k.0,
                  λ other there.
                      k.1 other (faithful.opened target s.token digest other s.network j there),
                )
                (faithful.started target s.token s.network j)))

  abbrev kept_in : ClientState N → ResumeData → ClientState N
  kept_in s uploads = record s {
    network = (environment.save uploads s.network).1;
    uploads = uploads;
  }

  module _ (s : ClientState N) (Q : Unit {0} → ClientState N → Type 0)
      (E : ClientState N → Type 0) where
    saved-Runs :
        (uploads : ResumeData)
        → Q tt (kept_in s uploads)
        → E (kept_in s uploads)
        → Outcome Q E (Exec.store environment uploads s)
    saved-Runs uploads q e = by (environment.save uploads s.network).0
      where
        by : (written : Bool) → Outcome Q E (Exec.saved written (kept_in s uploads))
        by true = q
        by false = e

    -- The map is changed, also where the file cannot be written.
    pub resume_set-Runs :
        (entry : ResumeEntry)
        → ((uploads : ResumeData)
            → resume_entry key uploads ≡ some entry
            → Q tt
                (record s { network = (environment.save uploads s.network).1; uploads = uploads })
              × E (record s {
                network = (environment.save uploads s.network).1;
                uploads = uploads;
              }))
        → Runs (resume_set environment key entry) s Q E
    unfolding resume_set
    resume_set-Runs entry q =
        let (good, bad) =
          q ((key, entry) ∷ without key s.uploads)
            (resume_entry-set key entry (without key s.uploads)) in
        record { at = saved-Runs ((key, entry) ∷ without key s.uploads) good bad }

    pub resume_remove-Runs :
        ((uploads : ResumeData)
          → resume_entry key uploads ≡ none
          → Q tt (record s { network = (environment.save uploads s.network).1; uploads = uploads })
            × E (record s { network = (environment.save uploads s.network).1; uploads = uploads }))
        → Runs (resume_remove environment key) s Q E
    unfolding resume_remove
    resume_remove-Runs q =
        let (good, bad) = q (without key s.uploads) (resume_entry-without key s.uploads) in
        record { at = saved-Runs (without key s.uploads) good bad }
