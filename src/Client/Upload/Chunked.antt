-- ===== src/Client/Upload/Chunked.antt =====
-- registry.rs, upload_blob: what a round of the loop over the chunks keeps.
use jcr.Prelude.{
  refl, none-some, ◌⊎◌, inr, ℕ, zero, suc, ◌+◌, ◌^◌, ◌<◌, ◌≡◌, inl, sym, ap, ◌∙◌, some, Option,
  ◌++◌, true, Bytes, length, length-append, ltb, arith,
}
use mathlib.Core.Path.{subst}
use mathlib.Core.List.{append_assoc}
use jcr.Digest.{Digest}
use jcr.Client.Exec.{
  ResumeEntry, resume_entry, ClientState, ResumeData, Environment, RegistryClient, unreadable_file,
}
use jcr.Client.Runs.{Runs, Runs-pure, Runs-lift, Runs-mono, Runs-if, Runs-bind}
use jcr.Client.Requests.{UploadPosition}
use jcr.Client.Requests.Chunks.{patch_upload-Runs}
use jcr.Client.Registry.{IsFaithful, IsClean, IsQuiet, IsClean-IsQuiet}
use jcr.Client.Upload.{read_exact, sub_u64, as_entry, upload_chunk, upload_chunks}
use jcr.Client.Upload.Files.{read_exact_sound}
use jcr.Client.Upload.Starting.{some_of, resume_set-Runs}

module _ {N : Type 0} (environment : Environment N) (client : RegistryClient)
    (received : Bytes → N → Bytes) (stored : Digest → Bytes → N → Type 0)
    (faithful : IsFaithful environment client received stored) (chunk_size : ℕ)
    (positive : 0 < chunk_size) (content : Bytes) (size : ℕ) (sized : length content ≡ size)
    (bounded : size < 2 ^ 64) (key : Bytes) (digest : Digest) where
  abbrev IsPrefix : Bytes → Type 0
  IsPrefix held = (rest : Bytes) × (held ++ rest ≡ content)

  abbrev Clean : N → Type 0
  Clean = IsClean stored digest content

  quiet : IsQuiet environment Clean
  quiet = IsClean-IsQuiet environment client received stored faithful digest content

  -- What the resumable uploads remember of the key is an upload of a part of the file, and no other
  -- content is stored under the digest.
  abbrev pub IsResumable : ClientState N → Type 0
  IsResumable s =
      ((entry : ResumeEntry)
        → resume_entry key s.uploads ≡ some entry
        → (url : Bytes) → environment.resolve entry.location ≡ some url
        → (faithful.is_upload url ≡ true) × IsPrefix (received url s.network))
      × Clean s.network

  -- what is remembered is the upload at `url`
  abbrev Remembers : Bytes → ResumeData → Type 0
  Remembers url uploads =
      (entry : ResumeEntry)
      → resume_entry key uploads ≡ some entry
      → environment.resolve entry.location ≡ some url

  pub remembered-IsResumable :
      (url : Bytes) (s : ClientState N)
      → Remembers url s.uploads
      → faithful.is_upload url ≡ true
      → IsPrefix (received url s.network)
      → Clean s.network
      → IsResumable s
  remembered-IsResumable url s remembers is_one prefix clean = (
    λ entry e target at.
        subst (λ t. (faithful.is_upload t ≡ true) × IsPrefix (received t s.network))
          (same_url (sym (remembers entry e) ∙ at)) (is_one, prefix),
    clean,
  )
    where
      same_url : {target : Bytes} → some url ≡ some target → url ≡ target
      same_url h = cc

  set-Remembers :
      (position : UploadPosition) (url : Bytes) (uploads : ResumeData)
      → environment.resolve position.location ≡ some url
      → resume_entry key uploads ≡ some (as_entry position)
      → Remembers url uploads
  set-Remembers position url uploads at set entry e =
      subst (λ x. environment.resolve x.location ≡ some url) (same_entry (sym set ∙ e)) at
    where
      same_entry : some (as_entry position) ≡ some entry → as_entry position ≡ entry
      same_entry h = cc

  pub same-Remembers :
      (url : Bytes) (uploads uploads' : ResumeData)
      → uploads' ≡ uploads
      → Remembers url uploads
      → Remembers url uploads'
  same-Remembers url uploads uploads' same remembers entry e =
      remembers entry (ap (λ u. resume_entry key u) (sym same) ∙ e)

  pending-IsPrefix :
      (held body left sent : Bytes)
      → held ++ (body ++ left) ≡ content
      → (sent ≡ held) ⊎ (sent ≡ held ++ body)
      → IsPrefix sent
  pending-IsPrefix held body left sent whole (inl e) =
      (body ++ left, ap (λ x. x ++ (body ++ left)) e ∙ whole)
  pending-IsPrefix held body left sent whole (inr e) =
      (left, ap (λ x. x ++ left) e ∙ (append_assoc held body left ∙ whole))

  -- The registry holds what was read of the file, at its offset.
  pub record Loop (position : UploadPosition) (rest : Bytes) (s : ClientState N) : Type 0 where
    pub url : Bytes
    pub resolved : environment.resolve position.location ≡ some url
    pub held : Bytes
    pub offset : position.offset ≡ length held
    pub holds : received url s.network ≡ held
    pub whole : held ++ rest ≡ content
    pub remembers : Remembers url s.uploads
    pub is_one : faithful.is_upload url ≡ true
    pub clean : Clean s.network

  pub Loop-IsResumable :
      (position : UploadPosition) (rest : Bytes) (s : ClientState N)
      → Loop position rest s
      → IsResumable s
  Loop-IsResumable position rest s l =
      remembered-IsResumable l.url s l.remembers l.is_one
        (rest, ap (λ x. x ++ rest) l.holds ∙ l.whole) l.clean

  pub saved-Loop :
      (position : UploadPosition) (rest : Bytes) (s : ClientState N) (uploads : ResumeData)
      (url held : Bytes)
      → resume_entry key uploads ≡ some (as_entry position)
      → environment.resolve position.location ≡ some url
      → position.offset ≡ length held
      → received url s.network ≡ held
      → held ++ rest ≡ content
      → faithful.is_upload url ≡ true
      → Clean s.network
      → Loop position rest
          (record s { network = (environment.save uploads s.network).1; uploads = uploads })
  saved-Loop position rest s uploads url held set at offset holds whole is_one clean = record {
    url = url;
    resolved = at;
    held = held;
    offset = offset;
    holds = faithful.saved url uploads s.network ∙ holds;
    whole = whole;
    remembers = set-Remembers position url uploads at set;
    is_one = is_one;
    clean = λ other there. clean other (faithful.unsaved digest other uploads s.network there);
  }

  fits_file :
      (held buffer left : Bytes)
      → held ++ (buffer ++ left) ≡ content
      → length held + length buffer < 2 ^ 64
  fits_file held buffer left e = omega (
    arith,
    ap length e,
    sized,
    bounded,
    length-append {0} held (buffer ++ left),
    length-append {0} buffer left,
  )

  upload_chunk-Runs :
      (position : UploadPosition) (rest : Bytes) (s : ClientState N)
      → Loop position rest s
      → Runs
          (upload_chunk environment client chunk_size key position rest)
          s
          (λ p s'. Loop p.0 p.1 s')
          (λ s'. IsResumable s')
  unfolding upload_chunk
  upload_chunk-Runs position rest s l = Runs-bind _ _ _ _ _ (
      Runs-lift _ _ _ _
        (λ (buffer, left) e.
          let (joined, long) =
            read_exact_sound chunk_size rest buffer left
              (some_of unreadable_file (read_exact chunk_size rest) (buffer, left) e) in
          let some_bytes : 0 < length buffer = omega (arith, long) in
          let whole = ap (λ x. l.held ++ x) joined ∙ l.whole in
          let after =
            λ (s' : ClientState N) (same : s'.uploads ≡ s.uploads)
                (pending : (received l.url s'.network ≡ l.held)
                  ⊎ (received l.url s'.network ≡ l.held ++ buffer))
                (clean : Clean s'.network).
              remembered-IsResumable l.url s'
                (same-Remembers l.url s.uploads s'.uploads same l.remembers) l.is_one
                (pending-IsPrefix l.held buffer left (received l.url s'.network) whole pending)
                clean in
          Runs-bind _ _ _ _ _ (
            Runs-mono _ _ _ _ _ _
              (λ next s' (resolved, offset, holds, same, clean). Runs-bind _ _ _ _ _ (
                Runs-lift _ _ _ _
                  (λ _ _. Runs-bind _ _ _ _ _ (
                    resume_set-Runs environment client received stored faithful key s' _ _
                      (as_entry next)
                      (λ uploads set.
                        let l' =
                          saved-Loop next left s' uploads l.url (l.held ++ buffer) set resolved
                            (offset ∙ sym (length-append l.held buffer)) holds
                            (append_assoc l.held buffer left ∙ whole) l.is_one clean in
                        (Runs-pure _ _ _ _ l', Loop-IsResumable next left _ l'))))
                  (after s' same (inr holds) clean)))
              (λ s' ((pending, same), clean). after s' same pending clean)
              (patch_upload-Runs environment client received stored faithful l.url l.held buffer
                some_bytes (fits_file l.held buffer left whole) l.is_one Clean quiet s.uploads
                position.location position.offset s l.offset l.resolved
                ((inl l.holds, refl), l.clean))))
        (Loop-IsResumable position rest s l))

  pub upload_chunks-Runs :
      (fuel : ℕ) (position : UploadPosition) (rest : Bytes) (s : ClientState N)
      → Loop position rest s
      → Runs
          (upload_chunks environment client chunk_size fuel key size position rest)
          s
          (λ o s'.
            ((end : UploadPosition) (left : Bytes) → o ≡ some (end, left) → Loop end left s')
            × IsResumable s')
          (λ s'. IsResumable s')
  unfolding upload_chunks
  upload_chunks-Runs zero position rest s l =
      Runs-pure _ _ _ _ (λ end left e. absurd (none-some e), Loop-IsResumable position rest s l)
  upload_chunks-Runs (suc fuel) position rest s l =
      Runs-if _ _ _ (ltb (sub_u64 size position.offset) chunk_size) _ _
        (λ _. Runs-pure _ _ _ _ (λ end left e. same end left e, Loop-IsResumable position rest s l))
        (λ _. Runs-bind _ _ _ _ _ (
          Runs-mono _ _ _ _ _ _ (λ (next, left) s' l'. upload_chunks-Runs fuel next left s' l')
            (λ s' i. i) (upload_chunk-Runs position rest s l)))
    where
      same :
          (end : UploadPosition) (left : Bytes)
          → ◌≡◌ {A = Option (UploadPosition × Bytes)} (some (position, rest)) (some (end, left))
          → Loop end left s
      same end left e = subst (λ p. Loop p.0 p.1 s) (pair e) l
        where
          pair :
              ◌≡◌ {A = Option (UploadPosition × Bytes)} (some (position, rest)) (some (end, left))
              → ◌≡◌ {A = UploadPosition × Bytes} (position, rest) (end, left)
          pair e = cc
