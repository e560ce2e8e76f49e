-- ===== src/Server/Session/Invariant.antt =====
-- The invariant of upload sessions: the offset that a client resumes from is the total of the parts
-- that the store holds, the parts are numbered without a gap, and all but the last have the uniform size where there is one.
use jcr.Prelude.{
  none-some, ℕ, ◌+◌, ◌≤◌, ◌<◌, ◌≡◌, refl, ◌∙◌, ◌⊎◌, inl, inr, Bool, true, false, Option, none, some,
  List, [], ◌∷◌, ◌++◌, arith, ◌==◌, if◌then◌else◌, Option-cases, length, any, length-append, All,
}
use jcr.Server.Database.{Database}
use jcr.Server.Database.Rows.{UploadSession, UploadPart, UploadStatus}
use jcr.Server.Database.Tables.{find, select, update}
use jcr.Server.Database.Tables.Keys.{Unique, All-find, All-map, any-update}
use jcr.Server.Session.{
  UploadRecord, parts_of, greatest, size_of, is_session, fetch_upload, is_uploading, established,
  advance,
}
use jcr.Server.Session.Parts.{
  Numbered, total, Uniform, last, total-concat, Numbered-concat, greatest-eq-last, Uniform-concat,
}

-- a session that accepts chunks or is being completed
abbrev pub is_live : UploadStatus → Bool
is_live UploadStatus.uploading = true
is_live UploadStatus.finalizing = true
is_live _ = false

-- The first PATCH fixes the size; without one a session that still accepts chunks has no part.
abbrev pub SizesFit : Option ℕ → Bool → List UploadPart → Type 0
SizesFit none open_still ps = (open_still ≡ false) ⊎ (ps ≡ [])
SizesFit (some s) open_still ps = (0 < s) × Uniform s ps

pub record IsConsistent (u : UploadSession) (ps : List UploadPart) : Type 0 where
  pub numbered : Numbered 1 ps
  pub next : u.next_part_number ≡ length ps + 1
  pub offset : (is_live u.status ≡ false) ⊎ (u.accepted_offset ≡ total ps)
  pub sizes : SizesFit u.uniform_part_size (is_uploading u.status) ps

abbrev pub SessionOk : List UploadPart → UploadSession → Type 0
SessionOk parts u = IsConsistent u (parts_of u.id parts)

-- Each part is that of a session.
abbrev pub Owned : List UploadSession → List UploadPart → Type 0
Owned sessions parts = All (λ p. any (λ u. u.id == p.upload_id) sessions ≡ true) parts

pub Owned-update :
    (q : UploadSession → Bool) (f : UploadSession → UploadSession) (sessions : List UploadSession)
    (parts : List UploadPart)
    → ((u : UploadSession) → (f u).id ≡ u.id)
    → Owned sessions parts
    → Owned (update q f sessions) parts
Owned-update q f sessions parts same h =
    All-map (λ p. any (λ u. u.id == p.upload_id) sessions ≡ true)
      (λ p. any (λ u. u.id == p.upload_id) (update q f sessions) ≡ true) parts
      (λ p e. any-update q (λ u. u.id == p.upload_id) f sessions (λ u. rw (same u) refl) ∙ e) h

pub record IsValid (db : Database) : Type 0 where
  pub unique : Unique (λ u. u.id) db.upload_sessions
  pub sessions : All (SessionOk db.upload_parts) db.upload_sessions
  -- the foreign key of the parts
  pub owned : Owned db.upload_sessions db.upload_parts

-- The sizes that the two handlers let through: at most the uniform size, and none-some behind a short
-- part.
abbrev pub Allowed : Option ℕ → Option ℕ → ℕ → Type 0
Allowed none last_size size = Unit
Allowed (some s) last_size size =
    (size ≤ s) × ((last_size ≡ none) ⊎ ((l : ℕ) × (last_size ≡ some l) × (s ≤ l)))

pub select-concat :
    (id : ℕ) (ps : List UploadPart) (p : UploadPart)
    → parts_of id (ps ++ p ∷ [])
      ≡ (if p.upload_id == id then parts_of id ps ++ p ∷ [] else parts_of id ps)
unfolding select
select-concat id [] p = ground arith
select-concat id (q ∷ ps) p = ground (arith, select-concat id ps p)

full_last :
    (s : ℕ) (ps : List UploadPart)
    → Uniform s ps
    → (size_of (last ps) ≡ none) ⊎ ((l : ℕ) × (size_of (last ps) ≡ some l) × (s ≤ l))
    → (size_of (last ps) ≡ none) ⊎ (size_of (last ps) ≡ some s)
full_last s [] h a = inl refl
full_last s (p ∷ []) h (inl e) = inl e
full_last s (p ∷ []) h (inr (l, e, le)) = inr (ground arith)
full_last s (p ∷ q ∷ ps) (e, h) a = full_last s (q ∷ ps) h a

sizes_advanced :
    (o : Option ℕ) (flag open_still : Bool) (ps : List UploadPart) (p : UploadPart)
    → SizesFit o true ps
    → Allowed o (size_of (last ps)) p.size
    → 0 < p.size
    → (flag ≡ true) ⊎ (open_still ≡ false)
    → SizesFit (established flag p.size o) open_still (ps ++ p ∷ [])
sizes_advanced none true open_still ps p (inl closed) a b f = cc
sizes_advanced none true open_still ps p (inr empty) a b f = rw empty (b, (b, omega arith))
sizes_advanced none false open_still ps p h a b (inl f) = cc
sizes_advanced none false open_still ps p h a b (inr f) = inl f
sizes_advanced (some s) flag open_still ps p (pos, h) (le, l) b f =
    (pos, Uniform-concat s ps p h (full_last s ps h l) b le)

-- One more part, with the status that the session has then.
module _ (u : UploadSession) (ps : List UploadPart) (p : UploadPart) (flag : Bool)
    (status : UploadStatus) where
  unfoldable pub advanced : UploadSession
  unfolding advance
  advanced = record (advance p.size flag u) { status = status }

  pub advanced-IsConsistent :
      IsConsistent u ps
      → is_uploading u.status ≡ true
      → p.part_number ≡ u.next_part_number
      → 0 < p.size
      → Allowed u.uniform_part_size (size_of (last ps)) p.size
      → (flag ≡ true) ⊎ (is_uploading status ≡ false)
      → IsConsistent advanced (ps ++ p ∷ [])
  unfolding advanced
  advanced-IsConsistent c up number b a f = record {
    numbered = Numbered-concat 1 ps p c.numbered (omega (arith, c.next));
    next = omega (arith, c.next, length-append ps (p ∷ []));
    offset = inr (ground (arith, total-concat ps p, uploading_open u.status up));
    sizes =
        sizes_advanced u.uniform_part_size flag (is_uploading status) ps p (rw up at c.sizes) a b f;
  }
    where
      uploading_open : (s : UploadStatus) → is_uploading s ≡ true → is_live s ≡ true
      uploading_open UploadStatus.uploading e = refl
      uploading_open _ e = cc

recorded :
    (db : Database) (u : UploadSession) (upload : UploadRecord)
    → IsValid db
    → SessionOk db.upload_parts u
    → some (record {
      session = u;
      last_part_size = size_of (greatest (parts_of u.id db.upload_parts));
    })
      ≡ some upload
    → (upload.session ≡ u)
      × (upload.last_part_size ≡ size_of (last (parts_of upload.session.id db.upload_parts)))
recorded db u upload v c h =
    let same : upload.session ≡ u = ground arith in
    let size : upload.last_part_size ≡ size_of (greatest (parts_of u.id db.upload_parts)) =
      ground arith in
    (same, rw (same, ← greatest-eq-last 1 (parts_of u.id db.upload_parts) c.numbered) size)

-- What was found is a consistent row, and the last size is that of its last part.
pub fetched :
    (repository_id id : ℕ) (db : Database) (upload : UploadRecord)
    → IsValid db
    → fetch_upload repository_id id db ≡ some upload
    → (find (is_session repository_id id) db.upload_sessions ≡ some upload.session)
      × SessionOk db.upload_parts upload.session
      × (upload.last_part_size ≡ size_of (last (parts_of upload.session.id db.upload_parts)))
unfolding fetch_upload
fetched repository_id id db upload v h =
    elim (Option-cases (find (is_session repository_id id) db.upload_sessions)) [
      | inl e ↦ absurd (none-some (rw (e, fetch_upload) at h))
      | inr (u, e) ↦
          let c =
            All-find (SessionOk db.upload_parts) (is_session repository_id id) db.upload_sessions u
              v.sessions e in
          let (same, size) = recorded db u upload v c (rw (e, fetch_upload) at h) in
          (rw same e, rw same c, size)
    ]
