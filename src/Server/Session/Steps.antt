-- ===== src/Server/Session/Steps.antt =====
-- registry.rs, the statements on sessions, on their invariant.
use jcr.Prelude.{
  ℕ, ◌<◌, ◌≡◌, refl, sym, ◌∙◌, ◌⊎◌, inl, inr, Bool, true, false, ◌&&◌, ◌||◌, Option, none, some,
  List, [], ◌∷◌, ◌++◌, arith, ◌==◌, if◌then◌else◌, Bool-cases, any, All-concat,
}
use mathlib.Core.Path.{subst}
use jcr.Storage.{CompletedPart}
use jcr.Server.Database.{Database}
use jcr.Server.Database.Rows.{UploadSession, UploadPart, UploadStatus}
use jcr.Server.Database.Tables.{find, update, insert}
use jcr.Server.Database.Tables.Keys.{Unique-update, update-update, All-update, All-update_key}
use jcr.Server.Session.{
  UploadRecord, parts_of, is_session, fetch_upload, is_uploading, advance, part_row, persist_part,
  set_status, cancel_session, persisted, is_refused,
}
use jcr.Server.Session.Invariant.{
  SessionOk, IsConsistent, IsValid, Owned, Owned-update, SizesFit, Allowed, advanced,
  advanced-IsConsistent, is_live, select-concat, fetched,
}

pub eq_refl : (n : ℕ) → n == n ≡ true
eq_refl n = ground arith

-- What the handlers check before they persist a part, and what the store reports of it.
pub record IsAccepted (upload : UploadRecord) (part : CompletedPart) : Type 0 where
  pub open_still : is_uploading upload.session.status ≡ true
  pub number : part.part_number ≡ upload.session.next_part_number
  pub nonempty : 0 < part.size
  pub allowed : Allowed upload.session.uniform_part_size upload.last_part_size part.size

-- A row that was found is there under its id.
any_of_row :
    (p : UploadSession → Bool) (sessions : List UploadSession) (u : UploadSession)
    → find p sessions ≡ some u
    → any (λ q. q.id == u.id) sessions ≡ true
unfolding find
any_of_row p [] u h = cc
any_of_row p (q ∷ qs) u h = elim (Bool-cases (p q)) [
  | inl e ↦ rw (some_same q (rw (e, find) at h)) (first_there u.id _)
  | inr e ↦ rw (any_of_row p qs u (rw (e, find) at h)) (or_there (q.id == u.id))
]
  where
    some_same : (q : UploadSession) → some q ≡ some u → q ≡ u
    some_same q h = ground arith

    first_there : (k : ℕ) (b : Bool) → (k == k || b) ≡ true
    first_there k b = ground arith

    or_there : (b : Bool) → b || true ≡ true
    or_there b = ground arith

some_of_if : (b : Bool) (d d' : Database) → (if b then none else some d) ≡ some d' → d' ≡ d
some_of_if true d d' e = cc
some_of_if false d d' e = ground arith

-- What is not refused is persisted.
pub persist_part-some :
    (upload : UploadRecord) (part : CompletedPart) (flag : Bool) (db db' : Database)
    → persist_part upload part flag db ≡ some db'
    → db' ≡ persisted upload.session.id part flag db
unfolding persist_part
persist_part-some upload part flag db db' e =
    some_of_if (is_refused upload.session.id part flag db)
      (persisted upload.session.id part flag db) db' e

abbrev with_status : UploadStatus → UploadSession → UploadSession
with_status status u = record u { status = status }

sizes_closed :
    (o : Option ℕ) (b : Bool) (ps : List UploadPart) → SizesFit o b ps → SizesFit o false ps
sizes_closed none b ps h = inl refl
sizes_closed (some s) b ps h = h

uploading_live : (s : UploadStatus) → is_uploading s ≡ true → is_live s ≡ true
uploading_live UploadStatus.uploading e = refl
uploading_live _ e = cc

module _ (repository_id id : ℕ) (db : Database) (upload : UploadRecord) (v : IsValid db)
    (h : fetch_upload repository_id id db ≡ some upload) where
  -- The row that was found is the only one that changes.
  step-IsValid :
      (f : UploadSession → UploadSession) (parts : List UploadPart)
      → ((u : UploadSession) → (f u).id ≡ u.id)
      → SessionOk parts (f upload.session)
      → ((k : ℕ) → k == upload.session.id ≡ false → parts_of k parts ≡ parts_of k db.upload_parts)
      → Owned db.upload_sessions parts
      → IsValid (record db {
        upload_parts = parts;
        upload_sessions = update (λ u. u.id == upload.session.id) f db.upload_sessions;
      })
  step-IsValid f parts same c others owned = record {
    owned = Owned-update (λ u. u.id == upload.session.id) f db.upload_sessions parts same owned;
    unique =
        Unique-update (λ u. u.id) (λ u. u.id == upload.session.id) f db.upload_sessions same
          v.unique;
    sessions =
        All-update_key (SessionOk db.upload_parts) (SessionOk parts) (λ u. u.id) upload.session.id
          (is_session repository_id id) f db.upload_sessions upload.session v.unique
          (fetched repository_id id db upload v h).0 refl c (λ u k e. rw (others u.id e) k)
          v.sessions;
  }

  module _ (part : CompletedPart) (a : IsAccepted upload part) (flag : Bool)
      (status : UploadSession → UploadStatus) where
    persisted-IsValid :
        (flag ≡ true) ⊎ (is_uploading (status upload.session) ≡ false)
        → IsValid (record db {
          upload_parts = insert (part_row upload.session.id part) db.upload_parts;
          upload_sessions =
              update
                (λ u. u.id == upload.session.id)
                (λ u. record (advance part.size flag u) { status = status u })
                db.upload_sessions;
        })
    unfolding advanced
    persisted-IsValid f =
        let (found, c, size) = fetched repository_id id db upload v h in
        let row = part_row upload.session.id part in
        let whole = select-concat upload.session.id db.upload_parts row ∙ own row.upload_id in
        step-IsValid (λ u. record (advance part.size flag u) { status = status u })
          (insert row db.upload_parts) (λ u. refl)
          (subst
            (IsConsistent (
              advanced upload.session (parts_of upload.session.id db.upload_parts) row flag
                (status upload.session)))
            (sym whole)
            (advanced-IsConsistent upload.session (parts_of upload.session.id db.upload_parts) row
              flag (status upload.session) c a.open_still a.number a.nonempty (rw size at a.allowed)
              f))
          (λ k e. select-concat k db.upload_parts row ∙ other k e)
          (All-concat (λ p. any (λ u. u.id == p.upload_id) db.upload_sessions ≡ true)
            db.upload_parts row v.owned (is_there found))
      where
        is_there :
            find (is_session repository_id id) db.upload_sessions ≡ some upload.session
            → any (λ u. u.id == upload.session.id) db.upload_sessions ≡ true
        is_there found =
            any_of_row (is_session repository_id id) db.upload_sessions upload.session found

        own :
            (k : ℕ)
            → (if k == k
                then parts_of k db.upload_parts ++ part_row k part ∷ []
                else parts_of k db.upload_parts)
              ≡ parts_of k db.upload_parts ++ part_row k part ∷ []
        own k = rw (eq_refl k)

        other :
            (k : ℕ)
            → k == upload.session.id ≡ false
            → (if upload.session.id == k
                then parts_of k db.upload_parts ++ part_row upload.session.id part ∷ []
                else parts_of k db.upload_parts)
              ≡ parts_of k db.upload_parts
        other k e = let differs : upload.session.id == k ≡ false = ground arith in rw differs

  -- A PATCH that is persisted keeps the invariant.
  pub patch-IsValid :
      (part : CompletedPart)
      → IsAccepted upload part
      → (db' : Database) → persist_part upload part true db ≡ some db'
      → IsValid db'
  unfolding advance
  patch-IsValid part a db' e =
      rw (persist_part-some upload part true db db' e)
        (persisted-IsValid part a true (λ u. u.status) (inl refl))

  -- The last chunk of a PUT, persisted with the change of the status.
  pub put-IsValid :
      (part : CompletedPart)
      → IsAccepted upload part
      → (db' : Database) → persist_part upload part false db ≡ some db'
      → IsValid (set_status upload.session.id UploadStatus.finalizing db')
  unfolding set_status advance
  put-IsValid part a db' e =
      let is_row = λ (u : UploadSession). u.id == upload.session.id in
      let once =
        update-update is_row (advance part.size false) (with_status UploadStatus.finalizing)
          db.upload_sessions (λ u. refl) in
      rw (persist_part-some upload part false db db' e) (
        subst
          (λ rows. IsValid (record db {
            upload_parts = insert (part_row upload.session.id part) db.upload_parts;
            upload_sessions = rows;
          }))
          (sym once) (persisted-IsValid part a false (λ u. UploadStatus.finalizing) (inr refl)))

  -- A PUT without a chunk.
  pub finalize-IsValid :
      is_uploading upload.session.status ≡ true
      → IsValid (set_status upload.session.id UploadStatus.finalizing db)
  unfolding set_status
  finalize-IsValid up =
      let (found, c, size) = fetched repository_id id db upload v h in
      step-IsValid (with_status UploadStatus.finalizing) db.upload_parts (λ u. refl)
        (finalized upload.session c up) (λ k e. refl) v.owned
    where
      finalized :
          (u : UploadSession)
          → SessionOk db.upload_parts u
          → is_uploading u.status ≡ true
          → SessionOk db.upload_parts (with_status UploadStatus.finalizing u)
      finalized u c up = record {
        numbered = c.numbered;
        next = c.next;
        offset = ground (arith, uploading_live u.status up, c.offset);
        sizes = sizes_closed u.uniform_part_size (is_uploading u.status) _ c.sizes;
      }

-- Statements that only close sessions.
pub closing-IsValid :
    (p : UploadSession → Bool) (f : UploadSession → UploadSession) (db : Database)
    → ((u : UploadSession)
        → ((f u).id ≡ u.id)
          × (is_live (f u).status ≡ false)
          × (is_uploading (f u).status ≡ false)
          × ((f u).next_part_number ≡ u.next_part_number)
          × ((f u).uniform_part_size ≡ u.uniform_part_size))
    → IsValid db
    → IsValid (record db { upload_sessions = update p f db.upload_sessions })
closing-IsValid p f db k v = record {
  owned = Owned-update p f db.upload_sessions db.upload_parts (λ u. (k u).0) v.owned;
  unique = Unique-update (λ u. u.id) p f db.upload_sessions (λ u. (k u).0) v.unique;
  sessions =
      All-update (SessionOk db.upload_parts) (SessionOk db.upload_parts) p f db.upload_sessions
        (λ u c e. closed u c) (λ u c e. c) v.sessions;
}
  where
    closed : (u : UploadSession) → SessionOk db.upload_parts u → SessionOk db.upload_parts (f u)
    closed u c =
        let (same, dead, shut, next, uniform) = k u in
        rw same (record {
          numbered = c.numbered;
          next = next ∙ c.next;
          offset = inl dead;
          sizes =
              rw (uniform, shut)
                (sizes_closed u.uniform_part_size (is_uploading u.status) _ c.sizes);
        })

-- Failing a session keeps the invariant,
pub fail-IsValid :
    (id : ℕ) (db : Database) → IsValid db → IsValid (set_status id UploadStatus.failed db)
unfolding set_status
fail-IsValid id db v =
    closing-IsValid (λ u. u.id == id) (with_status UploadStatus.failed) db
      (λ u. (refl, refl, refl, refl, refl)) v

-- and so does cancelling it.
pub cancel-IsValid : (id : ℕ) (db : Database) → IsValid db → IsValid (cancel_session id db)
unfolding cancel_session
cancel-IsValid id db v =
    closing-IsValid (λ u. u.id == id && is_uploading u.status) (with_status UploadStatus.cancelled)
      db (λ u. (refl, refl, refl, refl, refl)) v
