-- ===== src/Server/Session/Limits.antt =====
-- What was fetched is a row of the table, and what is not refused is within the ranges of the columns.
use jcr.Prelude.{
  none-some, ℕ, ◌+◌, ◌≤◌, ◌≡◌, ap, ◌∙◌, Bool, true, false, not, ◌&&◌, ◌||◌, none, some, Option,
  Option-cases, arith, any, ltb, ◌==◌, Bool-cases, ||-eq-false, inl, inr,
}
use jcr.Storage.{CompletedPart}
use jcr.Server.Database.{Database}
use jcr.Server.Database.Rows.{UploadSession}
use jcr.Server.Database.Tables.{find, exists}
use jcr.Server.Database.Tables.Only.{refuted_of_find}
use jcr.Server.Session
use jcr.Server.Session.{
  UploadRecord, fetch_upload, is_session, persist_part, persisted, is_refused, max_bigint,
}

session_of :
    (u : UploadSession) (last : Option ℕ) (upload : UploadRecord)
    → ◌≡◌ {A = Option UploadRecord}
        (some (record { session = u; last_part_size = last }))
        (some upload)
    → u ≡ upload.session
session_of u last upload k = ap session_in k
  where
    session_in : Option UploadRecord → UploadSession
    session_in none = u
    session_in (some r) = r.session

pub found_row :
    (repository_id id : ℕ) (db : Database) (upload : UploadRecord)
    → fetch_upload repository_id id db ≡ some upload
    → find (is_session repository_id id) db.upload_sessions ≡ some upload.session
unfolding fetch_upload
found_row repository_id id db upload h =
    elim (Option-cases (find (is_session repository_id id) db.upload_sessions)) [
      | inl e ↦ absurd (none-some (rw (e, fetch_upload) at h))
      | inr (u, e) ↦ e ∙ ap some (session_of _ _ _ (rw (e, fetch_upload) at h))
    ]

sizes_fit :
    (id : ℕ) (part : CompletedPart) (flag : Bool) (db : Database)
    → is_refused id part flag db ≡ false
    → any (λ u. u.id == id && not (Session.fits part.size flag u)) db.upload_sessions ≡ false
unfolding is_refused
sizes_fit id part flag db h =
    let rows = any (λ u. u.id == id && not (Session.fits part.size flag u)) db.upload_sessions in
    let numbered =
      exists (λ p. p.upload_id == id && p.part_number == part.part_number) db.upload_parts in
    (||-eq-false (not (ltb 0 part.part_number)) rows
      (||-eq-false numbered (not (ltb 0 part.part_number) || rows) h).1).1

fits-bound :
    (u : UploadSession) (id size : ℕ) (flag : Bool)
    → u.id == id ≡ true
    → u.id == id && not (Session.fits size flag u) ≡ false
    → u.accepted_offset + size ≤ max_bigint
fits-bound u id size flag h k = ground arith

pub persist_part-bound :
    (repository_id id : ℕ) (upload : UploadRecord) (part : CompletedPart) (flag : Bool)
    (db db' : Database)
    → fetch_upload repository_id id db ≡ some upload
    → persist_part upload part flag db ≡ some db'
    → upload.session.accepted_offset + part.size ≤ max_bigint
unfolding persist_part
persist_part-bound repository_id id upload part flag db db' h e =
    elim (Bool-cases (is_refused upload.session.id part flag db)) [
      | inl refused ↦ absurd (none-some (rw (refused, persist_part) at e))
      | inr taken ↦ fits-bound upload.session upload.session.id part.size flag (ground arith) (
          refuted_of_find (is_session repository_id id)
            (λ u. u.id == upload.session.id && not (Session.fits part.size flag u))
            db.upload_sessions upload.session (found_row repository_id id db upload h)
            (sizes_fit upload.session.id part flag db taken))
    ]
