-- ===== src/Server/Upload/Cancellation.antt =====
-- registry.rs, cancel_upload: which sessions it changes, and that a failed one changes none.
use jcr.Prelude.{
  ℕ, ◌≡◌, refl, sym, ap, inl, inr, Bool, true, false, ◌&&◌, Option, none, some, List, [], ◌∷◌, ◌==◌,
  Bool-cases, &&-eq-true, Bytes, ok, is_ok, none-some,
}
use mathlib.Core.List.{Memᴰ}
use mathlib.Core.List.Memᴰ
use jcr.Storage.{BlobStore}
use jcr.Server.Types.{Repository, Authorized, Platform, require_repository}
use jcr.Server.Database.{Database}
use jcr.Server.Database.Rows.{UploadSession, UploadStatus}
use jcr.Server.Database.Tables.{find, update, holds_of_find}
use jcr.Server.Exec.{World}
use jcr.Server.Exec.Returns.{
  Returns, Returns-bind, Returns-fetch, Returns-lift, Returns-call, Returns-modify, Returns-pure,
  returned_ok,
}
use jcr.Server.Session.{
  UploadRecord, fetch_upload, validate_upload, is_uploading, is_session, cancel_session, as_record,
}
use jcr.Server.Upload.{Config, parse_upload_id, cancel_upload}
use jcr.Server.Upload.Laws.{validate_upload-open}

module _ {A : Type 0} where
  -- A row that an update spares is there behind it,
  pub Mem-update_spared :
      (p : A → Bool) (f : A → A) (rs : List A) (r : A)
      → Memᴰ r rs
      → p r ≡ false
      → Memᴰ r (update p f rs)
  unfolding update
  Mem-update_spared p f [] r m h = absurd (Memᴰ.not-nil m)
  Mem-update_spared p f (q ∷ rs) r (Memᴰ.head e) h = Memᴰ.head (rw (← e, h) refl)
  Mem-update_spared p f (q ∷ rs) r (Memᴰ.tail m) h = Memᴰ.tail (Mem-update_spared p f rs r m h)

  -- and a row that it changes is there as changed.
  Mem-update_changed :
      (p : A → Bool) (f : A → A) (rs : List A) (r : A)
      → Memᴰ r rs
      → p r ≡ true
      → Memᴰ (f r) (update p f rs)
  unfolding update
  Mem-update_changed p f [] r m h = absurd (Memᴰ.not-nil m)
  Mem-update_changed p f (q ∷ rs) r (Memᴰ.head e) h = Memᴰ.head (rw (← e, h) refl)
  Mem-update_changed p f (q ∷ rs) r (Memᴰ.tail m) h = Memᴰ.tail (Mem-update_changed p f rs r m h)

  Mem_of_find : (p : A → Bool) (rs : List A) (r : A) → find p rs ≡ some r → Memᴰ r rs
  unfolding find
  Mem_of_find p [] r h = cc
  Mem_of_find p (q ∷ rs) r h = elim (Bool-cases (p q)) [
    | inl e ↦ Memᴰ.head (sym (some_inj (rw (e, find) at h)))
    | inr e ↦ Memᴰ.tail (Mem_of_find p rs r (rw (e, find) at h))
  ]
    where
      some_inj : some q ≡ some r → q ≡ r
      some_inj k = cc

session_of :
    (db : Database) (o : Option UploadSession) (upload : UploadRecord)
    → as_record db o ≡ some upload
    → o ≡ some upload.session
session_of db none upload h = absurd (none-some h)
session_of db (some u) upload h = ap (λ u. some u) (session_inj h)
  where
    session_or : Option UploadRecord → UploadSession
    session_or none = u
    session_or (some r) = r.session

    session_inj : as_record db (some u) ≡ some upload → u ≡ upload.session
    session_inj e = ap session_or e

fetched-Mem :
    (repository_id id : ℕ) (db : Database) (upload : UploadRecord)
    → fetch_upload repository_id id db ≡ some upload
    → Memᴰ upload.session db.upload_sessions × (upload.session.id == id ≡ true)
unfolding fetch_upload
fetched-Mem repository_id id db upload h =
    let found = session_of db (find (is_session repository_id id) db.upload_sessions) upload h in
    (
      Mem_of_find (is_session repository_id id) db.upload_sessions upload.session found,
      (&&-eq-true _ _
          (holds_of_find (is_session repository_id id) db.upload_sessions upload.session found)).0,
    )

-- which sessions a cancellation changes
abbrev pub is_cancelled : ℕ → UploadSession → Bool
is_cancelled upload_id u = u.id == upload_id && is_uploading u.status

-- The session that the request names is cancelled, and every other stays as it is.
pub record IsCancelled {S : Type 0} (store : BlobStore S) (platform : Platform) (config : Config)
    (now : ℕ) (authorized : Authorized) (id : Bytes) (before after : Database) : Type 0 where
  pub repository : Repository
  pub authorized_for : require_repository authorized.repository ≡ ok repository
  pub upload_id : ℕ
  pub parsed : parse_upload_id store platform config id ≡ ok upload_id
  pub upload : UploadRecord
  pub fetched : fetch_upload repository.id upload_id before ≡ some upload
  pub open_still : validate_upload now upload ≡ ok tt
  pub cancelled :
      Memᴰ (record upload.session { status = UploadStatus.cancelled }) after.upload_sessions
  pub spared :
      (u : UploadSession)
      → Memᴰ u before.upload_sessions
      → is_cancelled upload_id u ≡ false
      → Memᴰ u after.upload_sessions

module _ {S : Type 0} (store : BlobStore S) (platform : Platform) (config : Config) where
  cancel_session-IsCancelled :
      (now : ℕ) (authorized : Authorized) (id : Bytes) (repository : Repository) (upload_id : ℕ)
      (upload : UploadRecord) (db : Database)
      → require_repository authorized.repository ≡ ok repository
      → parse_upload_id store platform config id ≡ ok upload_id
      → fetch_upload repository.id upload_id db ≡ some upload
      → validate_upload now upload ≡ ok tt
      → IsCancelled store platform config now authorized id db (cancel_session upload_id db)
  unfolding cancel_session
  cancel_session-IsCancelled now authorized id repository upload_id upload db r p f v =
      let (member, same) = fetched-Mem repository.id upload_id db upload f in
      record {
        repository = repository;
        authorized_for = r;
        upload_id = upload_id;
        parsed = p;
        upload = upload;
        fetched = f;
        open_still = v;
        cancelled =
            Mem-update_changed (is_cancelled upload_id)
              (λ u. record u { status = UploadStatus.cancelled }) db.upload_sessions upload.session
              member (rw (same, validate_upload-open now upload v) refl);
        spared =
            Mem-update_spared (is_cancelled upload_id)
              (λ u. record u { status = UploadStatus.cancelled }) db.upload_sessions;
      }

  cancel_upload-Returns :
      (now : ℕ) (authorized : Authorized) (id : Bytes) (w : World S)
      → Returns
          (cancel_upload store platform config now authorized id)
          w
          (λ response w'. IsCancelled store platform config now authorized id w.db w'.db)
  unfolding cancel_upload
  cancel_upload-Returns now authorized id w = Returns-bind _ _ _ _ (
      Returns-lift _ _ _ (λ repository r. Returns-bind _ _ _ _ (
        Returns-lift _ _ _ (λ upload_id p. Returns-bind _ _ _ _ (
          Returns-fetch _ _ _ _ (λ upload f. Returns-bind _ _ _ _ (
            Returns-lift _ _ _ (λ _ v. Returns-bind _ _ _ _ (
              Returns-call _ _ _ (λ _ s _. Returns-bind _ _ _ _ (
                Returns-modify _ _ _ (
                  Returns-pure _ _ _ (
                    cancel_session-IsCancelled now authorized id repository upload_id upload w.db r
                      p f v)))))))))))))

  -- A cancellation that is answered without an error has cancelled the session that its id names, which was an
  -- open one of the repository that was authorized, and has left every other session as it was: those with
  -- another id, and those that were not open.
  pub cancel_upload-IsCancelled :
      (now : ℕ) (authorized : Authorized) (id : Bytes) (w : World S)
      → is_ok (cancel_upload store platform config now authorized id w).0 ≡ true
      → IsCancelled store platform config now authorized id w.db
          (cancel_upload store platform config now authorized id w).1.db
  cancel_upload-IsCancelled now authorized id w h =
      returned_ok (cancel_upload store platform config now authorized id) w
        (IsCancelled store platform config now authorized id w.db)
        (cancel_upload-Returns now authorized id w) h
