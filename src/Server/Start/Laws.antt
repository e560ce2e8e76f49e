-- ===== src/Server/Start/Laws.antt =====
-- registry.rs, start_upload, on the invariant of upload sessions.
use jcr.Prelude.{
  true-false, none-some, ℕ, ◌+◌, ◌*◌, ◌≡◌, refl, sym, ap, ◌∙◌, inl, inr, Bool, true, false, ◌&&◌,
  ◌||◌, Option, none, some, List, [], ◌∷◌, arith, ◌==◌, ==_iff, if◌then◌else◌, Bool-cases,
  ||-eq-false, any, any-append, Bytes, bytes_eq, All-concat,
}
use mathlib.Core.Path.{subst}
use jcr.Digest.{Digest}
use jcr.Storage.{BlobStore}
use jcr.Server.Error.{database, denied}
use jcr.Server.Types.{User, Repository, Authorized, Headers, Query, Body, Platform}
use jcr.Server.Database.{Database}
use jcr.Server.Database.Rows.{UploadSession, UploadPart}
use jcr.Server.Database.Tables.{select, insert}
use jcr.Server.Database.Tables.Keys.{Unique-concat, All-map}
use jcr.Server.Exec.{pure, throw, call_ignored, modify, ◌>>◌}
use jcr.Server.Exec.Keeps.{
  Keeps, Keeps-bind, Keeps-lift, Keeps-if, Keeps-throw, Keeps-modify, Keeps-execute,
  Keeps-try_execute, Keeps-gets, Keeps-call, Keeps-call_ignored, Keeps-pure,
}
use jcr.Server.Session.{parts_of}
use jcr.Server.Session.Invariant.{IsValid, IsConsistent, SessionOk, Owned}
use jcr.Server.Commit.Sessions.{audited, complete_upload-Keeps}
use jcr.Server.Upload.Laws.{ReportsParts}
use jcr.Server.Upload.{Config}
use jcr.Server.Access.{name_format}
use jcr.Server.Start.{
  object_key, insert_session, new_session, insert_repository, link_blob, create_for_push,
  ensure_repository_for_push, mount_blob, open_session, start_upload, try_mount,
  repository_for_push, mounted, mount_request, opened_response, push_to, mount_from,
}

-- No part is there for an id that no session has.
no_parts :
    (sessions : List UploadSession) (id : ℕ) (parts : List UploadPart)
    → Owned sessions parts
    → any (λ u. u.id == id) sessions ≡ false
    → parts_of id parts ≡ []
unfolding select
no_parts sessions id [] h fresh = refl
no_parts sessions id (p ∷ ps) (owned, h) fresh = elim (Bool-cases (p.upload_id == id)) [
  | inl e ↦ absurd (
      true-false (
        sym (subst (λ k. any (λ u. u.id == k) sessions ≡ true) ((==_iff p.upload_id id).0 e) owned)
        ∙ fresh))
  | inr e ↦ rw e (no_parts sessions id ps h fresh)
]

left_false : (a b : Bool) → a || b ≡ false → a ≡ false
left_false a b h = ground arith

any_left :
    {A : Type 0} (p q : A → Bool) (rs : List A)
    → any (λ a. p a || q a) rs ≡ false
    → any p rs ≡ false
any_left p q [] h = refl
any_left p q (r ∷ rs) h =
    let (here, there) = ||-eq-false (p r || q r) (any (λ a. p a || q a) rs) h in
    rw (left_false (p r) (q r) here) (any_left p q rs there)

inserted-Owned :
    (sessions : List UploadSession) (session : UploadSession) (parts : List UploadPart)
    → Owned sessions parts
    → Owned (insert session sessions) parts
inserted-Owned sessions session parts h =
    All-map (λ p. any (λ u. u.id == p.upload_id) sessions ≡ true)
      (λ p. any (λ u. u.id == p.upload_id) (insert session sessions) ≡ true) parts
      (λ p e.
        any-append (λ u. u.id == p.upload_id) sessions (session ∷ [])
        ∙ ap (λ b. b || any (λ u. u.id == p.upload_id) (session ∷ [])) e)
      h

-- A session that is new and empty,
insert_new-IsValid :
    (id repository_id actor : ℕ) (key upload_id : Bytes) (expires_at : ℕ) (db : Database)
    → any (λ u. u.id == id) db.upload_sessions ≡ false
    → IsValid db
    → IsValid (record db {
      upload_sessions =
          insert (new_session id repository_id actor key upload_id expires_at) db.upload_sessions;
    })
insert_new-IsValid id repository_id actor key upload_id expires_at db fresh v =
    let session = new_session id repository_id actor key upload_id expires_at in
    record {
      unique = Unique-concat (λ u. u.id) db.upload_sessions session v.unique fresh;
      sessions = All-concat (SessionOk db.upload_parts) db.upload_sessions session v.sessions (
          subst (IsConsistent session)
            (sym (no_parts db.upload_sessions id db.upload_parts v.owned fresh))
            (record { numbered = tt; next = refl; offset = inr refl; sizes = inr refl }));
      owned = inserted-Owned db.upload_sessions session db.upload_parts v.owned;
    }

-- and its statement, keep the invariant.
insert_session-IsValid :
    (id repository_id actor : ℕ) (key upload_id : Bytes) (expires_at : ℕ) (db db' : Database)
    → insert_session (new_session id repository_id actor key upload_id expires_at) db ≡ some db'
    → IsValid db
    → IsValid db'
unfolding insert_session
insert_session-IsValid id repository_id actor key upload_id expires_at db db' h v =
    elim (Bool-cases (any (λ u. u.id == id || bytes_eq u.object_key key) db.upload_sessions)) [
      | inl e ↦ absurd (none-some (rw (e, insert_session) at h))
      | inr e ↦ subst IsValid (same (rw (e, insert_session) at h)) (
          insert_new-IsValid id repository_id actor key upload_id expires_at db
            (any_left (λ u. u.id == id) (λ u. bytes_eq u.object_key key) db.upload_sessions e) v)
    ]
  where
    same : {d : Database} → some d ≡ some db' → d ≡ db'
    same e = ground arith

-- Statements on other tables keep it too.
insert_repository-IsValid :
    (id namespace_id : ℕ) (name : Bytes) (db db' : Database)
    → insert_repository id namespace_id name db ≡ some db'
    → IsValid db
    → IsValid db'
unfolding insert_repository
insert_repository-IsValid id namespace_id name db db' h v =
    subst IsValid (sym (made (name_format false name) _ db' h))
      (record { unique = v.unique; sessions = v.sessions; owned = v.owned })
  where
    made : (b : Bool) (d d' : Database) → (if b then some d else none) ≡ some d' → d' ≡ d
    made true d d' e = ground arith
    made false d d' e = cc

link_blob-IsValid :
    (id : ℕ) (digest : Bytes) (db : Database) → IsValid db → IsValid (link_blob id digest db)
unfolding link_blob
link_blob-IsValid id digest db v = record {
  unique = v.unique;
  sessions = v.sessions;
  owned = v.owned;
}

module _ {S : Type 0} (store : BlobStore S) (platform : Platform) (config : Config) where
  push_to-Keeps :
      (new_id : ℕ) (name : Bytes) (actor : User) (found : Option Repository)
      → Keeps {S = S} IsValid (push_to platform new_id name actor found)
  unfolding create_for_push
  push_to-Keeps new_id name actor (some repository) = Keeps-bind _ _ (Keeps-gets _) (λ allowed.
      Keeps-if allowed (pure repository) (throw denied) (λ _. Keeps-pure _) (λ _. Keeps-throw _))
  push_to-Keeps new_id name actor none = Keeps-bind _ _ (Keeps-lift _) (λ (namespace, part).
      Keeps-bind _ _ (Keeps-gets _) (λ found. Keeps-bind _ _ (Keeps-lift _) (λ access.
        Keeps-bind _ _ (Keeps-execute _ (insert_repository-IsValid new_id access.namespace_id part))
          (λ _. Keeps-bind _ _ (Keeps-gets _) (λ made. Keeps-bind _ _ (Keeps-lift _) (λ again.
            Keeps-bind _ _ (Keeps-lift _) (λ repository.
              Keeps-bind _ _
                (Keeps-modify _ (
                  audited (some actor.id) "repository.created" (some repository.id)
                    (some "repository") (some (platform.uuid_text repository.id))))
                (λ _. Keeps-pure _))))))))

  repository_for_push-Keeps :
      (new_id : ℕ) (name : Bytes) (actor : User) (found : Option Repository)
      → Keeps IsValid (repository_for_push store platform config new_id name actor found)
  unfolding ensure_repository_for_push
  repository_for_push-Keeps new_id name actor (some repository) = Keeps-pure _
  repository_for_push-Keeps new_id name actor none =
      Keeps-bind _ _ (Keeps-gets _)
        (λ looked. Keeps-bind _ _ (Keeps-lift _) (λ found. push_to-Keeps new_id name actor found))

  mount_from-Keeps :
      (actor : User) (target : Repository) (digest : Bytes) (source : Option Repository)
      → Keeps {S = S} IsValid (mount_from platform actor target digest source)
  mount_from-Keeps actor target digest none = Keeps-pure _
  mount_from-Keeps actor target digest (some source) = Keeps-bind _ _ (Keeps-gets _) (λ allowed.
      Keeps-bind _ _ (Keeps-gets _) (λ there.
        Keeps-if (allowed && there) (modify (link_blob target.id digest) >> pure true) (pure false)
          (λ _.
            Keeps-bind _ _ (Keeps-modify _ (link_blob-IsValid target.id digest))
              (λ _. Keeps-pure _))
          (λ _. Keeps-pure _)))

  try_mount-Keeps :
      (actor : User) (repository : Repository) (request : Option (Digest × Bytes))
      → Keeps IsValid (try_mount store platform config actor repository request)
  unfolding mount_blob
  try_mount-Keeps actor repository none = Keeps-pure _
  try_mount-Keeps actor repository (some (digest, source)) =
      Keeps-bind _ _ (Keeps-gets _) (λ looked.
        Keeps-bind _ _ (Keeps-lift _) (λ found. mount_from-Keeps actor repository _ found))

  mounted-Keeps :
      (name : Bytes) (request : Option (Digest × Bytes))
      → Keeps IsValid (mounted store platform config name request)
  mounted-Keeps name none = Keeps-throw _
  mounted-Keeps name (some (digest, source)) =
      Keeps-bind _ _ (Keeps-lift _) (λ response. Keeps-lift _)

  opened_response-Keeps :
      ReportsParts store
      → (now id : ℕ) (repository : Repository) (actor : User) (name : Bytes) (headers : Headers)
        (query : Query) (body : Body) (named : Option Bytes)
      → Keeps IsValid (
          opened_response store platform config now id repository actor name headers query body
            named)
  opened_response-Keeps reports now id repository actor name headers query body (some d) =
      complete_upload-Keeps store platform config reports now
        (record { repository = some repository; user = some actor }) (platform.uuid_text id) headers
        query body
  opened_response-Keeps reports now id repository actor name headers query body none = Keeps-lift _

  open_session-Keeps :
      ReportsParts store
      → (now id : ℕ) (repository : Repository) (actor : User) (name : Bytes) (headers : Headers)
        (query : Query) (body : Body)
      → Keeps IsValid
          (open_session store platform config now id repository actor name headers query body)
  unfolding open_session
  open_session-Keeps reports now id repository actor name headers query body =
      Keeps-bind _ _ (Keeps-call _) (λ opened.
        Keeps-bind _ _
          (Keeps-try_execute _ (
            insert_session-IsValid id repository.id actor.id (object_key platform id)
              opened.upload_id (now + config.upload_session_hours * 3600)))
          (λ stored.
            Keeps-if stored
              (opened_response store platform config now id repository actor name headers query body
                query.digest)
              (call_ignored (store.abort_upload opened) >> throw database)
              (λ _.
                opened_response-Keeps reports now id repository actor name headers query body
                  query.digest)
              (λ _. Keeps-bind _ _ (Keeps-call_ignored _) (λ _. Keeps-throw _))))

  pub start_upload-Keeps :
      ReportsParts store
      → (now new_id id : ℕ) (authorized : Authorized) (name : Bytes) (headers : Headers)
        (query : Query) (body : Body)
      → Keeps IsValid
          (start_upload store platform config now new_id id authorized name headers query body)
  unfolding start_upload
  start_upload-Keeps reports now new_id id authorized name headers query body =
      Keeps-bind _ _ (Keeps-lift _) (λ actor.
        Keeps-bind _ _ (repository_for_push-Keeps new_id name actor authorized.repository)
          (λ repository.
            Keeps-bind _ _ (try_mount-Keeps actor repository (mount_request query)) (λ done.
              Keeps-if done (mounted store platform config name (mount_request query))
                (open_session store platform config now id repository actor name headers query body)
                (λ _. mounted-Keeps name (mount_request query))
                (λ _. open_session-Keeps reports now id repository actor name headers query body))))
