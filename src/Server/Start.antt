-- ===== src/Server/Start.antt =====
-- crates/jcrd/src/registry.rs, lines 412-524, and db.rs, lines 681-757: the start of an upload, and the
-- repository that a first push makes.
pub mod Laws
use jcr.Prelude.{
  ℕ, zero, suc, ◌+◌, ◌-◌, ◌*◌, ◌/◌, ◌%◌, ◌^◌, ◌≤◌, ◌<◌, String, ◌≡◌, refl, sym, ap, ◌∙◌, ◌≢◌, ◌↔◌,
  ◌⊎◌, inl, inr, Bool, true, false, not, ◌&&◌, ◌||◌, Option, none, some, List, [], ◌∷◌, ◌++◌, map,
  reverse, arith, ltb, leb, ◌==◌, ==_iff, if◌then◌else◌, Bool-cases, Option-cases, &&-eq-true,
  ||-eq-false, length, all, any, is_empty, length-append, all-append, any-append, Bytes, codes,
  bytes_eq, bytes_eq_refl, eq_of_bytes_eq, bytes_eq_iff, Result, ok, err, ok_or, is_ok, to_option,
  map_err, ok-injective, Result-cases, All, All-concat,
}
use jcr.Text.{split_once}
use jcr.Scope.{AccessAction, pull, push}
use jcr.Digest
use jcr.Digest.{Digest}
use jcr.Storage.{BlobStore, StorageUpload}
use jcr.Server.Error.{AppError, oci, bad_request, denied, database, internal}
use jcr.Server.Types.{
  User, is_instance_admin, Repository, full_name, Authorized, Headers, HeaderName, Query, Body,
  Response, Platform, registry_response, insert_header, location, docker_content_digest,
}
use jcr.Server.Database.{Database}
use jcr.Server.Database.Rows.{
  RepositoryRow, Membership, NamespaceRole, Visibility, UploadSession, UploadStatus, RepositoryBlob,
}
use jcr.Server.Database.Tables.{find, exists, insert, insert_new}
use jcr.Server.Exec.{
  World, Exec, pure, throw, lift, gets, call, call_ignored, modify, execute, try_execute, ◌>>=◌,
  ◌>>◌,
}
use jcr.Server.Range.{set_upload_headers}
use jcr.Server.Access.{find_repository, authorize_repository, role_by_name, name_format}
use jcr.Server.Upload.{Config}
use jcr.Server.Commit.{has_digest, is_committed, insert_audit, complete_upload}

-- the row of a new repository
abbrev new_repository : ℕ → ℕ → Bytes → RepositoryRow
new_repository id namespace_id name = record {
  id = id;
  namespace_id = namespace_id;
  name = name;
  visibility = Visibility.private_visibility;
  immutable_tag_pattern = none;
  deleted_at = none;
}

-- The check of the names refuses the statement; a name that is there is left alone.
unfoldable pub insert_repository : ℕ → ℕ → Bytes → Database → Option Database
insert_repository id namespace_id name db =
    if name_format false name
    then some (record db {
      repositories =
          insert_new (λ r. r.namespace_id == namespace_id && bytes_eq r.name name)
            (new_repository id namespace_id name) db.repositories;
    })
    else none

abbrev is_reader : NamespaceRole → Bool
is_reader NamespaceRole.reader = true
is_reader _ = false

abbrev may_create : User → Option Membership → Result AppError Membership
may_create actor none = err denied
may_create actor (some m) =
    if not (is_instance_admin actor) && is_reader m.role then err denied else ok m

abbrev owned_name : Option (Bytes × Bytes) → Result AppError (Bytes × Bytes)
owned_name none = err bad_request
owned_name (some (namespace, name)) =
    if is_empty name then err bad_request else ok (namespace, name)

abbrev is_mountable : Repository → Bytes → Database → Bool
is_mountable source digest db =
    exists (λ r. r.repository_id == source.id && bytes_eq r.digest digest) db.repository_blobs
    && exists (λ b. has_digest digest b && is_committed b.status) db.blobs

unfoldable pub link_blob : ℕ → Bytes → Database → Database
link_blob repository_id digest db = record db {
  repository_blobs =
      insert_new (λ r. r.repository_id == repository_id && bytes_eq r.digest digest)
        (record { repository_id = repository_id; digest = digest }) db.repository_blobs;
}

module _ {S : Type 0} (platform : Platform) where
  -- where no repository has the name
  unfoldable pub create_for_push : ℕ → Bytes → User → Exec S Repository
  unfolding insert_repository
  create_for_push new_id name actor = do
    (namespace, part) ← lift (owned_name (split_once b'/' name))
    found ← gets (role_by_name platform namespace actor.id)
    access ← lift (may_create actor found)
    execute (insert_repository new_id access.namespace_id part)
    made ← gets (find_repository platform name)
    again ← lift made
    repository ← lift (ok_or again internal)
    modify (
        insert_audit (some actor.id) "repository.created" (some repository.id) (some "repository")
          (some (platform.uuid_text repository.id)))
    pure repository

  abbrev pub push_to : ℕ → Bytes → User → Option Repository → Exec S Repository
  push_to new_id name actor none = create_for_push new_id name actor
  push_to new_id name actor (some repository) = do
    allowed ← gets (authorize_repository (some actor) repository push)
    if allowed then pure repository else throw denied

  unfoldable pub ensure_repository_for_push : ℕ → Bytes → User → Exec S Repository
  ensure_repository_for_push new_id name actor = do
    looked ← gets (find_repository platform name)
    found ← lift looked
    push_to new_id name actor found

  abbrev pub mount_from : User → Repository → Bytes → Option Repository → Exec S Bool
  mount_from actor target digest none = pure false
  mount_from actor target digest (some source) = do
    allowed ← gets (authorize_repository (some actor) source pull)
    there ← gets (is_mountable source digest)
    if allowed && there then modify (link_blob target.id digest) >> pure true else pure false

  unfoldable pub mount_blob : User → Repository → Bytes → Bytes → Exec S Bool
  unfolding link_blob
  mount_blob actor target source_name digest = do
    looked ← gets (find_repository platform source_name)
    source ← lift looked
    mount_from actor target digest source

abbrev as_digest : {E : Type 0} → Result E Digest → Option Digest
as_digest (ok d) = some d
as_digest (err e) = none

-- The digest and the source of a mount, where both are named and the digest parses.
unfoldable pub mount_request : Query → Option (Digest × Bytes)
mount_request query = elim query.mount [
  | none ↦ none
  | some mount ↦ elim query.from_name [
    | none ↦ none
    | some source ↦ elim (as_digest (Digest.from_str mount)) [
      | none ↦ none
      | some d ↦ some (d, source)
    ]
  ]
]

abbrev pub object_key : Platform → ℕ → Bytes
object_key platform id = codes "uploads/" ++ platform.uuid_text id

abbrev pub new_session : ℕ → ℕ → ℕ → Bytes → Bytes → ℕ → UploadSession
new_session id repository_id actor key upload_id expires_at = record {
  id = id;
  repository_id = repository_id;
  actor_user_id = actor;
  object_key = key;
  storage_upload_id = upload_id;
  accepted_offset = 0;
  next_part_number = 1;
  uniform_part_size = none;
  status = UploadStatus.uploading;
  expires_at = expires_at;
}

-- The keys of the table refuse an id or an object key that is there.
unfoldable pub insert_session : UploadSession → Database → Option Database
insert_session session db =
    if exists (λ u. u.id == session.id || bytes_eq u.object_key session.object_key)
      db.upload_sessions
    then none
    else some (record db { upload_sessions = insert session db.upload_sessions })

module _ {S : Type 0} (store : BlobStore S) (platform : Platform) (config : Config) where
  -- a request that names a digest brings the whole blob
  abbrev pub opened_response :
      ℕ → ℕ → Repository → User → Bytes → Headers → Query → Body → Option Bytes → Exec S Response
  opened_response now id repository actor name headers query body (some d) =
      complete_upload store platform config now
        (record { repository = some repository; user = some actor }) (platform.uuid_text id) headers
        query body
  opened_response now id repository actor name headers query body none =
      lift (set_upload_headers platform.uuid_text name id 0 (registry_response 202))

  -- the rest of `start_upload`, where nothing was mounted
  unfoldable pub open_session :
      ℕ → ℕ → Repository → User → Bytes → Headers → Query → Body → Exec S Response
  open_session now id repository actor name headers query body = do
    opened ← call (store.initiate_upload (object_key platform id))
    stored ← try_execute (
        insert_session (
          new_session id repository.id actor.id (object_key platform id) opened.upload_id
            (now + config.upload_session_hours * 3600)))
    if stored
        then opened_response now id repository actor name headers query body query.digest
        else call_ignored (store.abort_upload opened) >> throw database

  abbrev pub try_mount : User → Repository → Option (Digest × Bytes) → Exec S Bool
  try_mount actor repository none = pure false
  try_mount actor repository (some (digest, source)) =
      mount_blob platform actor repository source (Digest.to_string digest)

  -- the answer of a mount
  abbrev pub mounted : Bytes → Option (Digest × Bytes) → Exec S Response
  mounted name none = throw internal
  mounted name (some (digest, source)) = do
    response ← lift (
        insert_header location
          (codes "/v2/" ++ (name ++ (codes "/blobs/" ++ Digest.to_string digest)))
          (registry_response 201))
    lift (insert_header docker_content_digest (Digest.to_string digest) response)

  abbrev pub repository_for_push : ℕ → Bytes → User → Option Repository → Exec S Repository
  repository_for_push new_id name actor (some repository) = pure repository
  repository_for_push new_id name actor none = ensure_repository_for_push platform new_id name actor

  -- `new_id` is the id of a repository that is made, `id` that of the session.
  unfoldable pub start_upload :
      ℕ → ℕ → ℕ → Authorized → Bytes → Headers → Query → Body → Exec S Response
  start_upload now new_id id authorized name headers query body = do
    actor ← lift (ok_or authorized.user denied)
    repository ← repository_for_push new_id name actor authorized.repository
    done ← try_mount actor repository (mount_request query)
    if done
        then mounted name (mount_request query)
        else open_session now id repository actor name headers query body
