-- ===== src/Server/Dispatch/Laws.antt =====
-- registry.rs, dispatch, on the invariant of upload sessions.
use jcr.Prelude.{ℕ, Bool, true, false, Option, none, some, Bytes, Result, ok, err}
use jcr.Scope.{AccessAction}
use jcr.Storage.{BlobStore}
use jcr.Manifest.{Json}
use jcr.Server.Error.{AppError}
use jcr.Server.Types.{Authorized, Query, Response, Platform, registry_response}
use jcr.Server.Database.Rows.{Blob}
use jcr.Server.Exec.{World, lift, call, ◌>>=◌}
use jcr.Server.Exec.Keeps.{
  Keeps, Keeps-bind, Keeps-lift, Keeps-if, Keeps-gets, Keeps-fetch, Keeps-call, Keeps-pure,
}
use jcr.Server.Session.Invariant.{IsValid}
use jcr.Server.Endpoint.{
  Endpoint, Method, blob, upload_start, upload, manifest, tags, get, head, post, patch, put,
  delete_method, action,
}
use jcr.Server.Auth.{Credentials}
use jcr.Server.Authorize.{Decision, granted, answered}
use jcr.Server.Upload.{Config, upload_status}
use jcr.Server.Upload.Laws.{ReportsParts, patch_upload-Keeps, cancel_upload-Keeps}
use jcr.Server.Commit.Sessions.{complete_upload-Keeps}
use jcr.Server.Start.Laws.{start_upload-Keeps}
use jcr.Server.Reads.{get_blob, download, list_tags, blob_headers}
use jcr.Server.Dispatch
use jcr.Server.Dispatch.{Request, handle, decided, acted, dispatch_inner, dispatch}
use jcr.Server.Authorize.Sessions.{authorize-Keeps}
use jcr.Server.Manifests.Sessions.{put_manifest-Keeps, get_manifest-Keeps, delete_manifest-Keeps}

module _ {S : Type 0} (store : BlobStore S) (platform : Platform) where
  download-Keeps : (blob : Blob) (url : Option Bytes) → Keeps IsValid (download store blob url)
  download-Keeps b (some url) = Keeps-bind _ _ (Keeps-lift _) (λ response. Keeps-lift _)
  download-Keeps b none = Keeps-bind _ _ (Keeps-call _) (λ stream. Keeps-lift _)

  get_blob-Keeps :
      (authorized : Authorized) (text : Bytes) (head_only : Bool)
      → Keeps IsValid (get_blob store authorized text head_only)
  unfolding get_blob
  get_blob-Keeps authorized text head_only = Keeps-bind _ _ (Keeps-lift _) (λ digest.
      Keeps-bind _ _ (Keeps-lift _) (λ repository. Keeps-bind _ _ (Keeps-fetch _ _) (λ b.
        Keeps-if head_only (lift (blob_headers false b (registry_response 200)))
          (call (store.signed_get_url b.object_key 300) >>= λ url. download store b url)
          (λ _. Keeps-lift _) (λ _. Keeps-bind _ _ (Keeps-call _) (λ url. download-Keeps b url)))))

  list_tags-Keeps :
      (authorized : Authorized) (name : Bytes) (query : Query)
      → Keeps {S = S} IsValid (list_tags platform authorized name query)
  unfolding list_tags
  list_tags-Keeps authorized name query =
      Keeps-bind _ _ (Keeps-lift _)
        (λ repository. Keeps-bind _ _ (Keeps-gets _) (λ rows. Keeps-lift _))

  upload_status-Keeps :
      (config : Config) (now : ℕ) (authorized : Authorized) (id : Bytes)
      → Keeps IsValid (upload_status store platform config now authorized id)
  unfolding upload_status
  upload_status-Keeps config now authorized id = Keeps-bind _ _ (Keeps-lift _) (λ repository.
      Keeps-bind _ _ (Keeps-lift _) (λ upload_id.
        Keeps-bind _ _ (Keeps-fetch _ _) (λ u. Keeps-bind _ _ (Keeps-lift _) (λ _. Keeps-lift _))))

module _ {S Value : Type 0} (store : BlobStore S) (library : Json Value) (platform : Platform)
    (credentials : Credentials) (config : Config) where
  handle-Keeps :
      ReportsParts store
      → (r : Request) (e : Endpoint) (m : Method) (a : Authorized)
      → Keeps IsValid (handle store library platform credentials config r e m a)
  unfolding handle
  handle-Keeps reports r (blob name digest) get a = get_blob-Keeps store platform a digest false
  handle-Keeps reports r (blob name digest) head a = get_blob-Keeps store platform a digest true
  handle-Keeps reports r (upload_start name) post a =
      start_upload-Keeps store platform config reports r.now r.new_repository_id r.new_upload_id a
        name r.headers r.query r.body
  handle-Keeps reports r (upload name id) patch a =
      patch_upload-Keeps store platform config reports r.now a id r.headers r.body
  handle-Keeps reports r (upload name id) get a =
      upload_status-Keeps store platform config r.now a id
  handle-Keeps reports r (upload name id) put a =
      complete_upload-Keeps store platform config reports r.now a id r.headers r.query r.body
  handle-Keeps reports r (upload name id) delete_method a =
      cancel_upload-Keeps store platform config r.now a id
  handle-Keeps reports r (manifest name reference) put a =
      put_manifest-Keeps library platform r.now a reference r.headers r.body
  handle-Keeps reports r (manifest name reference) get a = get_manifest-Keeps a reference false
  handle-Keeps reports r (manifest name reference) head a = get_manifest-Keeps a reference true
  handle-Keeps reports r (manifest name reference) delete_method a =
      delete_manifest-Keeps r.now a reference
  handle-Keeps reports r (tags name) get a = list_tags-Keeps store platform a name r.query
  handle-Keeps reports r e m a = Keeps-pure _

  acted-Keeps :
      ReportsParts store
      → (realm : Bytes) (r : Request) (e : Endpoint) (needed : Option AccessAction)
      → Keeps IsValid (acted store library platform credentials config realm r e needed)
  acted-Keeps reports realm r e none = Keeps-pure _
  acted-Keeps reports realm r e (some needed) =
      Keeps-bind _ _
        (authorize-Keeps platform credentials r.now realm r.headers.authorization _ needed)
        (λ decision. of decision)
    where
      of : (d : Decision) → Keeps IsValid (decided store library platform credentials config r e d)
      of (answered response) = Keeps-pure _
      of (granted a) = handle-Keeps reports r e r.method a

  dispatch_inner-Keeps :
      ReportsParts store
      → (realm : Bytes) (r : Request)
      → Keeps IsValid (dispatch_inner store library platform credentials config realm r)
  unfolding dispatch_inner
  dispatch_inner-Keeps reports realm r =
      Keeps-bind _ _ (Keeps-lift _) (λ e. acted-Keeps reports realm r e (action e r.method))

  -- Every request keeps the invariant of upload sessions, whatever its path, method, credentials and body, and whether
  -- it is answered or fails at any step, for a store that reports the number and the size of the part it was sent:
  -- ids are unique, a part belongs to a session, the parts of a session are numbered from 1 without a gap, the offset
  -- of a session that is not closed is the total of their sizes, and where a session has a uniform size, that of its
  -- first part, all parts but the last have it and the last is not larger; an open session without one has no part.
  pub dispatch-IsValid :
      ReportsParts store
      → (realm : Bytes) (r : Request) (w : World S) → IsValid w.db
      → IsValid (dispatch store library platform credentials config realm r w).1.db
  unfolding dispatch
  dispatch-IsValid reports realm r w v =
      of (dispatch_inner store library platform credentials config realm r w)
        ((dispatch_inner-Keeps reports realm r).at w v)
    where
      of :
          (p : Result AppError Response × World S)
          → IsValid p.1.db
          → IsValid (Dispatch.answer p).1.db
      of (ok response, w') v = v
      of (err e, w') v = v
