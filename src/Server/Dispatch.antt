-- ===== src/Server/Dispatch.antt =====
-- crates/jcrd/src/registry.rs, lines 115-185: a request, from its path to its answer.
pub mod Laws
use jcr.Prelude.{
  ℕ, zero, suc, ◌+◌, ◌-◌, ◌*◌, ◌/◌, ◌%◌, ◌^◌, ◌≤◌, ◌<◌, String, ◌≡◌, refl, sym, ap, ◌∙◌, ◌≢◌, ◌↔◌,
  ◌⊎◌, inl, inr, Bool, true, false, not, ◌&&◌, ◌||◌, Option, none, some, List, [], ◌∷◌, ◌++◌, map,
  reverse, arith, ltb, leb, ◌==◌, ==_iff, if◌then◌else◌, Bool-cases, Option-cases, &&-eq-true,
  ||-eq-false, length, all, any, is_empty, length-append, all-append, any-append, Bytes, codes,
  bytes_eq, bytes_eq_refl, eq_of_bytes_eq, bytes_eq_iff, Result, ok, err, ok_or, is_ok, to_option,
  map_err, ok-injective, Result-cases, All, All-concat,
}
use jcr.Storage.{BlobStore}
use jcr.Scope.{AccessAction}
use jcr.Manifest.{Json}
use jcr.Server.Error.{AppError}
use jcr.Server.Types.{
  Authorized, Headers, Query, Body, Response, Platform, registry_response, into_oci_response,
}
use jcr.Server.Exec.{World, Exec, pure, throw, lift, gets, ◌>>=◌, ◌>>◌}
use jcr.Server.Endpoint
use jcr.Server.Endpoint.{
  Endpoint, Method, blob, upload_start, upload, manifest, tags, get, head, post, patch, put,
  delete_method, action, parse_endpoint,
}
use jcr.Server.Auth.{Credentials}
use jcr.Server.Authorize.{Decision, granted, answered, authorize}
use jcr.Server.Upload.{Config, patch_upload, upload_status, cancel_upload}
use jcr.Server.Commit.{complete_upload}
use jcr.Server.Start.{start_upload}
use jcr.Server.Manifests.{put_manifest, get_manifest, delete_manifest}
use jcr.Server.Reads.{get_blob, list_tags}

-- A request, with the ids that the code draws for it.
pub record Request : Type 0 where
  pub path : Bytes
  pub method : Method
  pub headers : Headers
  pub query : Query
  pub body : Body
  pub now : ℕ
  pub new_repository_id : ℕ
  pub new_upload_id : ℕ

module _ {S Value : Type 0} (store : BlobStore S) (library : Json Value) (platform : Platform)
    (credentials : Credentials) (config : Config) where
  -- the handler of an endpoint and a method
  unfoldable pub handle : Request → Endpoint → Method → Authorized → Exec S Response
  handle r (blob name digest) get a = get_blob store a digest false
  handle r (blob name digest) head a = get_blob store a digest true
  handle r (upload_start name) post a =
      start_upload store platform config r.now r.new_repository_id r.new_upload_id a name r.headers
        r.query r.body
  handle r (upload name id) patch a = patch_upload store platform config r.now a id r.headers r.body
  handle r (upload name id) get a = upload_status store platform config r.now a id
  handle r (upload name id) put a =
      complete_upload store platform config r.now a id r.headers r.query r.body
  handle r (upload name id) delete_method a = cancel_upload store platform config r.now a id
  handle r (manifest name reference) put a =
      put_manifest library platform r.now a reference r.headers r.body
  handle r (manifest name reference) get a = get_manifest a reference false
  handle r (manifest name reference) head a = get_manifest a reference true
  handle r (manifest name reference) delete_method a = delete_manifest r.now a reference
  handle r (tags name) get a = list_tags platform a name r.query
  handle r endpoint method a = pure (registry_response 405)

  abbrev pub decided : Request → Endpoint → Decision → Exec S Response
  decided r endpoint (answered response) = pure response
  decided r endpoint (granted a) = handle r endpoint r.method a

  abbrev pub acted : Bytes → Request → Endpoint → Option AccessAction → Exec S Response
  acted realm r endpoint none = pure (registry_response 405)
  acted realm r endpoint (some needed) =
      authorize platform credentials r.now realm r.headers.authorization
        (Endpoint.repository endpoint) needed
      >>= λ decision. decided r endpoint decision

  unfoldable pub dispatch_inner : Bytes → Request → Exec S Response
  dispatch_inner realm r = do
    endpoint ← lift (parse_endpoint r.path)
    acted realm r endpoint (action endpoint r.method)

abbrev pub answer : {S : Type 0} → Result AppError Response × World S → Response × World S
answer (ok response, w) = (response, w)
answer (err e, w) = (into_oci_response e, w)

module _ {S Value : Type 0} (store : BlobStore S) (library : Json Value) (platform : Platform)
    (credentials : Credentials) (config : Config) where
  -- Every request has an answer.
  unfoldable pub dispatch : Bytes → Request → World S → Response × World S
  unfolding dispatch_inner
  dispatch realm r w = answer (dispatch_inner store library platform credentials config realm r w)
