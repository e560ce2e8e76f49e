-- ===== src/Tests/Requests.antt =====
-- A request through the whole registry.
use jcr.Prelude.{some, codes}
use jcr.Server.Endpoint.{patch}
use jcr.Server.Session.Invariant.{IsValid}
use jcr.Server.Dispatch.{Request, dispatch}
use jcr.Server.Dispatch.Laws.{dispatch-IsValid}
use jcr.Tests.Data.{memory, platform, world, config, no_headers, query}
use jcr.Tests.Access.{credentials}
use jcr.Tests.Manifests.{library}
use jcr.Tests.Uploads.{memory-ReportsParts, world-IsValid}

abbrev chunk : Request
chunk = record {
  path = codes "ada/tool/blobs/uploads/seven";
  method = patch;
  headers = record no_headers { authorization = some (some (codes "Bearer t")) };
  query = query;
  body = some (codes "hello");
  now = 10;
  new_repository_id = 4;
  new_upload_id = 8;
}

dispatch-IsValid_example :
    IsValid (dispatch memory library platform credentials config (codes "/token") chunk world).1.db
dispatch-IsValid_example =
    dispatch-IsValid memory library platform credentials config memory-ReportsParts (codes "/token")
      chunk world world-IsValid
