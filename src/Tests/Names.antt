-- ===== src/Tests/Names.antt =====
-- Digests, references, scopes, paths and ranges on concrete texts.
use jcr.Prelude.{
  ◌+◌, ◌-◌, ◌≡◌, refl, ◌↔◌, inr, true, ◌||◌, some, [], ◌∷◌, arith, ◌==◌, if◌then◌else◌, any, codes,
  ok, err,
}
use jcr.Text.{split_once, rsplit_once, split, contains}
use jcr.Digest
use jcr.Digest.{Digest}
use jcr.Digest.Laws
use jcr.Digest.Laws.{from_str_iff}
use jcr.Reference
use jcr.Reference.{ImageReference}
use jcr.Reference.Laws.{IsValid}
use jcr.Reference.RoundTrip.{from_str-to_string_reference, from_str-stable}
use jcr.Scope
use jcr.Scope.{AccessAction, RepositoryScope, pull, push, new_scope, permits, action_eq, from_iter}
use jcr.Scope.Laws.{permits-new_scope, from_str-to_string_scope}
use jcr.Server.Error.{oci}
use jcr.Server.Endpoint.{Endpoint, parse_endpoint, blob}
use jcr.Server.Endpoint.Laws.{Routed, parse_endpoint-Routed}
use jcr.Server.Range.{validate_content_range}
use jcr.Server.Range.Laws.{validate_content_range-chunk, range_header}
use jcr.Tests.Data.{five}

from_str_iff_example :
    (Digest.from_str (Digest.to_string five) ≡ ok five)
    ↔ ((Digest.to_string five ≡ Digest.to_string five) × Laws.IsValid five)
from_str_iff_example = from_str_iff (Digest.to_string five) five

abbrev tool_v1 : ImageReference
tool_v1 = record {
  registry = codes "jcr.example";
  repository = codes "ada/tool";
  reference = codes "v1";
}

tool_v1-IsValid : IsValid tool_v1
unfolding Reference.bad_registry Reference.bad_repository split
tool_v1-IsValid = record {
  registry = refl;
  no_slash = refl;
  repository = refl;
  reference = inr (record { nonempty = refl; no_slash = refl; no_colon = refl; no_at = refl });
}

from_str-to_string_reference_example : Reference.from_str (Reference.to_string tool_v1) ≡ ok tool_v1
from_str-to_string_reference_example = from_str-to_string_reference tool_v1 tool_v1-IsValid

parses : Reference.from_str (codes "jcr.example/ada/tool:v1") ≡ ok tool_v1
unfolding Reference.from_str split_once Reference.bad_registry Reference.split_reference rsplit_once
    Reference.check_parts Reference.bad_repository split
parses = refl

from_str-stable_example : Reference.from_str (Reference.to_string tool_v1) ≡ ok tool_v1
from_str-stable_example = from_str-stable (codes "jcr.example/ada/tool:v1") tool_v1 parses

permits-new_scope_example :
    (permits (new_scope (codes "ada/tool") (pull ∷ [])) (codes "ada/tool") push ≡ true) ↔ (
      (codes "ada/tool" ≡ codes "ada/tool")
      × (any (λ a. action_eq a push || action_eq a AccessAction.admin) (pull ∷ []) ≡ true))
permits-new_scope_example = permits-new_scope (codes "ada/tool") (codes "ada/tool") (pull ∷ []) push

abbrev tool_scope : RepositoryScope
tool_scope = record { repository = codes "ada/tool"; actions = from_iter (push ∷ pull ∷ []) }

from_str-to_string_scope_example : Scope.from_str (Scope.to_string tool_scope) ≡ ok tool_scope
from_str-to_string_scope_example = from_str-to_string_scope tool_scope refl refl

routes : parse_endpoint (codes "ada/tool/blobs/d") ≡ ok (blob (codes "ada/tool") (codes "d"))
unfolding parse_endpoint jcr.Text.split_once_at jcr.Text.strip_prefix
    jcr.Server.Endpoint.uploads_infix jcr.Text.strip_suffix jcr.Server.Endpoint.uploads_suffix
    jcr.Server.Endpoint.blobs_infix jcr.Server.Endpoint.validate_repository
    jcr.Server.Endpoint.is_valid_repository split
routes = refl

parse_endpoint-Routed_example :
    Routed (codes "ada/tool/blobs/d") (blob (codes "ada/tool") (codes "d"))
parse_endpoint-Routed_example =
    parse_endpoint-Routed (codes "ada/tool/blobs/d") (blob (codes "ada/tool") (codes "d")) routes

validate_content_range-chunk_example :
    validate_content_range (some (some (range_header 5 (5 + 3 - 1)))) 4 3
    ≡ (if 5 == 4 then ok tt else err (oci 416 "BLOB_UPLOAD_INVALID"))
validate_content_range-chunk_example =
    validate_content_range-chunk 5 3 4 (omega arith) (omega arith)
