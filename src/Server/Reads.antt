-- ===== src/Server/Reads.antt =====
-- crates/jcrd/src/registry.rs, lines 88-93, 347-410 and 940-998: the download of blobs and the list of tags.
use jcr.Prelude.{
  ℕ, ◌+◌, Bool, true, false, not, ◌&&◌, Option, none, some, List, [], ◌∷◌, ◌++◌, map, ltb, ◌==◌,
  if◌then◌else◌, length, Bytes, codes, bytes_eq, Result, ok, err,
}
use jcr.Text.Decimal.{ℤ, pos, negsuc, parse_i64, decimal}
use jcr.Digest
use jcr.Digest.{Digest}
use jcr.Storage.{BlobStore}
use jcr.Server.Error.{AppError, oci}
use jcr.Server.Types.{
  full_name, Authorized, Query, Response, Platform, registry_response, require_repository,
  insert_header, location, docker_content_digest, content_type, content_length, link, chunks,
  tag_list,
}
use jcr.Server.Database.{Database}
use jcr.Server.Database.Rows.{Blob}
use jcr.Server.Database.Tables.{find, select, exists, take, order_by}
use jcr.Server.Exec.{Exec, lift, gets, fetch, call, ◌>>=◌}
use jcr.Server.Commit.{has_digest, is_committed, parsed_digest}

-- the join of `get_blob`
unfoldable pub find_blob : ℕ → Bytes → Database → Option Blob
find_blob repository_id digest db =
    if exists (λ r. r.repository_id == repository_id && bytes_eq r.digest digest)
      db.repository_blobs
    then find (λ b. has_digest digest b && is_committed b.status) db.blobs
    else none

abbrev sized : Bool → Blob → Response → Result AppError Response
sized true blob response = ok response
sized false blob response = insert_header content_length (decimal blob.size) response

-- The headers of the answer; a redirect has no length of the object.
unfoldable pub blob_headers : Bool → Blob → Response → Result AppError Response
blob_headers is_redirect blob response = elim (sized is_redirect blob response) [
  | err e ↦ err e
  | ok r ↦ elim (insert_header docker_content_digest blob.digest r) [
    | err e ↦ err e
    | ok r' ↦ insert_header content_type (codes "application/octet-stream") r'
  ]
]

module _ {S : Type 0} (store : BlobStore S) where
  abbrev pub download : Blob → Option Bytes → Exec S Response
  download blob (some url) = do
    response ← lift (insert_header location url (registry_response 307))
    lift (blob_headers true blob response)
  download blob none = do
    stream ← call (store.stream blob.object_key)
    lift (blob_headers false blob (record (registry_response 200) { body = chunks stream }))

  unfoldable pub get_blob : Authorized → Bytes → Bool → Exec S Response
  get_blob authorized text head_only = do
    digest ← lift (parsed_digest (Digest.from_str text))
    repository ← lift (require_repository authorized.repository)
    blob ← fetch (find_blob repository.id (Digest.to_string digest)) (oci 404 "BLOB_UNKNOWN")
    if head_only
        then lift (blob_headers false blob (registry_response 200))
        else call (store.signed_get_url blob.object_key 300) >>= λ url. download blob url

abbrev clamped : Option ℤ → ℕ
clamped none = 100
clamped (some (negsuc n)) = 1
clamped (some (pos n)) = if ltb n 1 then 1 else if ltb 1000 n then 1000 else n

abbrev or_default : Option Bytes → Option ℤ
or_default none = none
or_default (some text) = parse_i64 text

-- the number of tags on a page
unfoldable pub page_limit : Query → ℕ
page_limit query = clamped (or_default query.n)

abbrev or_empty : Option Bytes → Bytes
or_empty none = []
or_empty (some s) = s

module _ (platform : Platform) where
  abbrev at_most : Bytes → Bytes → Bool
  at_most s t = not (platform.precedes t s)

  -- the query of `list_tags`
  unfoldable pub tags_after : ℕ → Bytes → ℕ → Database → List Bytes
  tags_after repository_id last limit db = take limit (
      order_by at_most (
        map (λ t. t.name)
          (select (λ t. t.repository_id == repository_id && platform.precedes last t.name)
            db.tags)))

abbrev last_of : List Bytes → Option Bytes
last_of [] = none
last_of (s ∷ []) = some s
last_of (s ∷ t ∷ ts) = last_of (t ∷ ts)

module _ (platform : Platform) where
  abbrev next_page : Bytes → ℕ → Bool → Option Bytes → Response → Result AppError Response
  next_page name limit true (some next) response =
      insert_header link
        (codes "</v2/"
          ++ (name
              ++ (codes "/tags/list?"
                  ++ (platform.encode_pairs ((codes "n", decimal limit) ∷ (codes "last", next) ∷ [])
                      ++ codes ">; rel=\"next\""))))
        response
  next_page name limit has_more next response = ok response

  -- the page that the rows give: one more row than the limit tells of a next page
  unfoldable pub tag_page : Bytes → Bytes → ℕ → List Bytes → Result AppError Response
  tag_page repository_name name limit rows =
      let shown = take limit rows in
      next_page name limit (ltb limit (length rows)) (last_of shown)
        (record (registry_response 200) { body = tag_list repository_name shown })

  module _ {S : Type 0} where
    unfoldable pub list_tags : Authorized → Bytes → Query → Exec S Response
    unfolding tag_page page_limit
    list_tags authorized repository_name query = do
      repository ← lift (require_repository authorized.repository)
      rows ← gets (tags_after platform repository.id (or_empty query.last) (page_limit query + 1))
      lift (tag_page repository_name (full_name repository) (page_limit query) rows)
