-- ===== src/Server/Endpoint/Laws.antt =====
-- registry.rs, parse_endpoint: paths and what they are routed to.
use jcr.Prelude.{
  ◌≡◌, refl, ◌⊎◌, inl, inr, true, false, ◌||◌, [], ◌∷◌, ◌++◌, arith, Bool-cases, Option-cases,
  ||-eq-false, is_empty, Bytes, Result, ok, err, ◌>>◌, ok-injective,
}
use jcr.Text.{contains, split_once_at, strip_suffix}
use jcr.Text.Splitting.{split_once_at_sound, strip_suffix_sound}
use jcr.Server.Error.{AppError, oci}
use jcr.Server.Endpoint.{
  Endpoint, blob, upload_start, upload, manifest, tags, repository, is_valid_repository,
  validate_repository, uploads_infix, uploads_suffix, blobs_infix, manifests_infix, tags_suffix,
  upload_endpoint, manifest_endpoint, tags_endpoint, parse_endpoint,
}

-- The path of an endpoint; an upload may be started with or without the last slash.
abbrev pub Renders : Endpoint → Bytes → Type 0
Renders (blob r digest) path = r ++ (blobs_infix ++ digest) ≡ path
Renders (upload_start r) path = (r ++ (uploads_infix ++ []) ≡ path) ⊎ (r ++ uploads_suffix ≡ path)
Renders (upload r id) path =
    (r ++ (uploads_infix ++ id) ≡ path) × (is_empty id ≡ false) × (contains b'/' id ≡ false)
Renders (manifest r reference) path =
    (r ++ (manifests_infix ++ reference) ≡ path)
    × (is_empty reference ≡ false)
    × (contains b'/' reference ≡ false)
Renders (tags r) path = r ++ tags_suffix ≡ path

abbrev pub Routed : Bytes → Endpoint → Type 0
Routed path e = Renders e path × (is_valid_repository (repository e) ≡ true)

validated :
    (r : Bytes) (m : Result AppError Endpoint) (e : Endpoint)
    → (do validate_repository r; m) ≡ ok e
    → (is_valid_repository r ≡ true) × (m ≡ ok e)
unfolding validate_repository
validated r m e h = ground arith

upload_endpoint-Routed :
    (path r suffix : Bytes) (e : Endpoint)
    → r ++ (uploads_infix ++ suffix) ≡ path
    → upload_endpoint r suffix ≡ ok e
    → Routed path e
unfolding upload_endpoint repository
upload_endpoint-Routed path r [] e p h =
    let (v, k) = validated r _ e h in rw (← ok-injective k) (inl p, v)
upload_endpoint-Routed path r (x ∷ s) e p h = elim (Bool-cases (contains b'/' (x ∷ s))) [
  | inl nested ↦ refused (rw nested at (validated r _ e h).1)
  | inr plain ↦
      let (v, k) = validated r _ e h in rw (← ok-injective (rw plain at k)) ((p, refl, plain), v)
]
  where
    refused :
        ◌≡◌ {A = Result AppError Endpoint} (err (oci 404 "BLOB_UPLOAD_UNKNOWN")) (ok e)
        → Routed path e
    refused q = cc

manifest_endpoint-Routed :
    (path r reference : Bytes) (e : Endpoint)
    → r ++ (manifests_infix ++ reference) ≡ path
    → manifest_endpoint r reference ≡ ok e
    → Routed path e
unfolding manifest_endpoint repository
manifest_endpoint-Routed path r reference e p h =
    let (v, k) = validated r _ e h in
    elim (Bool-cases (is_empty reference || contains b'/' reference)) [
      | inl bad ↦ refused (rw bad at k)
      | inr good ↦
          let (full, plain) = ||-eq-false _ _ good in
          rw (← ok-injective (rw good at k)) ((p, full, plain), v)
    ]
  where
    refused :
        ◌≡◌ {A = Result AppError Endpoint} (err (oci 400 "MANIFEST_INVALID")) (ok e) → Routed path e
    refused q = cc

tags_endpoint-Routed :
    (path : Bytes) (e : Endpoint)
    → tags_endpoint (strip_suffix tags_suffix path) ≡ ok e
    → Routed path e
unfolding tags_endpoint repository
tags_endpoint-Routed path e h = elim (Option-cases (strip_suffix tags_suffix path)) [
  | inl n ↦ refused (rw (n, tags_endpoint) at h)
  | inr (r, found) ↦
      let (v, k) = validated r _ e (rw (found, tags_endpoint) at h) in
      rw (← ok-injective k) (strip_suffix_sound tags_suffix path r found, v)
]
  where
    refused :
        ◌≡◌ {A = Result AppError Endpoint} (err (oci 404 "NAME_UNKNOWN")) (ok e) → Routed path e
    refused q = cc

-- A path that is routed is the path of its endpoint (up to the last slash of an upload's start),
-- the endpoint's repository is a valid name, and no id or manifest reference holds a slash.
pub parse_endpoint-Routed :
    (path : Bytes) (e : Endpoint) → parse_endpoint path ≡ ok e → Routed path e
unfolding parse_endpoint repository
parse_endpoint-Routed path e h = elim (Option-cases (split_once_at uploads_infix path)) [
  | inr ((r, suffix), found) ↦
      upload_endpoint-Routed path r suffix e (split_once_at_sound uploads_infix path r suffix found)
        (rw (found, parse_endpoint) at h)
  | inl n1 ↦ elim (Option-cases (strip_suffix uploads_suffix path)) [
    | inr (r, found) ↦
        let (v, k) = validated r _ e (rw (n1, found, parse_endpoint) at h) in
        rw (← ok-injective k) (inr (strip_suffix_sound uploads_suffix path r found), v)
    | inl n2 ↦ elim (Option-cases (split_once_at blobs_infix path)) [
      | inr ((r, digest), found) ↦
          let (v, k) = validated r _ e (rw (n1, n2, found, parse_endpoint) at h) in
          rw (← ok-injective k) (split_once_at_sound blobs_infix path r digest found, v)
      | inl n3 ↦ elim (Option-cases (split_once_at manifests_infix path)) [
        | inr ((r, reference), found) ↦
            manifest_endpoint-Routed path r reference e
              (split_once_at_sound manifests_infix path r reference found)
              (rw (n1, n2, n3, found, parse_endpoint) at h)
        | inl n4 ↦ tags_endpoint-Routed path e (rw (n1, n2, n3, n4, parse_endpoint) at h)
      ]
    ]
  ]
]
