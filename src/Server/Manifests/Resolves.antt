-- ===== src/Server/Manifests/Resolves.antt =====
-- registry.rs, put_manifest, and lookups after it.
use jcr.Prelude.{
  ℕ, ◌≡◌, sym, inl, inr, true, false, Option, some, Bool-cases, Bytes, ok, is_ok, ok-injective,
}
use mathlib.Core.Path.{subst}
use jcr.Digest
use jcr.Digest.{Digest, digest_eq, sha256}
use jcr.Manifest.{Json, ManifestDocument, parse}
use jcr.Server.Types.{
  User, Repository, Headers, Body, Platform, require_repository, read_body, to_str,
}
use jcr.Server.Database.{Database}
use jcr.Server.Database.Rows.{ManifestRow}
use jcr.Server.Exec.{World}
use jcr.Server.Exec.Returns.{
  Returns, returned_ok, Returns-any, Returns-mono, Returns-bind, Returns-lift,
}
use jcr.Server.Manifests.{
  manifest_limit, parsed_manifest, check_reference, lookup_manifest, live_row, tag_digest,
  put_manifest, is_digest_reference,
}
use jcr.Server.Manifests.Held.{
  IsHeld, Leads, held_digest, held_row, checked_reference, persist_manifest-Pushed,
}

-- What a push was given, and what it can be looked up as.
pub record IsResolved {Value : Type 0} (library : Json Value) (platform : Platform)
    (repository : Repository) (reference : Bytes) (headers : Headers) (body : Body) (db : Database)
    : Type 0 where
  pub bytes : Bytes
  pub sent : read_body body headers manifest_limit ≡ ok bytes
  pub document : ManifestDocument
  pub parsed :
      parsed_manifest (parse library platform.hex_sha256 bytes (to_str headers.content_type))
      ≡ ok document
  pub row : ManifestRow
  pub found : lookup_manifest repository.id reference db ≡ some row
  pub digest : row.digest ≡ Digest.to_string document.digest

pub required_same :
    (repository r : Repository) → require_repository (some repository) ≡ ok r → r ≡ repository
unfolding require_repository
required_same repository r h = sym (ok-injective h)

resolved :
    (repository : Repository) (reference : Bytes) (m : ManifestDocument) (db : Database)
    → check_reference reference m.digest ≡ ok tt
    → (h : IsHeld repository.id (Digest.to_string m.digest) db)
    → Leads repository.id reference (Digest.to_string m.digest) db
    → lookup_manifest repository.id reference db ≡ some h.row
unfolding lookup_manifest
resolved repository reference m db c h leads = elim (Bool-cases (is_digest_reference reference)) [
  | inl e ↦
      rw (e, checked_reference reference m.digest e c)
        (held_row repository.id (Digest.to_string m.digest) db h)
  | inr e ↦ rw e (by_tag leads e)
]
  where
    by_tag :
        Leads repository.id reference (Digest.to_string m.digest) db
        → is_digest_reference reference ≡ false
        → live_row repository.id db (tag_digest repository.id reference db) ≡ some h.row
    by_tag (inl d) e = cc
    by_tag (inr t) e = rw t (held_row repository.id (Digest.to_string m.digest) db h)

module _ {S Value : Type 0} (library : Json Value) (platform : Platform) where
  put_manifest-Returns :
      (now : ℕ) (user : Option User) (repository : Repository) (reference : Bytes)
      (headers : Headers) (body : Body) (w : World S)
      → Returns
          (put_manifest library platform now
            (record { repository = some repository; user = user })
            reference
            headers
            body)
          w
          (λ _ w'. IsResolved library platform repository reference headers body w'.db)
  unfolding put_manifest
  put_manifest-Returns now user repository reference headers body w = Returns-bind _ _ _ _ (
      Returns-lift _ _ _ (λ r required. Returns-bind _ _ _ _ (
        Returns-lift _ _ _ (λ actor _. Returns-bind _ _ _ _ (
          Returns-lift _ _ _ (λ bytes sent. Returns-bind _ _ _ _ (
            Returns-lift _ _ _ (λ m parsed. Returns-bind _ _ _ _ (
              Returns-lift _ _ _ (λ _ checked. Returns-bind _ _ _ _ (
                Returns-any _ _ _ (λ _ w1. Returns-bind _ _ _ _ (
                  Returns-any _ _ _ (λ _ w2. Returns-bind _ _ _ _ (
                    Returns-mono _ _ _ _
                      (persist_manifest-Pushed platform now r actor.id reference m w2)
                      (λ _ w3 (held, leads). Returns-bind _ _ _ _ (
                        Returns-lift _ _ _ (λ _ _. Returns-lift _ _ _ (λ _ _. record {
                          bytes = bytes;
                          sent = sent;
                          document = m;
                          parsed = parsed;
                          row = held.row;
                          found =
                              subst (λ x. lookup_manifest x.id reference w3.db ≡ some held.row)
                                (required_same repository r required)
                                (resolved r reference m w3.db checked held leads);
                          digest = held_digest r.id (Digest.to_string m.digest) w3.db held;
                        })))))))))))))))))))

  -- A push that is answered without an error can be looked up: its reference, a tag or the digest, resolves in the
  -- repository to a manifest whose digest is that of the document that was parsed from the body.
  pub put_manifest-IsResolved :
      (now : ℕ) (user : Option User) (repository : Repository) (reference : Bytes)
      (headers : Headers) (body : Body) (w : World S)
      → is_ok
          (put_manifest library platform now
            (record { repository = some repository; user = user })
            reference
            headers
            body
            w).0
        ≡ true
      → IsResolved library platform repository reference headers body
          (put_manifest library platform now
            (record { repository = some repository; user = user })
            reference
            headers
            body
            w).1.db
  put_manifest-IsResolved now user repository reference headers body w h =
      returned_ok
        (put_manifest library platform now (record { repository = some repository; user = user })
          reference headers body)
        w (IsResolved library platform repository reference headers body)
        (put_manifest-Returns now user repository reference headers body w) h
