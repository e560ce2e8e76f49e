-- ===== src/Server/Database.antt =====
-- The tables of migrations/0001_initial.sql that the handlers read and write, as lists of rows in
-- the order of insertion, and the statements on them. A time is a number of seconds, a UUID a number.
pub mod Rows
pub mod Tables
use jcr.Prelude.{
  ℕ, zero, suc, ◌+◌, ◌-◌, ◌*◌, ◌/◌, ◌%◌, ◌^◌, ◌≤◌, ◌<◌, String, ◌≡◌, refl, sym, ap, ◌∙◌, ◌≢◌, ◌↔◌,
  ◌⊎◌, inl, inr, Bool, true, false, not, ◌&&◌, ◌||◌, Option, none, some, List, [], ◌∷◌, ◌++◌, map,
  reverse, arith, ltb, leb, ◌==◌, ==_iff, if◌then◌else◌, Bool-cases, Option-cases, &&-eq-true,
  ||-eq-false, length, all, any, is_empty, length-append, all-append, any-append, Bytes, codes,
  bytes_eq, bytes_eq_refl, eq_of_bytes_eq, bytes_eq_iff, Result, ok, err, ok_or, is_ok, to_option,
  ◌>>=◌, ◌>>◌, >>=-eq-ok, map_err, ok-injective,
}
use jcr.Server.Database.Rows.{
  RepositoryRow, Namespace, Membership, Permission, UploadSession, UploadPart, Blob, RepositoryBlob,
  ManifestRow, RepositoryManifest, DescriptorEdge, Tag, TagEvent, AuditEvent, UserRow, Identity,
  RegistrationEntry, PersonalAccessToken, BrowserSessionRow, RegistrationMode,
}

pub record Database : Type 0 where
  pub registration_mode : RegistrationMode
  pub users : List UserRow
  pub verified_identities : List Identity
  pub registration_entries : List RegistrationEntry
  pub namespaces : List Namespace
  pub namespace_memberships : List Membership
  pub repositories : List RepositoryRow
  pub repository_permissions : List Permission
  pub personal_access_tokens : List PersonalAccessToken
  pub browser_sessions : List BrowserSessionRow
  pub blobs : List Blob
  pub repository_blobs : List RepositoryBlob
  pub manifests : List ManifestRow
  pub repository_manifests : List RepositoryManifest
  pub descriptor_edges : List DescriptorEdge
  pub tags : List Tag
  pub tag_events : List TagEvent
  pub upload_sessions : List UploadSession
  pub upload_parts : List UploadPart
  pub audit_events : List AuditEvent
