-- ===== src/Server/Database/Rows.antt =====
-- The rows of the tables. Columns that no modelled code reads are left out.
use jcr.Prelude.{ℕ, String, Option, Bytes}
use jcr.Scope.{AccessAction}
use jcr.Text.Decimal.{ℤ}

pub data RegistrationMode : Type 0 where
  closed allowlist invite open_mode : RegistrationMode

pub data EntryStatus : Type 0 where
  pending claimed revoked : EntryStatus

pub data InstanceRole : Type 0 where
  user admin : InstanceRole

pub data NamespaceRole : Type 0 where
  reader writer admin : NamespaceRole

pub data Visibility : Type 0 where
  private_visibility public_visibility : Visibility

pub data UploadStatus : Type 0 where
  uploading finalizing committed failed cancelled : UploadStatus

pub data BlobStatus : Type 0 where
  committed tombstoned : BlobStatus

pub data Relationship : Type 0 where
  config layer manifest subject : Relationship

pub record UserRow : Type 0 where
  pub id : ℕ
  pub username : Bytes
  pub display_name : Option Bytes
  pub primary_email : Bytes
  pub instance_role : InstanceRole
  pub disabled_at : Option ℕ

pub record Identity : Type 0 where
  pub user_id : ℕ
  pub provider : Bytes
  pub provider_subject : Bytes
  pub email : Bytes

pub record RegistrationEntry : Type 0 where
  pub id : ℕ
  pub email : Bytes
  pub instance_role : InstanceRole
  pub namespace_role : NamespaceRole
  pub status : EntryStatus
  pub claimed_by : Option ℕ
  pub expires_at : Option ℕ

pub record Namespace : Type 0 where
  pub id : ℕ
  pub name : Bytes
  pub owner_user_id : ℕ

pub record Membership : Type 0 where
  pub namespace_id : ℕ
  pub user_id : ℕ
  pub role : NamespaceRole

pub record RepositoryRow : Type 0 where
  pub id : ℕ
  pub namespace_id : ℕ
  pub name : Bytes
  pub visibility : Visibility
  pub immutable_tag_pattern : Option Bytes
  pub deleted_at : Option ℕ

pub record Permission : Type 0 where
  pub repository_id : ℕ
  pub user_id : ℕ
  pub action : AccessAction

pub record PersonalAccessToken : Type 0 where
  pub id : ℕ
  pub user_id : ℕ
  pub name : Bytes
  pub token_prefix : Bytes
  pub secret_hash : Bytes
  pub expires_at : Option ℕ
  pub last_used_at : Option ℕ
  pub revoked_at : Option ℕ

pub record BrowserSessionRow : Type 0 where
  pub id : ℕ
  pub user_id : ℕ
  pub token_hash : Bytes
  pub csrf_token : Bytes
  pub expires_at : ℕ

pub record Blob : Type 0 where
  pub digest : Bytes
  pub size : ℕ
  pub object_key : Bytes
  pub status : BlobStatus
  pub created_at : ℕ
  pub tombstoned_at : Option ℕ

pub record RepositoryBlob : Type 0 where
  pub repository_id : ℕ
  pub digest : Bytes

pub record ManifestRow : Type 0 where
  pub digest : Bytes
  pub media_type : Bytes
  pub artifact_type : Option Bytes
  pub subject_digest : Option Bytes
  pub size : ℕ
  pub payload : Bytes

pub record RepositoryManifest : Type 0 where
  pub repository_id : ℕ
  pub digest : Bytes
  pub linked_at : ℕ
  pub deleted_at : Option ℕ

pub record DescriptorEdge : Type 0 where
  pub parent_digest : Bytes
  pub child_digest : Bytes
  pub relationship : Relationship
  pub position : ℕ
  pub media_type : Bytes
  pub size : ℤ

pub record Tag : Type 0 where
  pub repository_id : ℕ
  pub name : Bytes
  pub manifest_digest : Bytes

pub record TagEvent : Type 0 where
  pub repository_id : ℕ
  pub tag_name : Bytes
  pub previous_digest : Option Bytes
  pub new_digest : Option Bytes
  pub actor_user_id : ℕ

pub record UploadSession : Type 0 where
  pub id : ℕ
  pub repository_id : ℕ
  pub actor_user_id : ℕ
  pub object_key : Bytes
  pub storage_upload_id : Bytes
  pub accepted_offset : ℕ
  pub next_part_number : ℕ
  pub uniform_part_size : Option ℕ
  pub status : UploadStatus
  pub expires_at : ℕ

pub record UploadPart : Type 0 where
  pub upload_id : ℕ
  pub part_number : ℕ
  pub etag : Bytes
  pub size : ℕ

pub record AuditEvent : Type 0 where
  pub actor_user_id : Option ℕ
  pub action : String
  pub repository_id : Option ℕ
  pub resource_type : Option String
  pub resource_id : Option Bytes
