-- ===== src/Storage/Model.antt =====
-- prisma/file.prisma, libs/storage/src/domain (types.ts, enums/storage.enums.ts) and the configured
-- quotas. The decimals of a configured number of GB are kept in thousandths.
use saas_backend_blueprint.Prelude.{ℕ, String, Bool, true, false, ◌&&◌, ◌||◌, ◌==◌, List, Option}
use saas_backend_blueprint.Members.Model.{Uuid}

pub data StorageProvider : Type 0 where
  s3 azure : StorageProvider

pub data FileStatus : Type 0 where
  pending completed expired aborted : FileStatus

abbrev pub is_pending : FileStatus → Bool
is_pending pending = true
is_pending _ = false

abbrev pub is_completed : FileStatus → Bool
is_completed completed = true
is_completed _ = false

-- `org/{orgId}/{fileId}`
pub record StorageKey : Type 0 where
  pub org_id : Uuid
  pub file_id : Uuid

abbrev pub same_storage_key : StorageKey → StorageKey → Bool
same_storage_key k l = k.org_id == l.org_id && k.file_id == l.file_id

pub record File : Type 0 where
  pub id : Uuid
  pub org_id : Uuid
  pub uploaded_by : Uuid
  pub storage_key : StorageKey
  pub provider : StorageProvider
  pub filename : String
  pub size : Option ℕ
  pub mime_type : Option String
  pub status : FileStatus
  pub expires_at : Option ℕ
  pub confirmed_at : Option ℕ

-- `@id` and `@unique` of `storageKey`
abbrev pub clash : File → File → Bool
clash f g = f.id == g.id || same_storage_key f.storage_key g.storage_key

pub data PlanType : Type 0 where
  free pro enterprise : PlanType

pub record PlanQuota : Type 0 where
  pub storage_limit_gb : Option ℕ
  pub file_count_limit : Option ℕ
  pub max_file_size_gb : Option ℕ

pub record Quotas : Type 0 where
  pub free_plan : PlanQuota
  pub pro_plan : PlanQuota
  pub enterprise_plan : PlanQuota

pub record UploadPolicy : Type 0 where
  pub max_file_size_bytes : ℕ
  pub allowed_mime_types : Option (List String)
  pub forbidden_mime_types : Option (List String)

pub record StorageUsage : Type 0 where
  pub total_bytes : ℕ
  pub file_count : ℕ

pub record StorageQuota : Type 0 where
  pub storage_limit_bytes : Option ℕ
  pub storage_used_bytes : ℕ
  pub file_count : ℕ
  pub file_count_limit : Option ℕ
  pub max_file_size_bytes : ℕ

pub record UploadRequest : Type 0 where
  pub org_id : Uuid
  pub user_id : Uuid
  pub filename : String
  pub mime_type : String
  pub size : ℕ

-- The request of `confirmUpload`, `generateDownloadUrl` and `deleteFile`.
pub record FileRequest : Type 0 where
  pub file_id : Uuid
  pub org_id : Uuid
  pub user_id : Uuid

-- What the activity log and the legal audit are given of a file.
pub record FileEvent : Type 0 where
  pub action : String
  pub org_id : Uuid
  pub actor_id : Option Uuid
  pub file_id : Uuid
  pub filename : String
