-- ===== src/Models.antt =====
-- The models of app/models and the data of app/contracts/storage.go.
--
-- A `uint` is a number, an `int64` an integer, and a `*uint`, which may be nil, an `Option`. A
-- timestamp is its instant in seconds, the granularity of the columns, and `none` where it is NULL.
-- The column `deleted_at` belongs to the ORM: a row that it marks is not among the live rows.
use ponta_drive_api.Base.{ℕ, Bool, Option, List}
use ponta_drive_api.Base.Int.{ℤ}
use ponta_drive_api.Base.Text.{Text, text, same}

-- app/models/drive_item.go
abbrev pub type_folder : Text
type_folder = text "folder"

abbrev pub type_file : Text
type_file = text "file"

abbrev pub status_ready : Text
status_ready = text "ready"

abbrev pub status_uploading : Text
status_uploading = text "uploading"

abbrev pub status_failed : Text
status_failed = text "failed"

pub record DriveItem : Type 0 where
  pub id : ℕ
  pub created_at : Option ℕ
  pub updated_at : Option ℕ
  pub uuid : Text
  pub user_id : ℕ
  pub cloud_account_id : ℕ
  pub parent_id : Option ℕ
  pub name : Text
  pub item_type : Text
  pub mime_type : Text
  pub size : ℤ
  pub extension : Text
  pub storage_path : Text
  pub etag : Text
  pub is_starred : Bool
  pub status : Text

abbrev pub is_folder : DriveItem → Bool
is_folder d = same d.item_type type_folder

abbrev pub is_file : DriveItem → Bool
is_file d = same d.item_type type_file

-- app/models/cloud_account.go
abbrev pub provider_s3 : Text
provider_s3 = text "s3"

abbrev pub provider_cloudflare_r2 : Text
provider_cloudflare_r2 = text "cloudflare_r2"

abbrev pub provider_minio : Text
provider_minio = text "minio"

abbrev pub provider_google_drive : Text
provider_google_drive = text "google_drive"

abbrev pub provider_onedrive : Text
provider_onedrive = text "onedrive"

pub record S3Credentials : Type 0 where
  pub endpoint : Text
  pub bucket : Text
  pub region : Text
  pub access_key_id : Text
  pub secret_access_key : Text
  pub use_path_style : Bool
  pub public_url : Text

pub record CloudAccount : Type 0 where
  pub id : ℕ
  pub user_id : ℕ
  pub name : Text
  pub provider : Text
  pub credentials : Text
  pub is_default : Bool
  pub is_active : Bool
  pub sync_status : Text
  pub last_synced_at : Option ℕ
  pub total_storage : ℤ
  pub used_storage : ℤ
  pub uuid : Text

-- app/contracts/storage.go
pub record CompletedPart : Type 0 where
  pub part_number : ℤ
  pub etag : Text

pub record ObjectMetadata : Type 0 where
  pub key : Text
  pub size : ℤ
  pub mime_type : Text
  pub etag : Text
  pub last_modified : Option ℕ

pub record ListObjectsResult : Type 0 where
  pub objects : List ObjectMetadata
  pub common_prefixes : List Text
  pub next_continuation : Text
  pub is_truncated : Bool

-- app/models/upload_session.go
pub record UploadSession : Type 0 where
  pub id : ℕ
  pub session_id : Text
  pub upload_id : Text
  pub user_id : ℕ
  pub cloud_account_id : ℕ
  pub parent_id : Option ℕ
  pub file_name : Text
  pub mime_type : Text
  pub total_size : ℤ
  pub chunk_size : ℤ
  pub total_parts : ℤ
  pub uploaded_parts : Text
  pub storage_path : Text
  pub expires_at : Option ℕ
