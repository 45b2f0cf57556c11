-- ===== src/S3/Create.antt =====
-- `NewS3Driver`, and the driver as the interface `CloudDriver` shows it.
use ponta_drive_api.Base.{Bool, Option, none, some, if◌then◌else◌}
use ponta_drive_api.Base.Text.{Text, text, is_empty, trim_space}
use ponta_drive_api.Service.{Driver, S3Config}
use ponta_drive_api.S3.{Client}
use ponta_drive_api.S3.Objects.{
  some_text, get, get_range, get_metadata, presign_upload, presign_download, list_objects,
}
use ponta_drive_api.S3.Deletes.{delete_object, delete_objects}
use ponta_drive_api.S3.Cors.{get_bucket_cors, put_bucket_cors}
use ponta_drive_api.S3.Multipart.{
  initiate_multipart, upload_part, complete_multipart, abort_multipart,
}

-- What the SDK makes a client from.
pub record ClientConfig : Type 0 where
  pub region : Text
  pub access_key_id : Text
  pub secret_access_key : Text
  pub base_endpoint : Option Text
  pub use_path_style : Bool

unfoldable pub region_or_default : Text → Text
region_or_default region =
    if is_empty (trim_space region) then text "us-east-1" else trim_space region

unfoldable pub client_config : S3Config → ClientConfig
unfolding region_or_default some_text
client_config cfg = record {
  region = region_or_default cfg.region;
  access_key_id = cfg.access_key_id;
  secret_access_key = cfg.secret_access_key;
  base_endpoint = some_text (trim_space cfg.endpoint);
  use_path_style = cfg.use_path_style;
}

unfoldable pub s3_driver : {S : Type 0} → Client S → S3Config → Driver S
s3_driver client cfg = record {
  get_object = get client cfg.bucket;
  delete_object = delete_object client cfg.bucket;
  get_metadata = get_metadata client cfg.bucket;
  presign_upload = presign_upload client cfg.bucket;
  presign_download = presign_download client cfg.bucket;
  initiate_multipart = initiate_multipart client cfg.bucket;
  upload_part = upload_part client cfg.bucket;
  complete_multipart = complete_multipart client cfg.bucket;
  abort_multipart = abort_multipart client cfg.bucket;
  list_objects = list_objects client cfg.bucket;
  delete_objects = delete_objects client cfg.bucket;
  get_range = get_range client cfg.bucket;
  get_bucket_cors = get_bucket_cors client cfg.bucket;
  put_bucket_cors = put_bucket_cors client cfg.bucket;
  public_url = cfg.public_url;
}

abbrev driver_over : {S : Type 0} → S3Config → Option (Client S) → Option (Driver S)
driver_over cfg none = none
driver_over cfg (some client) = some (s3_driver client cfg)

-- `NewS3Driver`; `connect` is `LoadDefaultConfig` with `NewFromConfig`.
unfoldable pub new_s3_driver :
    {S : Type 0} → (ClientConfig → Option (Client S)) → S3Config → Option (Driver S)
unfolding client_config s3_driver
new_s3_driver connect cfg = driver_over cfg (connect (client_config cfg))
