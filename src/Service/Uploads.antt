-- ===== src/Service/Uploads.antt =====
-- The single upload: `InitiatePresignedUpload` and `CompletePresignedUpload`.
use ponta_drive_api.Base.{ℕ, ◌*◌, not, Option, none, some, ◌++◌, ◌==◌, if◌then◌else◌}
use ponta_drive_api.Base.Int.{ℤ, pos, ◌+₆₄◌, ltb_ℤ}
use ponta_drive_api.Base.Text.{Text, text, is_empty, trim_prefix, file_ext}
use ponta_drive_api.Base.Decimal.{format_nat}
use ponta_drive_api.Models.{
  DriveItem, CloudAccount, ObjectMetadata, is_folder, type_file, status_ready, status_uploading,
  status_failed,
}
use ponta_drive_api.Tree.{positive}
use ponta_drive_api.Service.{
  PresignedUrl, Outside, parent_not_folder, create_failed, presign_failed, object_missing,
  finalize_failed, Action, pure, raise, ask, perform, or_raise, ◌>>=◌, ◌>>◌, raise_if, found_item,
}
use ponta_drive_api.Service.Factory.{get_driver}
use ponta_drive_api.Service.Items.{in_account, new_item, get_item_by_uuid, save_item}

-- `strings.TrimPrefix(filepath.Ext(fileName), ".")`
unfoldable pub extension_of : Text → Text
extension_of file_name = trim_prefix (file_ext file_name) (text ".")

-- `users/%d/items/%s-%s`
unfoldable pub storage_key : ℕ → Text → Text → Text
storage_key user_id uuid file_name =
    text "users/" ++ format_nat user_id ++ text "/items/" ++ uuid ++ text "-" ++ file_name

-- 15 minutes, in seconds
abbrev pub presign_time : ℕ
presign_time = 15 * 60

-- The item that takes what the storage says of the object.
unfoldable pub finalized : ObjectMetadata → DriveItem → DriveItem
finalized meta item = record item {
  status = status_ready;
  etag = meta.etag;
  size = if ltb_ℤ (pos 0) meta.size then meta.size else item.size;
  mime_type = if is_empty meta.mime_type then item.mime_type else meta.mime_type;
}

module _ {S : Type 0} (o : Outside S) where
  -- The check of a parent, where one is given; the parent is a folder.
  unfoldable pub check_upload_parent : ℕ → ℕ → Option ℕ → Action S (Unit {0})
  check_upload_parent user_id account_id none = pure tt
  check_upload_parent user_id account_id (some p) = do
    row ← ask (o.items.first (in_account user_id account_id p))
    parent ← or_raise (found_item row) parent_not_folder
    raise_if (not (is_folder parent)) parent_not_folder

  -- Without a URL the new row is deleted again.
  unfoldable pub keep_presigned :
      DriveItem → Option PresignedUrl → Action S (DriveItem × PresignedUrl)
  keep_presigned item none = do
    perform (o.items.force_delete (λ i. i.id == item.id))
    raise presign_failed
  keep_presigned item (some url) = pure (item, url)

  -- `InitiatePresignedUpload`
  unfoldable pub initiate_presigned_upload :
      ℕ → ℕ → Option ℕ → Text → ℤ → Text → Action S (DriveItem × PresignedUrl)
  unfolding check_upload_parent keep_presigned storage_key extension_of
  initiate_presigned_upload user_id account_id parent_id file_name size mime_type = do
    opened ← get_driver o user_id account_id
    check_upload_parent user_id account_id (positive parent_id)
    key_uuid ← perform o.new_uuid
    uuid ← perform o.new_uuid
    let key = storage_key user_id key_uuid file_name
    created ← perform (
        o.items.create
          (record (new_item uuid user_id account_id parent_id file_name type_file
            status_uploading) {
              mime_type = mime_type;
              size = size;
              extension = extension_of file_name;
              storage_path = key;
            }))
    item ← or_raise created create_failed
    url ← perform ((opened.0).presign_upload key mime_type presign_time)
    keep_presigned item url

  -- The account's counter grows by a size above 0; an error is not returned.
  unfoldable pub add_storage : CloudAccount → ℤ → Action S (Unit {0})
  add_storage account size =
      if ltb_ℤ (pos 0) size
      then (do
        perform (o.accounts.save (record account { used_storage = account.used_storage +₆₄ size }))
        pure tt)
      else pure tt

  -- What follows the look at the object's metadata.
  unfoldable pub finish_upload :
      CloudAccount → DriveItem → Option ObjectMetadata → Action S DriveItem
  unfolding save_item finalized add_storage
  finish_upload account item none = do
    perform (o.items.save (record item { status = status_failed }))
    raise object_missing
  finish_upload account item (some meta) = do
    ready ← save_item o (finalized meta item) finalize_failed
    add_storage account ready.size
    pure ready

  -- `CompletePresignedUpload`
  unfoldable pub complete_presigned_upload : ℕ → Text → Action S DriveItem
  unfolding get_item_by_uuid finish_upload
  complete_presigned_upload user_id item_uuid = do
    item ← get_item_by_uuid o user_id item_uuid
    opened ← get_driver o user_id item.cloud_account_id
    meta ← perform ((opened.0).get_metadata item.storage_path)
    finish_upload opened.1 item meta
