-- ===== src/Api/Items.antt =====
-- The handlers of app/http/controllers/drive_item_controller.go but for `Index` (Listing) and
-- `Content` (Api/Content).
use ponta_drive_api.Base.{
  ℕ, Bool, false, not, ◌&&◌, Option, none, some, List, [], map, ◌++◌, if◌then◌else◌,
}
use ponta_drive_api.Base.Int.{ℤ, pos, ltb_ℤ}
use ponta_drive_api.Base.Text.{Text, text, same, is_empty}
use ponta_drive_api.Base.Decimal.{format_int}
use ponta_drive_api.Models.{DriveItem}
use ponta_drive_api.Preview.{PreviewStrategy, Reason}
use ponta_drive_api.Service.{Error, Outcome, ok, err, State}
use ponta_drive_api.Service.Items.{
  resolve_drive_item_id, get_item_by_uuid, create_folder, get_breadcrumb, update_item, toggle_star,
}
use ponta_drive_api.Service.Factory.{ensure_cloud_account_ownership}
use ponta_drive_api.Service.Deletion.{delete_item}
use ponta_drive_api.Service.Uploads.{presign_time}
use ponta_drive_api.Service.Downloads.{get_presigned_download_url, get_item_stream, resolve_preview}
use ponta_drive_api.Web.{
  Response, payload, notice, failed, Form, go, Handler, pure, validated_as, ◌>>=◌, ◌>>◌, answer_if,
}
use ponta_drive_api.Auth.{User}
use ponta_drive_api.Api.{
  permanent_flag, ApiWorld, Caller, ItemView, item_view, call, fail_with, signed_in, log_safe,
  on_item,
}

-- The headers of a stream, but for `Accept-Ranges`, which `Content` always sends.
pub record StreamHeaders : Type 0 where
  pub content_type : Text
  pub content_disposition : Text
  pub content_length : Option Text
  pub content_range : Option Text

-- The data of an answer. A redirect has the status 302.
pub data ItemData : Type 0 where
  one_item : ItemView → ItemData
  chain : List ItemView → ItemData
  download_link : Text → ItemView → ItemData
  redirect : Text → ItemData
  preview_data : PreviewStrategy → Text → Text → ItemView → Reason → ItemData
  stream : StreamHeaders → Text → ItemData

pub record CreateFolderRequest : Type 0 where
  pub cloud_account_id : ℕ
  pub parent_uuid : Text
  pub name : Text

pub record UpdateDriveItemRequest : Type 0 where
  pub name : Text
  pub parent_uuid : Option Text

-- `hasPrevious` is whether there is a previous name.
unfoldable pub should_log_rename : Option Text → Text → Bool
should_log_rename none new_name = false
should_log_rename (some previous_name) new_name =
    not (is_empty new_name) && not (same new_name previous_name)

unfoldable pub mime_or_default : Text → Text
mime_or_default mime_type =
    if is_empty mime_type then text "application/octet-stream" else mime_type

-- `if item.Size > 0`
unfoldable pub length_header : ℤ → Option Text
length_header size = if ltb_ℤ (pos 0) size then some (format_int size) else none

unfoldable pub attachment_headers : DriveItem → StreamHeaders
unfolding mime_or_default length_header
attachment_headers item = record {
  content_type = mime_or_default item.mime_type;
  content_disposition = text "attachment; filename=\"" ++ item.name ++ text "\"";
  content_length = length_header item.size;
  content_range = none;
}

abbrev pub ItemHandler : Type 0 → Type 0 → Type 0
ItemHandler S A = Handler (State S) ItemData A

module _ {S : Type 0} (w : ApiWorld S) (caller : Caller) where
  -- `resolveUserAndItemUUID`
  unfoldable pub resolve_user : Text → ItemHandler S User
  unfolding signed_in
  resolve_user item_uuid = do
    user ← signed_in caller
    answer_if (is_empty item_uuid) (failed 400 (text "common.uuid_required"))
    pure user

  -- The id of the parent folder, where one is named.
  abbrev pub named_parent : ℕ → Text → (Error → Response ItemData) → ItemHandler S (Option ℕ)
  named_parent user_id parent_uuid on_error = if is_empty parent_uuid then pure none else (do
    id ← call (resolve_drive_item_id w.outside user_id parent_uuid) on_error
    pure (some id))

  -- `resolveFolderTargets`
  unfoldable pub resolve_folder_targets : ℕ → ℕ → Text → ItemHandler S (ℕ × Option ℕ)
  unfolding fail_with
  resolve_folder_targets user_id account_id parent_uuid = do
    call (ensure_cloud_account_ownership w.outside user_id account_id)
        (fail_with 400 (text "drive.create_failed"))
    parent ← named_parent user_id parent_uuid (fail_with 400 (text "drive.create_failed"))
    pure (account_id, parent)

  -- `StoreFolder`
  unfoldable pub store_folder : Form CreateFolderRequest → ItemHandler S (Response ItemData)
  unfolding signed_in resolve_folder_targets fail_with log_safe on_item item_view
  store_folder form = do
    user ← signed_in caller
    req ← validated_as (text "drive.invalid_request") form
    target ← resolve_folder_targets user.id req.cloud_account_id req.parent_uuid
    folder ←
        call (create_folder w.outside user.id (target.0) (target.1) req.name)
          (fail_with 400 (text "drive.create_failed"))
    log_safe w (on_item caller user (text "created_folder") folder.name folder none)
    pure (payload 201 (one_item (item_view folder)))

  -- `Show`
  unfoldable pub show : Text → ItemHandler S (Response ItemData)
  unfolding resolve_user fail_with item_view
  show item_uuid = do
    user ← resolve_user item_uuid
    item ←
        call (get_item_by_uuid w.outside user.id item_uuid)
          (fail_with 404 (text "drive.item_not_found"))
    pure (payload 200 (one_item (item_view item)))

  -- `Breadcrumb`
  unfoldable pub breadcrumb_handler : Text → ItemHandler S (Response ItemData)
  unfolding resolve_user fail_with item_view
  breadcrumb_handler item_uuid = do
    user ← resolve_user item_uuid
    items ←
        call (get_breadcrumb w.outside user.id item_uuid)
          (fail_with 404 (text "drive.item_not_found"))
    pure (payload 200 (chain (map item_view items)))

  -- The parent that a request for an update names: none, the root, or a folder.
  abbrev new_parent : ℕ → Option Text → ItemHandler S (Option ℕ)
  new_parent user_id none = pure none
  new_parent user_id (some parent_uuid) =
      if is_empty parent_uuid
      then pure (some 0)
      else named_parent user_id parent_uuid (fail_with 400 (text "drive.update_failed"))

  -- A lookup whose error does not matter.
  abbrev looked_up : Outcome DriveItem → Option DriveItem
  looked_up (ok item) = some item
  looked_up (err e) = none

  unfoldable pub look_up : ℕ → Text → ItemHandler S (Option DriveItem)
  look_up user_id item_uuid s =
      let (r, s') = get_item_by_uuid w.outside user_id item_uuid s in (go (looked_up r), s')

  abbrev previous_name : Option DriveItem → Option Text
  previous_name none = none
  previous_name (some item) = some item.name

  abbrev or_empty : Option Text → Text
  or_empty none = []
  or_empty (some t) = t

  unfoldable pub log_rename : User → Option Text → Text → DriveItem → ItemHandler S (Unit {0})
  unfolding should_log_rename log_safe on_item
  log_rename user previous name item =
      if should_log_rename previous name
      then log_safe w (
          on_item caller user (text "renamed") (or_empty previous ++ text " -> " ++ name) item none)
      else pure tt

  -- `Update`; `input_name` is the name that the request has outside its form.
  unfoldable pub update :
      Text → Form UpdateDriveItemRequest → Text → ItemHandler S (Response ItemData)
  unfolding resolve_user look_up log_rename fail_with item_view
  update item_uuid form input_name = do
    user ← resolve_user item_uuid
    req ← validated_as (text "drive.invalid_request") form
    let name = if is_empty req.name then input_name else req.name
    parent ← new_parent user.id req.parent_uuid
    existing ← look_up user.id item_uuid
    item ←
        call (update_item w.outside user.id item_uuid name parent)
          (fail_with 400 (text "drive.update_failed"))
    log_rename user (previous_name existing) name item
    pure (payload 200 (one_item (item_view item)))

  -- `Star`
  unfoldable pub star : Text → ItemHandler S (Response ItemData)
  unfolding resolve_user fail_with item_view
  star item_uuid = do
    user ← resolve_user item_uuid
    item ← call (toggle_star w.outside user.id item_uuid) (fail_with 400 (text "drive.star_failed"))
    pure (payload 200 (one_item (item_view item)))

  unfoldable pub log_deletion : User → Bool → Option DriveItem → ItemHandler S (Unit {0})
  unfolding log_safe on_item
  log_deletion user permanent none = pure tt
  log_deletion user permanent (some item) = log_safe w (
      on_item caller user (if permanent then text "permanently_deleted" else text "deleted")
        item.name item (some (permanent_flag permanent)))

  -- `Destroy`, with the fuel of `DeleteItem`
  unfoldable pub destroy : ℕ → Text → Bool → ItemHandler S (Response ItemData)
  unfolding resolve_user look_up log_deletion fail_with
  destroy fuel item_uuid permanent = do
    user ← resolve_user item_uuid
    item ← look_up user.id item_uuid
    call (delete_item w.outside fuel user.id item_uuid permanent)
        (fail_with 400 (text "drive.delete_failed"))
    log_deletion user permanent item
    pure (notice (text "drive.item_deleted"))

  unfoldable pub stream_file : User → Text → ItemHandler S (Response ItemData)
  unfolding attachment_headers fail_with
  stream_file user item_uuid = do
    file ←
        call (get_item_stream w.outside user.id item_uuid)
          (fail_with 400 (text "drive.download_failed"))
    pure (payload 200 (stream (attachment_headers (file.1)) (file.0)))

  unfoldable pub link_to_file : Text → User → Text → ItemHandler S (Response ItemData)
  unfolding fail_with item_view
  link_to_file mode user item_uuid = do
    file ←
        call (get_presigned_download_url w.outside user.id item_uuid presign_time)
          (fail_with 400 (text "drive.download_failed"))
    if same mode (text "json")
        then pure (payload 200 (download_link (file.0) (item_view (file.1))))
        else pure (payload 302 (redirect (file.0)))

  -- `Download`; the mode is `redirect` where the request gives none.
  unfoldable pub download : Text → Text → ItemHandler S (Response ItemData)
  unfolding resolve_user stream_file link_to_file
  download item_uuid mode = do
    user ← resolve_user item_uuid
    if same mode (text "stream")
        then stream_file user item_uuid
        else link_to_file mode user item_uuid

  -- `Preview`
  unfoldable pub preview : Text → ItemHandler S (Response ItemData)
  unfolding resolve_user fail_with item_view
  preview item_uuid = do
    user ← resolve_user item_uuid
    r ←
        call (resolve_preview w.outside user.id item_uuid)
          (fail_with 400 (text "drive.preview_failed"))
    pure (payload 200 (preview_data r.strategy r.url r.download_url (item_view r.item) r.reason))
