-- ===== src/Service/Calls.antt =====
-- The methods of `CloudDriveService` as calls, and what a sequence of calls of any users does to the
-- state. `DeleteItem` and `ScanBucket` carry the fuel of their loops. A call runs to its end before
-- the next one starts.
use ponta_drive_api.Base.{ℕ, Bool, Option, List, [], ◌∷◌}
use ponta_drive_api.Base.Int.{ℤ}
use ponta_drive_api.Base.Text.{Text}
use ponta_drive_api.Service.{Outside, State}
use ponta_drive_api.Service.Items
use ponta_drive_api.Service.Deletion
use ponta_drive_api.Service.Uploads
use ponta_drive_api.Service.Multipart
use ponta_drive_api.Service.Downloads
use ponta_drive_api.Service.Scan

pub data Call : Type 0 where
  create_folder : ℕ → Option ℕ → Text → Call
  get_breadcrumb : Text → Call
  get_item_by_uuid : Text → Call
  update_item : Text → Text → Option ℕ → Call
  toggle_star : Text → Call
  delete_item : ℕ → Text → Bool → Call
  initiate_presigned_upload : ℕ → Option ℕ → Text → ℤ → Text → Call
  complete_presigned_upload : Text → Call
  initiate_multipart_upload : ℕ → Option ℕ → Text → ℤ → Text → ℤ → Call
  upload_part : Text → ℤ → Text → ℤ → Call
  complete_multipart_upload : Text → Call
  abort_multipart_upload : Text → Call
  get_presigned_download_url : Text → ℕ → Call
  get_item_stream : Text → Call
  get_item_range : Text → ℤ → ℤ → Call
  resolve_preview : Text → Call
  scan_bucket : ℕ → ℕ → Option ℕ → Call

module _ {S : Type 0} (o : Outside S) where
  -- The state after a call of a user.
  unfoldable pub after : ℕ → Call → State S → State S
  after u (create_folder account parent name) s = (Items.create_folder o u account parent name s).1
  after u (get_breadcrumb uuid) s = (Items.get_breadcrumb o u uuid s).1
  after u (get_item_by_uuid uuid) s = (Items.get_item_by_uuid o u uuid s).1
  after u (update_item uuid name parent) s = (Items.update_item o u uuid name parent s).1
  after u (toggle_star uuid) s = (Items.toggle_star o u uuid s).1
  after u (delete_item fuel uuid permanent) s = (Deletion.delete_item o fuel u uuid permanent s).1
  after u (initiate_presigned_upload account parent name size mime) s =
      (Uploads.initiate_presigned_upload o u account parent name size mime s).1
  after u (complete_presigned_upload uuid) s = (Uploads.complete_presigned_upload o u uuid s).1
  after u (initiate_multipart_upload account parent name size mime chunk) s =
      (Multipart.initiate_multipart_upload o u account parent name size mime chunk s).1
  after u (upload_part id number body size) s = (Multipart.upload_part o u id number body size s).1
  after u (complete_multipart_upload id) s = (Multipart.complete_multipart_upload o u id s).1
  after u (abort_multipart_upload id) s = (Multipart.abort_multipart_upload o u id s).1
  after u (get_presigned_download_url uuid expire) s =
      (Downloads.get_presigned_download_url o u uuid expire s).1
  after u (get_item_stream uuid) s = (Downloads.get_item_stream o u uuid s).1
  after u (get_item_range uuid offset size) s = (Downloads.get_item_range o u uuid offset size s).1
  after u (resolve_preview uuid) s = (Downloads.resolve_preview o u uuid s).1
  after u (scan_bucket account fuel parent) s = (Scan.scan_bucket o u account fuel parent s).1

  -- The state after calls of users, one after another.
  unfoldable pub after_all : List (ℕ × Call) → State S → State S
  unfolding after
  after_all [] s = s
  after_all ((u, call) ∷ calls) s = after_all calls (after u call s)
