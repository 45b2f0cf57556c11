-- ===== src/Api/Guard.antt =====
-- The guard of the handlers of the controllers for items, uploads and accounts.
use ponta_drive_api.Base.{◌≡◌, refl, ℕ, Bool, none}
use ponta_drive_api.Base.Text.{Text, text}
use ponta_drive_api.Service.{State, found}
use ponta_drive_api.Web.{Response, failed, Form, ended}
use ponta_drive_api.Auth.{User}
use ponta_drive_api.Api.{ApiWorld, Caller, signed_in}
use ponta_drive_api.Api.Items.{
  CreateFolderRequest, UpdateDriveItemRequest, resolve_user, store_folder, show, breadcrumb_handler,
  update, star, destroy, download, preview,
}
use ponta_drive_api.Api.Content.{content}
use ponta_drive_api.Listing.{Server}
use ponta_drive_api.Listing.Query.{CursorCodec}
use ponta_drive_api.Api.Listing.{IndexQuery, index}
use ponta_drive_api.Api.Uploads.{
  PresignedUploadRequest, InitMultipartUploadRequest, PartRequest, initiate_presigned,
  complete_presigned, init_multipart, upload_part_handler, complete_multipart_handler,
  abort_multipart_handler,
}

-- The answer 401, and nothing written.
abbrev pub Refused : {S D : Type 0} → Response D × State S → State S → Type 0
Refused run s = run ≡ (failed 401 (text "common.unauthorized"), s)

module _ {S : Type 0} (w : ApiWorld S) (caller : Caller) (s : State S)
    (nobody : found (λ (u : User). u.id) caller.user ≡ none) where
  -- Without a user in the context, or with one whose id is 0, every handler for items answers 401
  -- and writes nothing, whatever the request is.
  pub item_handlers_refuse :
      (form : Form CreateFolderRequest) (change : Form UpdateDriveItemRequest)
      (item_uuid name mode range : Text) (fuel : ℕ) (permanent : Bool) (server : Server)
      (codec : CursorCodec) (q : IndexQuery)
      → Refused (ended (index w.outside server codec caller q s)) s
        × Refused (ended (store_folder w caller form s)) s
        × Refused (ended (show w caller item_uuid s)) s
        × Refused (ended (breadcrumb_handler w caller item_uuid s)) s
        × Refused (ended (update w caller item_uuid change name s)) s
        × Refused (ended (star w caller item_uuid s)) s
        × Refused (ended (destroy w caller fuel item_uuid permanent s)) s
        × Refused (ended (download w caller item_uuid mode s)) s
        × Refused (ended (preview w caller item_uuid s)) s
        × Refused (content w caller item_uuid range s) s
  unfolding index store_folder show breadcrumb_handler update star destroy download preview content
      resolve_user signed_in
  item_handlers_refuse form change item_uuid name mode range fuel permanent server codec q = (
    rw nobody refl,
    rw nobody refl,
    rw nobody refl,
    rw nobody refl,
    rw nobody refl,
    rw nobody refl,
    rw nobody refl,
    rw nobody refl,
    rw nobody refl,
    rw nobody refl,
  )

  -- Without a user in the context, or with one whose id is 0, every handler for uploads answers 401
  -- and writes nothing, whatever the request is.
  pub upload_handlers_refuse :
      (form : Form PresignedUploadRequest) (init : Form InitMultipartUploadRequest)
      (named : Form Text) (part : PartRequest) (session_input session_query : Text)
      → Refused (ended (initiate_presigned w caller form s)) s
        × Refused (ended (complete_presigned w caller named s)) s
        × Refused (ended (init_multipart w caller init s)) s
        × Refused (ended (upload_part_handler w caller part s)) s
        × Refused (ended (complete_multipart_handler w caller named s)) s
        × Refused (ended (abort_multipart_handler w caller session_input session_query s)) s
  unfolding initiate_presigned complete_presigned init_multipart upload_part_handler
      complete_multipart_handler abort_multipart_handler signed_in
  upload_handlers_refuse form init named part session_input session_query = (
    rw nobody refl,
    rw nobody refl,
    rw nobody refl,
    rw nobody refl,
    rw nobody refl,
    rw nobody refl,
  )
