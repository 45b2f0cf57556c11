-- ===== src/Api/Uploads.antt =====
-- The handlers of app/http/controllers/upload_controller.go.
use ponta_drive_api.Base.{ℕ, Option, none, some, if◌then◌else◌}
use ponta_drive_api.Base.Int.{ℤ, pos, leb_ℤ}
use ponta_drive_api.Base.Text.{Text, text, is_empty}
use ponta_drive_api.Base.Decimal.{parse_int, half_32}
use ponta_drive_api.Models.{DriveItem}
use ponta_drive_api.Service.{PresignedUrl, State}
use ponta_drive_api.Service.Factory.{ensure_cloud_account_ownership}
use ponta_drive_api.Service.Items.{resolve_drive_item_id}
use ponta_drive_api.Service.Uploads.{initiate_presigned_upload, complete_presigned_upload}
use ponta_drive_api.Service.Multipart.{
  initiate_multipart_upload, upload_part, complete_multipart_upload, abort_multipart_upload,
}
use ponta_drive_api.Web.{
  Response, payload, notice, failed, Form, Handler, pure, or_answer, validated_as, ◌>>=◌, ◌>>◌,
  answer_if,
}
use ponta_drive_api.Auth.{User}
use ponta_drive_api.Api.{
  size_and_mime, ApiWorld, Caller, ItemView, item_view, call, fail_with, signed_in, log_safe,
  on_item,
}

pub record PresignedUploadRequest : Type 0 where
  pub cloud_account_id : ℕ
  pub parent_uuid : Text
  pub file_name : Text
  pub size : ℤ
  pub mime_type : Text

pub record InitMultipartUploadRequest : Type 0 where
  pub cloud_account_id : ℕ
  pub parent_uuid : Text
  pub file_name : Text
  pub size : ℤ
  pub mime_type : Text
  pub chunk_size : ℤ

-- What `UploadPart` reads of a request: the form values and the query values of the session and of
-- the number of the part, the file of the form with its size, and the body with its length.
pub record PartRequest : Type 0 where
  pub session_input : Text
  pub session_query : Text
  pub number_input : Text
  pub number_query : Text
  pub form_file : Option (Text × ℤ)
  pub request_body : Option (Text × ℤ)

-- The data of an answer.
pub data UploadData : Type 0 where
  upload_ticket : PresignedUrl → ItemView → UploadData
  uploaded_item : ItemView → UploadData
  session_data : Text → Text → ℤ → ℤ → Text → UploadData
  part_data : Text → ℤ → Text → UploadData

abbrev pub UploadHandler : Type 0 → Type 0 → Type 0
UploadHandler S A = Handler (State S) UploadData A

-- The form value, or else the query value.
unfoldable pub input_or_query : Text → Text → Text
input_or_query input query = if is_empty input then query else input

-- The file of the form, or else the body, where there is a reader and a positive size.
unfoldable pub sized : Option (Text × ℤ) → Option (Text × ℤ)
sized none = none
sized (some (bytes, size)) = if leb_ℤ size (pos 0) then none else some (bytes, size)

unfoldable pub part_payload : PartRequest → Option (Text × ℤ)
unfolding sized
part_payload r = elim r.form_file [ none ↦ sized r.request_body | some file ↦ sized (some file) ]

-- A number from 1 on that an int32 holds.
unfoldable pub positive_number : Option ℤ → Option ℤ
positive_number none = none
positive_number (some n) = if leb_ℤ n (pos 0) then none else some n

unfoldable pub part_number : PartRequest → Option ℤ
unfolding input_or_query positive_number
part_number r = positive_number (parse_int half_32 (input_or_query r.number_input r.number_query))

module _ {S : Type 0} (w : ApiWorld S) (caller : Caller) where
  abbrev parent_of : ℕ → Text → UploadHandler S (Option ℕ)
  parent_of user_id parent_uuid = if is_empty parent_uuid then pure none else (do
    id ←
        call (resolve_drive_item_id w.outside user_id parent_uuid)
          (fail_with 400 (text "upload.initiate_failed"))
    pure (some id))

  -- `resolveUploadTargets`
  unfoldable pub resolve_upload_targets : ℕ → ℕ → Text → UploadHandler S (ℕ × Option ℕ)
  unfolding fail_with
  resolve_upload_targets user_id account_id parent_uuid = do
    call (ensure_cloud_account_ownership w.outside user_id account_id)
        (fail_with 400 (text "upload.initiate_failed"))
    parent ← parent_of user_id parent_uuid
    pure (account_id, parent)

  -- `finalizeUpload`
  unfoldable pub finalize_upload : User → DriveItem → UploadHandler S (Response UploadData)
  unfolding log_safe on_item item_view
  finalize_upload user item = do
    log_safe w (
        on_item caller user (text "uploaded") item.name item
          (some (size_and_mime item.size item.mime_type)))
    pure (payload 200 (uploaded_item (item_view item)))

  -- `InitiatePresigned`
  unfoldable pub initiate_presigned :
      Form PresignedUploadRequest → UploadHandler S (Response UploadData)
  unfolding signed_in resolve_upload_targets fail_with item_view
  initiate_presigned form = do
    user ← signed_in caller
    req ← validated_as (text "upload.invalid_request") form
    target ← resolve_upload_targets user.id req.cloud_account_id req.parent_uuid
    ticket ←
        call
          (initiate_presigned_upload w.outside user.id (target.0) (target.1) req.file_name req.size
            req.mime_type)
          (fail_with 400 (text "upload.initiate_failed"))
    pure (payload 200 (upload_ticket (ticket.1) (item_view (ticket.0))))

  -- `CompletePresigned`, with the identifier of the item
  unfoldable pub complete_presigned : Form Text → UploadHandler S (Response UploadData)
  unfolding signed_in finalize_upload fail_with
  complete_presigned form = do
    user ← signed_in caller
    item_uuid ← validated_as (text "upload.invalid_request") form
    item ←
        call (complete_presigned_upload w.outside user.id item_uuid)
          (fail_with 400 (text "upload.complete_failed"))
    finalize_upload user item

  -- `InitMultipart`
  unfoldable pub init_multipart :
      Form InitMultipartUploadRequest → UploadHandler S (Response UploadData)
  unfolding signed_in resolve_upload_targets fail_with
  init_multipart form = do
    user ← signed_in caller
    req ← validated_as (text "upload.invalid_request") form
    target ← resolve_upload_targets user.id req.cloud_account_id req.parent_uuid
    session ←
        call
          (initiate_multipart_upload w.outside user.id (target.0) (target.1) req.file_name req.size
            req.mime_type req.chunk_size)
          (fail_with 400 (text "upload.initiate_failed"))
    pure (
        payload 200 (
          session_data session.session_id session.upload_id session.total_parts session.chunk_size
            session.storage_path))

  -- `UploadPart`
  unfoldable pub upload_part_handler : PartRequest → UploadHandler S (Response UploadData)
  unfolding signed_in input_or_query part_number part_payload fail_with
  upload_part_handler r = do
    user ← signed_in caller
    let session_id = input_or_query r.session_input r.session_query
    answer_if (is_empty session_id) (failed 400 (text "upload.session_id_required"))
    number ← or_answer (part_number r) (failed 400 (text "upload.part_number_required"))
    bytes ← or_answer (part_payload r) (failed 400 (text "upload.payload_missing"))
    part ←
        call (upload_part w.outside user.id session_id number (bytes.0) (bytes.1))
          (fail_with 400 (text "upload.part_failed"))
    pure (payload 200 (part_data session_id number (part.0)))

  -- `CompleteMultipart`, with the identifier of the session
  unfoldable pub complete_multipart_handler : Form Text → UploadHandler S (Response UploadData)
  unfolding signed_in finalize_upload fail_with
  complete_multipart_handler form = do
    user ← signed_in caller
    session_id ← validated_as (text "upload.invalid_request") form
    item ←
        call (complete_multipart_upload w.outside user.id session_id)
          (fail_with 400 (text "upload.complete_failed"))
    finalize_upload user item

  -- `AbortMultipart`, with the form value and the query value of the session
  unfoldable pub abort_multipart_handler : Text → Text → UploadHandler S (Response UploadData)
  unfolding signed_in input_or_query fail_with
  abort_multipart_handler session_input session_query = do
    user ← signed_in caller
    let session_id = input_or_query session_input session_query
    answer_if (is_empty session_id) (failed 400 (text "upload.session_id_required"))
    call (abort_multipart_upload w.outside user.id session_id)
        (fail_with 400 (text "upload.abort_failed"))
    pure (notice (text "upload.session_aborted"))
