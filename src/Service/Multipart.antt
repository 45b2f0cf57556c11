-- ===== src/Service/Multipart.antt =====
-- The multipart upload: `InitiateMultipartUpload`, `UploadPart`, `CompleteMultipartUpload` and
-- `AbortMultipartUpload`.
use ponta_drive_api.Base.{
  ℕ, Bool, false, not, ◌&&◌, Option, none, some, List, [], ◌∷◌, ◌==◌, if◌then◌else◌,
}
use ponta_drive_api.Base.Int.{ℤ, pos, ltb_ℤ}
use ponta_drive_api.Base.Text.{Text, text, same}
use ponta_drive_api.Models.{
  DriveItem, UploadSession, ObjectMetadata, CompletedPart, type_file, status_ready,
}
use ponta_drive_api.Upload.Chunks.{chunk_size_or_default, total_parts}
use ponta_drive_api.Upload.Parts.{get_uploaded_parts, add_uploaded_part}
use ponta_drive_api.Tree.{positive}
use ponta_drive_api.Service.{
  Driver, Outside, parent_not_found, create_failed, multipart_failed, session_not_saved,
  session_not_found, session_expired, part_failed, part_not_recorded, no_parts, complete_failed,
  Action, pure, raise, ask, perform, or_raise, ◌>>=◌, ◌>>◌, raise_if, attempt, found_item,
  found_session,
}
use ponta_drive_api.Models.{CloudAccount}
use ponta_drive_api.Service.Factory.{get_driver}
use ponta_drive_api.Service.Items.{in_account, new_item}
use ponta_drive_api.Service.Uploads.{extension_of, storage_key, add_storage}

abbrev pub with_session_id : ℕ → Text → UploadSession → Bool
with_session_id user_id session_id u = same u.session_id session_id && u.user_id == user_id

-- What the item takes from the object's metadata, where there are any.
unfoldable pub uploaded_etag : Option ObjectMetadata → Text
uploaded_etag none = []
uploaded_etag (some meta) = meta.etag

unfoldable pub uploaded_size : ℤ → Option ObjectMetadata → ℤ
uploaded_size total none = total
uploaded_size total (some meta) = if ltb_ℤ (pos 0) meta.size then meta.size else total

-- The item of a session whose parts are on the storage.
unfoldable pub uploaded_item : ℕ → UploadSession → Option ObjectMetadata → Text → DriveItem
unfolding extension_of uploaded_etag uploaded_size
uploaded_item user_id session meta uuid =
    record (new_item uuid user_id session.cloud_account_id session.parent_id session.file_name
      type_file status_ready) {
        mime_type = session.mime_type;
        size = uploaded_size session.total_size meta;
        extension = extension_of session.file_name;
        storage_path = session.storage_path;
        etag = uploaded_etag meta;
      }

-- `err != nil || len(parts) == 0`
unfoldable pub some_parts : Option (List CompletedPart) → Option (List CompletedPart)
some_parts none = none
some_parts (some []) = none
some_parts (some (p ∷ ps)) = some (p ∷ ps)

module _ {S : Type 0} (o : Outside S) where
  -- The check of a parent, where one is given: that it exists.
  unfoldable pub check_parent_exists : ℕ → ℕ → Option ℕ → Action S (Unit {0})
  check_parent_exists user_id account_id none = pure tt
  check_parent_exists user_id account_id (some p) = do
    row ← ask (o.items.first (in_account user_id account_id p))
    or_raise (found_item row) parent_not_found
    pure tt

  -- A session that is not saved is aborted on the storage.
  unfoldable pub keep_session :
      Driver S → Text → Text → Option UploadSession → Action S UploadSession
  keep_session driver key upload_id none = do
    perform (driver.abort_multipart key upload_id)
    raise session_not_saved
  keep_session driver key upload_id (some session) = pure session

  -- `InitiateMultipartUpload`
  unfoldable pub initiate_multipart_upload :
      ℕ → ℕ → Option ℕ → Text → ℤ → Text → ℤ → Action S UploadSession
  unfolding check_parent_exists keep_session storage_key chunk_size_or_default total_parts
  initiate_multipart_upload user_id account_id parent_id file_name size mime_type chunk_size = do
    opened ← get_driver o user_id account_id
    check_parent_exists user_id account_id (positive parent_id)
    let chunk = chunk_size_or_default chunk_size
    key_uuid ← perform o.new_uuid
    let key = storage_key user_id key_uuid file_name
    started ← perform ((opened.0).initiate_multipart key mime_type)
    upload_id ← or_raise started multipart_failed
    expires ← ask o.in_a_day
    session_id ← perform o.new_uuid
    created ← perform (
        o.sessions.create (record {
          id = 0;
          session_id = session_id;
          upload_id = upload_id;
          user_id = user_id;
          cloud_account_id = account_id;
          parent_id = parent_id;
          file_name = file_name;
          mime_type = mime_type;
          total_size = size;
          chunk_size = chunk;
          total_parts = total_parts size chunk;
          uploaded_parts = text "[]";
          storage_path = key;
          expires_at = some expires;
        }))
    keep_session (opened.0) key upload_id created

  abbrev pub find_session : ℕ → Text → Action S UploadSession
  find_session user_id session_id = do
    row ← ask (o.sessions.first (with_session_id user_id session_id))
    or_raise (found_session row) session_not_found

  abbrev pub expired : Option ℕ → S → Bool
  expired none s = false
  expired (some t) s = o.is_past t s

  -- `UploadPart`
  unfoldable pub upload_part : ℕ → Text → ℤ → Text → ℤ → Action S (Text × UploadSession)
  upload_part user_id session_id part_number body size = do
    session ← find_session user_id session_id
    late ← ask (expired session.expires_at)
    raise_if late session_expired
    opened ← get_driver o user_id session.cloud_account_id
    sent ←
        perform
          ((opened.0).upload_part session.storage_path session.upload_id part_number body size)
    etag ← or_raise sent part_failed
    session' ←
        or_raise
          (add_uploaded_part o.parts_codec (record { part_number = part_number; etag = etag })
            session)
          part_not_recorded
    saved ← perform (o.sessions.save session')
    raise_if (not saved) session_not_saved
    pure (etag, session')

  -- What follows once the storage has put the object together.
  unfoldable pub record_upload : ℕ → Driver S × CloudAccount → UploadSession → Action S DriveItem
  unfolding uploaded_item add_storage
  record_upload user_id opened session = do
    meta ← perform ((opened.0).get_metadata session.storage_path)
    uuid ← perform o.new_uuid
    created ← perform (o.items.create (uploaded_item user_id session meta uuid))
    item ← or_raise created create_failed
    add_storage o (opened.1) item.size
    perform (o.sessions.delete (λ u. u.id == session.id))
    pure item

  -- `CompleteMultipartUpload`
  unfoldable pub complete_multipart_upload : ℕ → Text → Action S DriveItem
  unfolding record_upload
  complete_multipart_upload user_id session_id = do
    session ← find_session user_id session_id
    opened ← get_driver o user_id session.cloud_account_id
    parts ← or_raise (some_parts (get_uploaded_parts o.parts_codec session)) no_parts
    done ← perform ((opened.0).complete_multipart session.storage_path session.upload_id parts)
    raise_if (not done) complete_failed
    record_upload user_id opened session

  -- The parts on the storage, dropped where the driver is at hand; an error is not returned.
  unfoldable pub abort_on_storage :
      Option (Driver S × CloudAccount) → UploadSession → Action S (Unit {0})
  abort_on_storage none session = pure tt
  abort_on_storage (some (driver, account)) session = do
    perform (driver.abort_multipart session.storage_path session.upload_id)
    pure tt

  -- `AbortMultipartUpload`
  unfoldable pub abort_multipart_upload : ℕ → Text → Action S (Unit {0})
  unfolding abort_on_storage
  abort_multipart_upload user_id session_id = do
    session ← find_session user_id session_id
    opened ← attempt (get_driver o user_id session.cloud_account_id)
    abort_on_storage opened session
    perform (o.sessions.delete (λ u. u.id == session.id))
    pure tt
