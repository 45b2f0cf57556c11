-- ===== src/Service/Isolation/Multipart.antt =====
-- The multipart upload leaves the rows of the other users alone.
use ponta_drive_api.Base.{ℕ, ◌≡◌, refl, not, Option, none, some, ◌==◌}
use ponta_drive_api.Base.Int.{ℤ}
use ponta_drive_api.Base.Text.{Text, text}
use ponta_drive_api.Models.{CloudAccount, UploadSession, CompletedPart, ObjectMetadata}
use ponta_drive_api.Tree.{positive}
use ponta_drive_api.Upload.Chunks.{chunk_size_or_default, total_parts}
use ponta_drive_api.Upload.Parts.{get_uploaded_parts, add_uploaded_part}
use ponta_drive_api.Service.{
  Driver, State, or_raise, raise_if, attempt, found_item, found_session, parent_not_found,
  multipart_failed, session_not_saved, session_not_found, session_expired, part_failed,
  part_not_recorded, no_parts, complete_failed, create_failed,
}
use ponta_drive_api.Service.Post.{
  Post, returns, raises, Post-or_raise, Post-raise_if, Post-then, Post-attempt, Where,
}
use ponta_drive_api.Service.Factory.{get_driver}
use ponta_drive_api.Service.Items.{in_account}
use ponta_drive_api.Service.Uploads.{storage_key, add_storage}
use ponta_drive_api.Service.Multipart.{
  with_session_id, uploaded_item, some_parts, check_parent_exists, keep_session,
  initiate_multipart_upload, expired, upload_part, record_upload, complete_multipart_upload,
  abort_on_storage, abort_multipart_upload,
}
use ponta_drive_api.Service.Isolation.{Tenant, Clear, Isolated, Mine, unmoved}
use ponta_drive_api.Service.Isolation.Drivers.{get_driver-Isolated}
use ponta_drive_api.Service.Isolation.Items.{create-Isolated, with_new_uuid}
use ponta_drive_api.Service.Isolation.Uploads.{add_storage-Isolated}

module _ {S : Type 0} (w : Tenant S) where
  open w use {o, view, apart, user_id, others}

  check_parent_exists-Isolated :
      (account_id : ℕ) (parent : Option ℕ) (s : State S)
      → Isolated w s
      → Post (Isolated w) (λ _. Unit {0}) (check_parent_exists o user_id account_id parent s)
  unfolding check_parent_exists
  check_parent_exists-Isolated account_id none s p = returns tt s p tt
  check_parent_exists-Isolated account_id (some n) s p =
      let row = found_item (o.items.first (in_account user_id account_id n) s.outside) in
      Post-then (Isolated w) (or_raise row parent_not_found s)
        (Post-or_raise (Isolated w) row parent_not_found s p) λ parent p _. returns tt _ p tt

  keep_session-Isolated :
      (driver : Driver S) (key upload_id : Text) (created : Option UploadSession) (s : State S)
      → Clear view driver
      → Isolated w s
      → Post (Isolated w) (λ _. Unit {0}) (keep_session o driver key upload_id created s)
  unfolding keep_session
  keep_session-Isolated driver key upload_id none s clear p =
      raises _ _ (unmoved w s _ p (clear.abort_multipart key upload_id s.outside))
  keep_session-Isolated driver key upload_id (some session) s clear p = returns session s p tt

  pub initiate_multipart_upload-Isolated :
      (account_id : ℕ) (parent : Option ℕ) (file_name : Text) (size : ℤ) (mime_type : Text)
      (chunk_size : ℤ) (s : State S)
      → Isolated w s
      → Post
          (Isolated w)
          (λ _. Unit {0})
          (initiate_multipart_upload o user_id account_id parent file_name size mime_type chunk_size
            s)
  unfolding initiate_multipart_upload
  initiate_multipart_upload-Isolated account_id parent file_name size mime_type chunk_size s p =
      let opening = get_driver o user_id account_id s in
      Post-then (Isolated w) opening (get_driver-Isolated w account_id s p) λ opened p clear.
        let checked = check_parent_exists o user_id account_id (positive parent) opening.1 in
        Post-then (Isolated w) checked
          (check_parent_exists-Isolated account_id (positive parent) opening.1 p)
          λ _ p _.
            let key_drawn = o.new_uuid checked.1.outside in
            let key = storage_key user_id key_drawn.0 file_name in
            let s1 = record checked.1 { outside = key_drawn.1 } in
            let started = (opened.0).initiate_multipart key mime_type s1.outside in
            let s2 = record s1 { outside = started.1 } in
            let p2 =
              unmoved w s1 started.1 (with_new_uuid w checked.1 p)
                (clear.initiate_multipart key mime_type s1.outside) in
            let begun = or_raise started.0 multipart_failed s2 in
            Post-then (Isolated w) begun
              (Post-or_raise (Isolated w) started.0 multipart_failed s2 p2)
              λ upload_id p _.
                let drawn = o.new_uuid begun.1.outside in
                let s3 = record begun.1 { outside = drawn.1 } in
                let chunk = chunk_size_or_default chunk_size in
                let session : UploadSession = record {
                  id = 0;
                  session_id = drawn.0;
                  upload_id = upload_id;
                  user_id = user_id;
                  cloud_account_id = account_id;
                  parent_id = parent;
                  file_name = file_name;
                  mime_type = mime_type;
                  total_size = size;
                  chunk_size = chunk;
                  total_parts = total_parts size chunk;
                  uploaded_parts = text "[]";
                  storage_path = key;
                  expires_at = some (o.in_a_day begun.1.outside);
                } in
                let created = o.sessions.create session s3.outside in
                keep_session-Isolated opened.0 key upload_id created.0
                  (record s3 { outside = created.1 }) clear
                  (unmoved w s3 created.1 (with_new_uuid w begun.1 p)
                    (apart.create_session session s3.outside))

  pub upload_part-Isolated :
      (session_id : Text) (part_number : ℤ) (body : Text) (size : ℤ) (s : State S)
      → Isolated w s
      → Post (Isolated w) (λ _. Unit {0}) (upload_part o user_id session_id part_number body size s)
  unfolding upload_part
  upload_part-Isolated session_id part_number body size s p =
      let row = found_session (o.sessions.first (with_session_id user_id session_id) s.outside) in
      let there = or_raise row session_not_found s in
      Post-then (Isolated w) there (Post-or_raise (Isolated w) row session_not_found s p)
        λ session p _.
          let late = expired o session.expires_at there.1.outside in
          let timely = raise_if late session_expired there.1 in
          Post-then (Isolated w) timely (Post-raise_if (Isolated w) late session_expired there.1 p)
            λ _ p _.
              let opening = get_driver o user_id session.cloud_account_id timely.1 in
              Post-then (Isolated w) opening
                (get_driver-Isolated w session.cloud_account_id timely.1 p)
                λ opened p clear.
                  let sent =
                    (opened.0).upload_part session.storage_path session.upload_id part_number body
                      size opening.1.outside in
                  let s1 = record opening.1 { outside = sent.1 } in
                  let p1 = unmoved w opening.1 sent.1 p (
                    clear.upload_part session.storage_path session.upload_id part_number body size
                      opening.1.outside) in
                  let tagged = or_raise sent.0 part_failed s1 in
                  Post-then (Isolated w) tagged
                    (Post-or_raise (Isolated w) sent.0 part_failed s1 p1)
                    λ etag p _.
                      let part : CompletedPart = record {
                        part_number = part_number;
                        etag = etag;
                      } in
                      let added = add_uploaded_part o.parts_codec part session in
                      let noted = or_raise added part_not_recorded tagged.1 in
                      Post-then (Isolated w) noted
                        (Post-or_raise (Isolated w) added part_not_recorded tagged.1 p)
                        λ session' p _.
                          let saved = o.sessions.save session' noted.1.outside in
                          let s2 = record noted.1 { outside = saved.1 } in
                          let p2 =
                            unmoved w noted.1 saved.1 p
                              (apart.save_session session' noted.1.outside) in
                          Post-then (Isolated w) (raise_if (not saved.0) session_not_saved s2)
                            (Post-raise_if (Isolated w) (not saved.0) session_not_saved s2 p2)
                            λ _ p _. returns (etag, session') _ p tt

  uploaded_item-own :
      (session : UploadSession) (meta : Option ObjectMetadata) (uuid : Text)
      → (uploaded_item user_id session meta uuid).user_id ≡ user_id
  unfolding uploaded_item
  uploaded_item-own session meta uuid = refl

  record_upload-Isolated :
      (opened : Driver S × CloudAccount) (session : UploadSession) (s : State S)
      → Clear view opened.0
      → Isolated w s
      → Post (Isolated w) (Mine w) (record_upload o user_id opened session s)
  unfolding record_upload
  record_upload-Isolated opened session s clear p =
      let looked = (opened.0).get_metadata session.storage_path s.outside in
      let s1 = record s { outside = looked.1 } in
      let p1 = unmoved w s looked.1 p (clear.get_metadata session.storage_path s.outside) in
      let drawn = o.new_uuid looked.1 in
      let s2 = record s1 { outside = drawn.1 } in
      let x = uploaded_item user_id session looked.0 drawn.0 in
      let made = o.items.create x drawn.1 in
      let created = or_raise made.0 create_failed (record s2 { outside = made.1 }) in
      Post-then (Isolated w) created
        (create-Isolated w x create_failed s2 (uploaded_item-own session looked.0 drawn.0)
          (with_new_uuid w s1 p1))
        λ item p mine.
          let added = add_storage o opened.1 item.size created.1 in
          Post-then (Isolated w) added (add_storage-Isolated w opened.1 item.size created.1 p)
            λ _ p _.
              returns item _
                (unmoved w added.1 _ p
                  (apart.delete_session (λ u. u.id == session.id) added.1.outside))
                mine

  pub complete_multipart_upload-Isolated :
      (session_id : Text) (s : State S)
      → Isolated w s
      → Post (Isolated w) (Mine w) (complete_multipart_upload o user_id session_id s)
  unfolding complete_multipart_upload
  complete_multipart_upload-Isolated session_id s p =
      let row = found_session (o.sessions.first (with_session_id user_id session_id) s.outside) in
      let there = or_raise row session_not_found s in
      Post-then (Isolated w) there (Post-or_raise (Isolated w) row session_not_found s p)
        λ session p _.
          let opening = get_driver o user_id session.cloud_account_id there.1 in
          Post-then (Isolated w) opening (get_driver-Isolated w session.cloud_account_id there.1 p)
            λ opened p clear.
              let read = some_parts (get_uploaded_parts o.parts_codec session) in
              let listed = or_raise read no_parts opening.1 in
              Post-then (Isolated w) listed (Post-or_raise (Isolated w) read no_parts opening.1 p)
                λ parts p _.
                  let done =
                    (opened.0).complete_multipart session.storage_path session.upload_id parts
                      listed.1.outside in
                  let s1 = record listed.1 { outside = done.1 } in
                  let p1 = unmoved w listed.1 done.1 p (
                    clear.complete_multipart session.storage_path session.upload_id parts
                      listed.1.outside) in
                  let checked = raise_if (not done.0) complete_failed s1 in
                  Post-then (Isolated w) checked
                    (Post-raise_if (Isolated w) (not done.0) complete_failed s1 p1)
                    λ _ p _. record_upload-Isolated opened session checked.1 clear p

  abort_on_storage-Isolated :
      (opened : Option (Driver S × CloudAccount)) (session : UploadSession) (s : State S)
      → Where (Isolated w) (λ opened. Clear view opened.0) opened
      → Isolated w s
      → Post (Isolated w) (λ _. Unit {0}) (abort_on_storage o opened session s)
  unfolding abort_on_storage
  abort_on_storage-Isolated none session s clear p = returns tt s p tt
  abort_on_storage-Isolated (some (driver, account)) session s clear p =
      returns tt _
        (unmoved w s _ p (clear.abort_multipart session.storage_path session.upload_id s.outside))
        tt

  pub abort_multipart_upload-Isolated :
      (session_id : Text) (s : State S)
      → Isolated w s
      → Post (Isolated w) (λ _. Unit {0}) (abort_multipart_upload o user_id session_id s)
  unfolding abort_multipart_upload
  abort_multipart_upload-Isolated session_id s p =
      let row = found_session (o.sessions.first (with_session_id user_id session_id) s.outside) in
      let there = or_raise row session_not_found s in
      Post-then (Isolated w) there (Post-or_raise (Isolated w) row session_not_found s p)
        λ session p _.
          let driver = get_driver o user_id session.cloud_account_id there.1 in
          let opening = attempt (get_driver o user_id session.cloud_account_id) there.1 in
          Post-then (Isolated w) opening
            (Post-attempt (Isolated w) driver
              (get_driver-Isolated w session.cloud_account_id there.1 p))
            λ opened p clear.
              let dropped = abort_on_storage o opened session opening.1 in
              Post-then (Isolated w) dropped
                (abort_on_storage-Isolated opened session opening.1 clear p)
                λ _ p _.
                  returns tt _
                    (unmoved w dropped.1 _ p
                      (apart.delete_session (λ u. u.id == session.id) dropped.1.outside))
                    tt
