-- ===== src/Service/Isolation/Uploads.antt =====
-- The single upload leaves the rows of the other users alone.
use ponta_drive_api.Base.{ℕ, refl, not, Option, none, some, ◌==◌, Bool-cases, inl, inr}
use ponta_drive_api.Base.Int.{ℤ, pos, ltb_ℤ}
use ponta_drive_api.Base.Text.{Text}
use ponta_drive_api.Models.{
  DriveItem, CloudAccount, ObjectMetadata, is_folder, type_file, status_uploading, status_failed,
}
use ponta_drive_api.Tree.{positive}
use ponta_drive_api.Service.{
  PresignedUrl, State, or_raise, found_item, parent_not_folder, create_failed, finalize_failed,
}
use ponta_drive_api.Service.Post.{Post, returns, raises, Post-or_raise, Post-raise_if, Post-then}
use ponta_drive_api.Service.Factory.{get_driver}
use ponta_drive_api.Service.Items.{in_account, new_item, get_item_by_uuid, save_item}
use ponta_drive_api.Service.Uploads.{
  extension_of, storage_key, presign_time, finalized, check_upload_parent, keep_presigned,
  initiate_presigned_upload, add_storage, finish_upload, complete_presigned_upload,
}
use ponta_drive_api.Service.Isolation.{
  Tenant, Isolated, Mine, unmoved, Holds-save, Holds-force_delete, same_id-free,
}
use ponta_drive_api.Service.Isolation.Drivers.{get_driver-Isolated}
use ponta_drive_api.Service.Isolation.Items.{
  get_item_by_uuid-Isolated, save_item-Isolated, create-Isolated, with_new_uuid,
}

module _ {S : Type 0} (w : Tenant S) where
  open w use {o, view, apart, user_id, others}

  check_upload_parent-Isolated :
      (account_id : ℕ) (parent : Option ℕ) (s : State S)
      → Isolated w s
      → Post (Isolated w) (λ _. Unit {0}) (check_upload_parent o user_id account_id parent s)
  unfolding check_upload_parent
  check_upload_parent-Isolated account_id none s p = returns tt s p tt
  check_upload_parent-Isolated account_id (some n) s p =
      let row = found_item (o.items.first (in_account user_id account_id n) s.outside) in
      Post-then (Isolated w) (or_raise row parent_not_folder s)
        (Post-or_raise (Isolated w) row parent_not_folder s p)
        λ parent p _. Post-raise_if (Isolated w) (not (is_folder parent)) parent_not_folder _ p

  keep_presigned-Isolated :
      (item : DriveItem) (url : Option PresignedUrl) (s : State S)
      → Mine w item
      → Isolated w s
      → Post (Isolated w) (λ r. Mine w r.0) (keep_presigned o item url s)
  unfolding keep_presigned
  keep_presigned-Isolated item none s mine (holds, clear) = raises _ _ (
    Holds-force_delete w (λ i. i.id == item.id) s.outside (λ x. same_id-free w item x mine) holds,
    clear,
  )
  keep_presigned-Isolated item (some url) s mine p = returns (item, url) s p mine

  pub initiate_presigned_upload-Isolated :
      (account_id : ℕ) (parent : Option ℕ) (file_name : Text) (size : ℤ) (mime_type : Text)
      (s : State S)
      → Isolated w s
      → Post
          (Isolated w)
          (λ r. Mine w r.0)
          (initiate_presigned_upload o user_id account_id parent file_name size mime_type s)
  unfolding initiate_presigned_upload
  initiate_presigned_upload-Isolated account_id parent file_name size mime_type s p =
      let opening = get_driver o user_id account_id s in
      Post-then (Isolated w) opening (get_driver-Isolated w account_id s p) λ opened p clear.
        let checked = check_upload_parent o user_id account_id (positive parent) opening.1 in
        Post-then (Isolated w) checked
          (check_upload_parent-Isolated account_id (positive parent) opening.1 p)
          λ _ p _.
            let key_drawn = o.new_uuid checked.1.outside in
            let drawn = o.new_uuid key_drawn.1 in
            let key = storage_key user_id key_drawn.0 file_name in
            let s1 = record checked.1 { outside = drawn.1 } in
            let p1 =
              with_new_uuid w (record checked.1 { outside = key_drawn.1 })
                (with_new_uuid w checked.1 p) in
            let x : DriveItem =
              record (new_item drawn.0 user_id account_id parent file_name type_file
                status_uploading) {
                  mime_type = mime_type;
                  size = size;
                  extension = extension_of file_name;
                  storage_path = key;
                } in
            let written = record s1 { outside = (o.items.create x s1.outside).1 } in
            let created = or_raise (o.items.create x s1.outside).0 create_failed written in
            Post-then (Isolated w) created (create-Isolated w x create_failed s1 refl p1)
              λ item p mine.
                let signed =
                  (opened.0).presign_upload key mime_type presign_time created.1.outside in
                keep_presigned-Isolated item signed.0 (record created.1 { outside = signed.1 }) mine
                  (unmoved w created.1 signed.1 p
                    (clear.presign_upload key mime_type presign_time created.1.outside))

  pub add_storage-Isolated :
      (account : CloudAccount) (size : ℤ) (s : State S)
      → Isolated w s
      → Post (Isolated w) (λ _. Unit {0}) (add_storage o account size s)
  unfolding add_storage
  add_storage-Isolated account size s p = elim (Bool-cases (ltb_ℤ (pos 0) size)) [
    | inl some_size ↦
        rw some_size (returns tt _ (unmoved w s _ p (apart.save_account _ s.outside)) tt)
    | inr no_size ↦ rw no_size (returns tt s p tt)
  ]

  finalized-Mine :
      (meta : ObjectMetadata) (item : DriveItem) → Mine w item → Mine w (finalized meta item)
  unfolding finalized
  finalized-Mine meta item mine = mine

  failed-Mine : (item : DriveItem) → Mine w item → Mine w (record item { status = status_failed })
  failed-Mine item mine = mine

  finish_upload-Isolated :
      (account : CloudAccount) (item : DriveItem) (meta : Option ObjectMetadata) (s : State S)
      → Mine w item
      → Isolated w s
      → Post (Isolated w) (Mine w) (finish_upload o account item meta s)
  unfolding finish_upload
  finish_upload-Isolated account item none s mine (holds, clear) = raises _ _ (
    Holds-save w (record item { status = status_failed }) s.outside (failed-Mine item mine) holds,
    clear,
  )
  finish_upload-Isolated account item (some meta) s mine p =
      let saved = save_item o (finalized meta item) finalize_failed s in
      Post-then (Isolated w) saved
        (save_item-Isolated w (finalized meta item) finalize_failed s
          (finalized-Mine meta item mine) p)
        λ ready p mine.
          Post-then (Isolated w) (add_storage o account ready.size saved.1)
            (add_storage-Isolated account ready.size saved.1 p) λ _ p _. returns ready _ p mine

  pub complete_presigned_upload-Isolated :
      (item_uuid : Text) (s : State S)
      → Isolated w s
      → Post (Isolated w) (Mine w) (complete_presigned_upload o user_id item_uuid s)
  unfolding complete_presigned_upload
  complete_presigned_upload-Isolated item_uuid s p =
      let read = get_item_by_uuid o user_id item_uuid s in
      Post-then (Isolated w) read (get_item_by_uuid-Isolated w item_uuid s p) λ item p mine.
        let opening = get_driver o user_id item.cloud_account_id read.1 in
        Post-then (Isolated w) opening (get_driver-Isolated w item.cloud_account_id read.1 p)
          λ opened p clear.
            let looked = (opened.0).get_metadata item.storage_path opening.1.outside in
            finish_upload-Isolated opened.1 item looked.0 (record opening.1 { outside = looked.1 })
              mine
              (unmoved w opening.1 looked.1 p
                (clear.get_metadata item.storage_path opening.1.outside))
