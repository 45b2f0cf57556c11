-- ===== src/Service/Isolation/Reading.antt =====
-- Downloads, streams and previews leave the rows of the other users alone.
use ponta_drive_api.Base.{ℕ, ◌≡◌, Option}
use ponta_drive_api.Base.Int.{ℤ}
use ponta_drive_api.Base.Text.{Text}
use ponta_drive_api.Models.{is_folder}
use ponta_drive_api.Service.{
  Error, State, or_raise, raise_if, folder_download, folder_stream, folder_read, folder_preview,
  presign_failed, get_failed,
}
use ponta_drive_api.Service.Post.{
  Post, returns, Post-weaken, Post-or_raise, Post-raise_if, Post-then,
}
use ponta_drive_api.Service.Factory.{get_driver}
use ponta_drive_api.Service.Items.{get_item_by_uuid}
use ponta_drive_api.Service.Uploads.{presign_time}
use ponta_drive_api.Service.Downloads.{
  open_file, get_presigned_download_url, get_item_stream, get_item_range, resolve_preview,
}
use ponta_drive_api.Service.Isolation.{Tenant, Clear, Isolated, unmoved}
use ponta_drive_api.Service.Isolation.Drivers.{get_driver-Isolated}
use ponta_drive_api.Service.Isolation.Items.{get_item_by_uuid-Isolated}

module _ {S : Type 0} (w : Tenant S) where
  open w use {o, view, apart, user_id, others}

  open_file-Isolated :
      (item_uuid : Text) (e : Error) (s : State S)
      → Isolated w s
      → Post (Isolated w) (λ file. Clear view file.1) (open_file o user_id item_uuid e s)
  unfolding open_file
  open_file-Isolated item_uuid e s p =
      let read = get_item_by_uuid o user_id item_uuid s in
      Post-then (Isolated w) read (get_item_by_uuid-Isolated w item_uuid s p) λ item p _.
        let checked = raise_if (is_folder item) e read.1 in
        Post-then (Isolated w) checked (Post-raise_if (Isolated w) (is_folder item) e read.1 p)
          λ _ p _.
            Post-then (Isolated w) (get_driver o user_id item.cloud_account_id checked.1)
              (get_driver-Isolated w item.cloud_account_id checked.1 p)
              λ opened p clear. returns (item, opened.0) _ p clear

  -- The answer of a call of the driver.
  answered :
      {A : Type 0} (answer : Option A × S) (e : Error) (s : State S)
      → Isolated w s
      → ((n : ℕ) → view answer.1 n ≡ view s.outside n)
      → Post (Isolated w) (λ _. Unit {0}) (or_raise answer.0 e (record s { outside = answer.1 }))
  answered answer e s p same =
      Post-weaken (Isolated w) (λ _ _. tt)
        (Post-or_raise (Isolated w) answer.0 e (record s { outside = answer.1 })
          (unmoved w s answer.1 p same))

  pub get_presigned_download_url-Isolated :
      (item_uuid : Text) (expire : ℕ) (s : State S)
      → Isolated w s
      → Post (Isolated w) (λ _. Unit {0}) (get_presigned_download_url o user_id item_uuid expire s)
  unfolding get_presigned_download_url
  get_presigned_download_url-Isolated item_uuid expire s p =
      let opened = open_file o user_id item_uuid folder_download s in
      Post-then (Isolated w) opened (open_file-Isolated item_uuid folder_download s p)
        λ file p clear.
          let item = file.0 in
          let signed =
            (file.1).presign_download item.storage_path item.name expire opened.1.outside in
          Post-then (Isolated w)
            (or_raise signed.0 presign_failed (record opened.1 { outside = signed.1 }))
            (answered signed presign_failed opened.1 p
              (clear.presign_download item.storage_path item.name expire opened.1.outside))
            λ url p _. returns (url, item) _ p tt

  pub get_item_stream-Isolated :
      (item_uuid : Text) (s : State S)
      → Isolated w s
      → Post (Isolated w) (λ _. Unit {0}) (get_item_stream o user_id item_uuid s)
  unfolding get_item_stream
  get_item_stream-Isolated item_uuid s p =
      let opened = open_file o user_id item_uuid folder_stream s in
      Post-then (Isolated w) opened (open_file-Isolated item_uuid folder_stream s p) λ file p clear.
        let key = (file.0).storage_path in
        let got = (file.1).get_object key opened.1.outside in
        Post-then (Isolated w) (or_raise got.0 get_failed (record opened.1 { outside = got.1 }))
          (answered got get_failed opened.1 p (clear.get_object key opened.1.outside))
          λ body p _. returns (body, file.0) _ p tt

  pub get_item_range-Isolated :
      (item_uuid : Text) (offset length : ℤ) (s : State S)
      → Isolated w s
      → Post (Isolated w) (λ _. Unit {0}) (get_item_range o user_id item_uuid offset length s)
  unfolding get_item_range
  get_item_range-Isolated item_uuid offset length s p =
      let opened = open_file o user_id item_uuid folder_read s in
      Post-then (Isolated w) opened (open_file-Isolated item_uuid folder_read s p) λ file p clear.
        let key = (file.0).storage_path in
        answered ((file.1).get_range key offset length opened.1.outside) get_failed opened.1 p
          (clear.get_range key offset length opened.1.outside)

  pub resolve_preview-Isolated :
      (item_uuid : Text) (s : State S)
      → Isolated w s
      → Post (Isolated w) (λ _. Unit {0}) (resolve_preview o user_id item_uuid s)
  unfolding resolve_preview
  resolve_preview-Isolated item_uuid s p =
      let opened = open_file o user_id item_uuid folder_preview s in
      Post-then (Isolated w) opened (open_file-Isolated item_uuid folder_preview s p) λ file p _.
        Post-then (Isolated w)
          (get_presigned_download_url o user_id item_uuid presign_time opened.1)
          (get_presigned_download_url-Isolated item_uuid presign_time opened.1 p)
          λ signed p _. returns _ _ p tt
