-- ===== src/Service/Isolation/History.antt =====
-- No user's calls of the drive service touch the rows of another user.
use ponta_drive_api.Base.{
  ℕ, ◌≡◌, refl, sym, ap, ◌∙◌, false, Option, none, some, List, [], ◌∷◌, arith, ◌==◌, if◌then◌else◌,
}
use ponta_drive_api.Base.Order.Sort.{All}
use ponta_drive_api.Models.{DriveItem}
use ponta_drive_api.Service.{Outside, State}
use ponta_drive_api.Service.Post.{Post-state}
use ponta_drive_api.Service.Calls.{Call, after, after_all}
use ponta_drive_api.Service.Isolation.{Apart, AllClear, Tenant, Isolated, foreign}
use ponta_drive_api.Service.Isolation.Items.{
  get_item_by_uuid-Isolated, create_folder-Isolated, get_breadcrumb-Isolated, update_item-Isolated,
  toggle_star-Isolated,
}
use ponta_drive_api.Service.Isolation.Deletion.{delete_item-Isolated}
use ponta_drive_api.Service.Isolation.Uploads.{
  initiate_presigned_upload-Isolated, complete_presigned_upload-Isolated,
}
use ponta_drive_api.Service.Isolation.Multipart.{
  initiate_multipart_upload-Isolated, upload_part-Isolated, complete_multipart_upload-Isolated,
  abort_multipart_upload-Isolated,
}
use ponta_drive_api.Service.Isolation.Reading.{
  get_presigned_download_url-Isolated, get_item_stream-Isolated, get_item_range-Isolated,
  resolve_preview-Isolated,
}
use ponta_drive_api.Service.Isolation.Scan.{scan_bucket-Isolated}

-- A row that is the user's.
abbrev pub own : ℕ → Option DriveItem → Option DriveItem
own user_id none = none
own user_id (some x) = if x.user_id == user_id then some x else none

own-foreign :
    (u v : ℕ) (row : Option DriveItem) → (u == v) ≡ false → own v (foreign u row) ≡ own v row
own-foreign u v none h = refl
own-foreign u v (some x) h = ground arith

module _ {S : Type 0} (w : Tenant S) where
  open w use {o, user_id}

  after-Isolated : (call : Call) (s : State S) → Isolated w s → Isolated w (after o user_id call s)
  unfolding after
  after-Isolated (Call.create_folder account parent name) s p =
      Post-state (Isolated w) (create_folder-Isolated w account parent name s p)
  after-Isolated (Call.get_breadcrumb uuid) s p =
      Post-state (Isolated w) (get_breadcrumb-Isolated w uuid s p)
  after-Isolated (Call.get_item_by_uuid uuid) s p =
      Post-state (Isolated w) (get_item_by_uuid-Isolated w uuid s p)
  after-Isolated (Call.update_item uuid name parent) s p =
      Post-state (Isolated w) (update_item-Isolated w uuid name parent s p)
  after-Isolated (Call.toggle_star uuid) s p =
      Post-state (Isolated w) (toggle_star-Isolated w uuid s p)
  after-Isolated (Call.delete_item fuel uuid permanent) s p =
      Post-state (Isolated w) (delete_item-Isolated w fuel uuid permanent s p)
  after-Isolated (Call.initiate_presigned_upload account parent name size mime) s p =
      Post-state (Isolated w)
        (initiate_presigned_upload-Isolated w account parent name size mime s p)
  after-Isolated (Call.complete_presigned_upload uuid) s p =
      Post-state (Isolated w) (complete_presigned_upload-Isolated w uuid s p)
  after-Isolated (Call.initiate_multipart_upload account parent name size mime chunk) s p =
      Post-state (Isolated w)
        (initiate_multipart_upload-Isolated w account parent name size mime chunk s p)
  after-Isolated (Call.upload_part id number body size) s p =
      Post-state (Isolated w) (upload_part-Isolated w id number body size s p)
  after-Isolated (Call.complete_multipart_upload id) s p =
      Post-state (Isolated w) (complete_multipart_upload-Isolated w id s p)
  after-Isolated (Call.abort_multipart_upload id) s p =
      Post-state (Isolated w) (abort_multipart_upload-Isolated w id s p)
  after-Isolated (Call.get_presigned_download_url uuid expire) s p =
      Post-state (Isolated w) (get_presigned_download_url-Isolated w uuid expire s p)
  after-Isolated (Call.get_item_stream uuid) s p =
      Post-state (Isolated w) (get_item_stream-Isolated w uuid s p)
  after-Isolated (Call.get_item_range uuid offset size) s p =
      Post-state (Isolated w) (get_item_range-Isolated w uuid offset size s p)
  after-Isolated (Call.resolve_preview uuid) s p =
      Post-state (Isolated w) (resolve_preview-Isolated w uuid s p)
  after-Isolated (Call.scan_bucket account fuel parent) s p =
      Post-state (Isolated w) (scan_bucket-Isolated w account fuel parent s p)

module _ {S : Type 0} (o : Outside S) (view : S → ℕ → Option DriveItem) (apart : Apart view o) where
  call-Isolated :
      (u v : ℕ) (call : Call) (s : State S)
      → (u == v) ≡ false
      → AllClear view s.drivers
      → ((n : ℕ) → own v (view (after o u call s).outside n) ≡ own v (view s.outside n))
        × AllClear view (after o u call s).drivers
  call-Isolated u v call s distinct clear =
      let w : Tenant S = record {
        o = o;
        view = view;
        apart = apart;
        user_id = u;
        others = λ n. foreign u (view s.outside n);
      } in
      let (same, clear') = after-Isolated w call s (λ n. refl, clear) in
      (
        λ n.
            sym (own-foreign u v (view (after o u call s).outside n) distinct)
            ∙ ap (own v) (same n)
            ∙ own-foreign u v (view s.outside n) distinct,
        clear',
      )

  -- Whatever calls of the drive service other users make, one after another, and however they end:
  -- every row of a user is as it was before, and none has been added. The database and the drivers
  -- keep their laws.
  pub after_all-own :
      (v : ℕ) (calls : List (ℕ × Call)) (s : State S)
      → AllClear view s.drivers
      → All (λ c. (c.0 == v) ≡ false) calls
      → (n : ℕ) → own v (view (after_all o calls s).outside n) ≡ own v (view s.outside n)
  unfolding after_all
  after_all-own v [] s clear others n = refl
  after_all-own v ((u, call) ∷ calls) s clear (distinct, others) n =
      let (same, clear') = call-Isolated u v call s distinct clear in
      after_all-own v calls (after o u call s) clear' others n ∙ same n
