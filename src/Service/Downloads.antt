-- ===== src/Service/Downloads.antt =====
-- Reading an item: `GetPresignedDownloadURL`, `GetItemStream`, `GetItemRange` and `ResolvePreview`.
use ponta_drive_api.Base.{
  ℕ, Bool, false, not, ◌&&◌, ◌||◌, Option, none, some, [], ◌++◌, leb, ltb, ◌==◌, if◌then◌else◌,
}
use ponta_drive_api.Base.Int.{ℤ}
use ponta_drive_api.Base.Text.{Text, text, is_empty, has_prefix, trim_space, trim_left, trim_right}
use ponta_drive_api.Models.{DriveItem, is_folder}
use ponta_drive_api.Preview.{
  PreviewStrategy, direct, proxy, fallback, Reason, classify_preview_kind, decide_preview_strategy,
}
use ponta_drive_api.Service.{
  Driver, Outside, Error, presign_failed, folder_download, folder_stream, folder_read, get_failed,
  folder_preview, Action, pure, ask, perform, or_raise, ◌>>=◌, ◌>>◌, raise_if,
}
use ponta_drive_api.Service.Factory.{get_driver}
use ponta_drive_api.Service.Items.{get_item_by_uuid}
use ponta_drive_api.Service.Uploads.{presign_time}

abbrev pub is_slash : ℕ → Bool
is_slash c = c == b'/'

-- `publicURLFor`; the empty text when there is no public URL
unfoldable pub public_url_for : Text → Text → Text
public_url_for public_base storage_path =
    let base = trim_right is_slash (trim_space public_base) in
    let key = trim_left is_slash (trim_space storage_path) in
    if is_empty base || is_empty key then [] else base ++ text "/" ++ key

-- 200 to 399; a request that fails is not reachable.
unfoldable pub reachable_status : Option ℕ → Bool
reachable_status none = false
reachable_status (some status) = leb 200 status && ltb status 400

-- `PreviewResult`
pub record PreviewResult : Type 0 where
  pub strategy : PreviewStrategy
  pub url : Text
  pub download_url : Text
  pub item : DriveItem
  pub reason : Reason

-- The URL that goes with a strategy.
unfoldable pub preview_url : PreviewStrategy → Bool → Text → Text → Text → Text
preview_url direct reachable public_url download_url uuid =
    if reachable then public_url else download_url
preview_url proxy reachable public_url download_url uuid =
    text "/v1/drive/items/" ++ uuid ++ text "/content"
preview_url fallback reachable public_url download_url uuid = []

module _ {S : Type 0} (o : Outside S) where
  -- `PublicURLReachable`
  unfoldable pub public_url_reachable : Text → S → Bool
  unfolding reachable_status
  public_url_reachable url s =
      if not (has_prefix url (text "http://")) && not (has_prefix url (text "https://"))
      then false
      else reachable_status (o.head_status url s)

  -- The item and its driver, where it is not a folder.
  unfoldable pub open_file : ℕ → Text → Error → Action S (DriveItem × Driver S)
  unfolding get_item_by_uuid
  open_file user_id item_uuid folder_error = do
    item ← get_item_by_uuid o user_id item_uuid
    raise_if (is_folder item) folder_error
    opened ← get_driver o user_id item.cloud_account_id
    pure (item, opened.0)

  -- `GetPresignedDownloadURL`
  unfoldable pub get_presigned_download_url : ℕ → Text → ℕ → Action S (Text × DriveItem)
  unfolding open_file
  get_presigned_download_url user_id item_uuid expire = do
    file ← open_file user_id item_uuid folder_download
    signed ← perform ((file.1).presign_download (file.0).storage_path (file.0).name expire)
    url ← or_raise signed presign_failed
    pure (url, file.0)

  -- `GetItemStream`
  unfoldable pub get_item_stream : ℕ → Text → Action S (Text × DriveItem)
  unfolding open_file
  get_item_stream user_id item_uuid = do
    file ← open_file user_id item_uuid folder_stream
    opened ← perform ((file.1).get_object (file.0).storage_path)
    body ← or_raise opened get_failed
    pure (body, file.0)

  -- `GetItemRange`: the error of the driver is passed on.
  unfoldable pub get_item_range : ℕ → Text → ℤ → ℤ → Action S (Text × ℤ)
  unfolding open_file
  get_item_range user_id item_uuid offset length = do
    file ← open_file user_id item_uuid folder_read
    read ← perform ((file.1).get_range (file.0).storage_path offset length)
    or_raise read get_failed

  -- The public URL of the item's object, where the account has one.
  unfoldable pub public_url_of : Driver S → DriveItem → Text
  unfolding public_url_for
  public_url_of driver item =
      if is_empty driver.public_url then [] else public_url_for driver.public_url item.storage_path

  unfoldable pub preview_of : DriveItem → Text → Text → Bool → PreviewResult
  unfolding preview_url
  preview_of item download_url public_url reachable =
      let (strategy, reason) =
        decide_preview_strategy (classify_preview_kind item.mime_type item.extension) item.size
          reachable in
      record {
        strategy = strategy;
        url = preview_url strategy reachable public_url download_url item.uuid;
        download_url = download_url;
        item = item;
        reason = reason;
      }

  -- `ResolvePreview`
  unfoldable pub resolve_preview : ℕ → Text → Action S PreviewResult
  unfolding open_file get_presigned_download_url public_url_reachable public_url_of
  resolve_preview user_id item_uuid = do
    file ← open_file user_id item_uuid folder_preview
    signed ← get_presigned_download_url user_id item_uuid presign_time
    let public_url = public_url_of (file.1) (file.0)
    reachable ← ask (λ s. not (is_empty public_url) && public_url_reachable public_url s)
    pure (preview_of (file.0) (signed.0) public_url reachable)
