-- ===== src/Service/Scan.antt =====
-- `ScanBucket`: the objects of a bucket become folders and files.
use ponta_drive_api.Base.{
  ℕ, suc, zero, ◌+◌, Bool, true, false, not, ◌&&◌, ◌||◌, Option, none, some, List, [], ◌∷◌, ◌==◌,
  if◌then◌else◌,
}
use ponta_drive_api.Base.Int.{ℤ, pos}
use ponta_drive_api.Base.Text.{
  Text, text, same, is_empty, trim_left, trim_right, trim_prefix, split, ends_with,
}
use ponta_drive_api.Models.{DriveItem, ObjectMetadata, type_folder, type_file, status_ready}
use ponta_drive_api.Service.{
  Driver, Outside, list_failed, out_of_fuel, Action, pure, raise, ask, perform, or_raise, ◌>>=◌,
  ◌>>◌, found_item,
}
use ponta_drive_api.Service.Factory.{get_driver}
use ponta_drive_api.Service.Items.{new_item}
use ponta_drive_api.Service.Uploads.{extension_of}
use ponta_drive_api.Service.Downloads.{is_slash}

-- parent_id IS NULL, or parent_id = p
abbrev pub same_parent : Option ℕ → Option ℕ → Bool
same_parent none none = true
same_parent none (some q) = false
same_parent (some p) none = false
same_parent (some p) (some q) = p == q

abbrev pub named : ℕ → ℕ → Text → Option ℕ → Text → DriveItem → Bool
named user_id account_id item_type parent name i =
    i.user_id == user_id
    && i.cloud_account_id == account_id
    && same i.name name
    && same i.item_type item_type
    && same_parent parent i.parent_id

abbrev pub stored_at : ℕ → ℕ → Text → DriveItem → Bool
stored_at user_id account_id key i =
    i.user_id == user_id && i.cloud_account_id == account_id && same i.storage_path key

abbrev pub file_of : ℕ → ℕ → DriveItem → Bool
file_of user_id account_id i =
    i.user_id == user_id && i.cloud_account_id == account_id && same i.item_type type_file

-- `segments[:len-1]` and `segments[len-1]`
unfoldable pub but_last : List Text → List Text
but_last [] = []
but_last (w ∷ []) = []
but_last (w ∷ v ∷ ws) = w ∷ but_last (v ∷ ws)

unfoldable pub last_segment : List Text → Text
last_segment [] = []
last_segment (w ∷ []) = w
last_segment (w ∷ v ∷ ws) = last_segment (v ∷ ws)

-- `strings.Trim(key, "/")`, split at its slashes
unfoldable pub segments_of : Text → List Text
segments_of key = split (trim_right is_slash (trim_left is_slash key)) b'/'

-- An existing row with what the storage says of its object.
unfoldable pub refreshed : ObjectMetadata → DriveItem → DriveItem
refreshed obj item = record item { size = obj.size; etag = obj.etag; status = status_ready }

-- The id of a folder that was to be created: it stays 0 when that fails.
unfoldable pub created_id : Option DriveItem → Option ℕ
created_id none = some 0
created_id (some folder) = some folder.id

unfoldable pub new_file : ℕ → ℕ → Option ℕ → Text → ObjectMetadata → Text → DriveItem
unfolding extension_of
new_file user_id account_id parent file_name obj uuid =
    record (new_item uuid user_id account_id parent file_name type_file status_ready) {
      mime_type = obj.mime_type;
      size = obj.size;
      extension = extension_of file_name;
      storage_path = obj.key;
      etag = obj.etag;
    }

-- The total of a query that may fail, which leaves it 0.
unfoldable pub total_or_zero : Option ℤ → ℤ
total_or_zero none = pos 0
total_or_zero (some total) = total

module _ {S : Type 0} (o : Outside S) (user_id account_id : ℕ) where
  -- The folder of a name, which is created where it is missing.
  unfoldable pub folder_or_create : Option ℕ → Text → Option DriveItem → Action S (Option ℕ)
  folder_or_create parent name (some folder) = pure (some folder.id)
  folder_or_create parent name none = do
    uuid ← perform o.new_uuid
    created ←
        perform
          (o.items.create (new_item uuid user_id account_id parent name type_folder status_ready))
    pure (created_id created)

  unfoldable pub ensure_folder : Option ℕ → Text → Action S (Option ℕ)
  unfolding folder_or_create
  ensure_folder parent name = if is_empty name then pure parent else (do
    row ← ask (o.items.first (named user_id account_id type_folder parent name))
    folder_or_create parent name (found_item row))

  -- The loop over the folders of a key.
  unfoldable pub ensure_folders : Option ℕ → List Text → Action S (Option ℕ)
  unfolding ensure_folder
  ensure_folders parent [] = pure parent
  ensure_folders parent (name ∷ names) = do
    below ← ensure_folder parent name
    ensure_folders below names

  -- The file of an object that no row has as its path; an error is not returned.
  unfoldable pub put_file :
      Option ℕ → Text → ObjectMetadata → Option DriveItem → Action S (Unit {0})
  unfolding refreshed new_file
  put_file parent name obj (some item) = do
    perform (o.items.save (refreshed obj (record item { storage_path = obj.key })))
    pure tt
  put_file parent name obj none = do
    uuid ← perform o.new_uuid
    perform (o.items.create (new_file user_id account_id parent name obj uuid))
    pure tt

  unfoldable pub upsert_file : Option ℕ → Text → ObjectMetadata → Action S (Unit {0})
  unfolding put_file
  upsert_file parent name obj = do
    row ← ask (o.items.first (named user_id account_id type_file parent name))
    put_file parent name obj (found_item row)

  -- An object that no row has as its path: 1 for a file, 0 for a folder marker.
  unfoldable pub scan_untracked : Option ℕ → ObjectMetadata → Text → Action S ℕ
  unfolding ensure_folders upsert_file
  scan_untracked parent obj key =
      if ends_with key b'/' then (do ensure_folders parent (segments_of key); pure 0) else (do
        below ← ensure_folders parent (but_last (segments_of key))
        upsert_file below (last_segment (segments_of key)) obj
        pure 1)

  unfoldable pub scan_keyed : Option ℕ → ObjectMetadata → Text → Option DriveItem → Action S ℕ
  unfolding scan_untracked refreshed
  scan_keyed parent obj key none = scan_untracked parent obj key
  scan_keyed parent obj key (some tracked) = do
    perform (o.items.save (refreshed obj tracked))
    pure 1

  -- The body of the loop over the objects; it returns how many it counts.
  unfoldable pub scan_object : Option ℕ → ObjectMetadata → Action S ℕ
  unfolding scan_keyed
  scan_object parent obj = if is_empty (trim_prefix obj.key (text "/")) then pure 0 else (do
    row ← ask (o.items.first (stored_at user_id account_id obj.key))
    scan_keyed parent obj (trim_prefix obj.key (text "/")) (found_item row))

  unfoldable pub scan_objects : Option ℕ → ℕ → List ObjectMetadata → Action S ℕ
  unfolding scan_object
  scan_objects parent count [] = pure count
  scan_objects parent count (obj ∷ objs) = do
    counted ← scan_object parent obj
    scan_objects parent (count + counted) objs

  -- The loop over the pages, with fuel. The count that the code returns with an error is left out.
  unfoldable pub scan_pages : ℕ → Driver S → Option ℕ → Text → ℕ → Action S ℕ
  unfolding scan_objects
  scan_pages zero driver parent token count = raise out_of_fuel
  scan_pages (suc fuel) driver parent token count = do
    listed ← perform (driver.list_objects [] token 1000)
    page ← or_raise listed list_failed
    count' ← scan_objects parent count page.objects
    if not page.is_truncated || is_empty page.next_continuation
        then pure count'
        else scan_pages fuel driver parent page.next_continuation count'

  -- `ScanBucket`
  unfoldable pub scan_bucket : ℕ → Option ℕ → Action S ℕ
  unfolding total_or_zero
  scan_bucket fuel parent = do
    opened ← get_driver o user_id account_id
    count ← scan_pages fuel (opened.0) parent [] 0
    total ← ask (o.sum_sizes (file_of user_id account_id))
    perform (o.accounts.save (record (opened.1) { used_storage = total_or_zero total }))
    pure count
