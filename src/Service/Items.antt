-- ===== src/Service/Items.antt =====
-- The methods of the drive service on the hierarchy: lookups, `CreateFolder`, `GetBreadcrumb`,
-- `UpdateItem`, `ToggleStar`.
use ponta_drive_api.Base.{
  ℕ, Bool, false, not, ◌&&◌, Option, none, some, List, [], ◌==◌, if◌then◌else◌,
}
use ponta_drive_api.Base.Int.{pos}
use ponta_drive_api.Base.Text.{Text, same, is_empty, trim_space}
use ponta_drive_api.Models.{DriveItem, is_folder, type_folder, status_ready}
use ponta_drive_api.Tree.{breadcrumb, is_self_or_descendant, positive}
use ponta_drive_api.Service.{
  Outside, Error, item_uuid_required, item_not_found, invalid_cloud_account, parent_not_found,
  parent_not_folder, create_failed, own_parent, destination_not_found, destination_not_folder,
  would_cycle, save_failed, Action, pure, ask, perform, or_raise, ◌>>=◌, ◌>>◌, raise_if, found_item,
  found_account,
}
use ponta_drive_api.Service.Factory.{owned_account}

abbrev pub with_uuid : ℕ → Text → DriveItem → Bool
with_uuid user_id item_uuid i = same i.uuid item_uuid && i.user_id == user_id

abbrev pub with_id : ℕ → ℕ → DriveItem → Bool
with_id user_id id i = i.id == id && i.user_id == user_id

abbrev pub in_account : ℕ → ℕ → ℕ → DriveItem → Bool
in_account user_id account_id id i =
    i.id == id && i.user_id == user_id && i.cloud_account_id == account_id

-- `DriveItem{}` with the fields that every new item sets.
abbrev pub new_item : Text → ℕ → ℕ → Option ℕ → Text → Text → Text → DriveItem
new_item uuid user_id account_id parent_id name item_type status = record {
  id = 0;
  created_at = none;
  updated_at = none;
  uuid = uuid;
  user_id = user_id;
  cloud_account_id = account_id;
  parent_id = parent_id;
  name = name;
  item_type = item_type;
  mime_type = [];
  size = pos 0;
  extension = [];
  storage_path = [];
  etag = [];
  is_starred = false;
  status = status;
}

-- The new name, where there is one.
abbrev pub renamed : DriveItem → Text → DriveItem
renamed item new_name =
    if is_empty (trim_space new_name) then item else record item { name = trim_space new_name }

module _ {S : Type 0} (o : Outside S) where
  -- `ResolveDriveItemID`
  unfoldable pub resolve_drive_item_id : ℕ → Text → Action S ℕ
  resolve_drive_item_id user_id item_uuid = do
    raise_if (is_empty item_uuid) item_uuid_required
    row ← ask (o.items.first (with_uuid user_id item_uuid))
    item ← or_raise (found_item row) item_not_found
    pure item.id

  -- `GetItemByUUID`
  unfoldable pub get_item_by_uuid : ℕ → Text → Action S DriveItem
  get_item_by_uuid user_id item_uuid = do
    row ← ask (o.items.first (with_uuid user_id item_uuid))
    or_raise (found_item row) item_not_found

  -- The check of a parent, where one is given.
  unfoldable pub check_parent : ℕ → ℕ → Option ℕ → Action S (Unit {0})
  check_parent user_id account_id none = pure tt
  check_parent user_id account_id (some p) = do
    row ← ask (o.items.first (in_account user_id account_id p))
    parent ← or_raise (found_item row) parent_not_found
    raise_if (not (is_folder parent)) parent_not_folder

  -- `CreateFolder`
  unfoldable pub create_folder : ℕ → ℕ → Option ℕ → Text → Action S DriveItem
  unfolding check_parent
  create_folder user_id account_id parent_id name = do
    account ← ask (o.accounts.first (owned_account user_id account_id))
    or_raise (found_account account) invalid_cloud_account
    check_parent user_id account_id (positive parent_id)
    uuid ← perform o.new_uuid
    created ← perform (
        o.items.create
          (new_item uuid user_id account_id parent_id (trim_space name) type_folder status_ready))
    or_raise created create_failed

  -- `GetBreadcrumb`
  unfoldable pub get_breadcrumb : ℕ → Text → Action S (List DriveItem)
  unfolding get_item_by_uuid
  get_breadcrumb user_id item_uuid = do
    item ← get_item_by_uuid user_id item_uuid
    ask (λ s. breadcrumb (λ n. found_item (o.items.first (with_id user_id n) s)) item)

  -- The rows that `isSelfOrDescendant` reads.
  abbrev pub rows_of : ℕ → ℕ → S → ℕ → Option DriveItem
  rows_of user_id account_id s n = found_item (o.items.first (in_account user_id account_id n) s)

  -- The checks on a new parent, and the item with it.
  unfoldable pub moved : ℕ → DriveItem → Option ℕ → Action S DriveItem
  moved user_id item none = pure item
  moved user_id item (some p) = do
    raise_if (p == item.id) own_parent
    if p == 0 then pure (record item { parent_id = none }) else do
      row ← ask (o.items.first (in_account user_id item.cloud_account_id p))
      parent ← or_raise (found_item row) destination_not_found
      raise_if (not (is_folder parent)) destination_not_folder
      below ← ask (λ s. is_self_or_descendant (rows_of user_id item.cloud_account_id s) p item.id)
      raise_if below would_cycle
      pure (record item { parent_id = some p })

  unfoldable pub save_item : DriveItem → Error → Action S DriveItem
  save_item item e = do saved ← perform (o.items.save item); raise_if (not saved) e; pure item

  -- `UpdateItem`
  unfoldable pub update_item : ℕ → Text → Text → Option ℕ → Action S DriveItem
  unfolding get_item_by_uuid moved save_item
  update_item user_id item_uuid new_name new_parent_id = do
    item ← get_item_by_uuid user_id item_uuid
    changed ← moved user_id (renamed item new_name) new_parent_id
    save_item changed save_failed

  -- `ToggleStar`
  unfoldable pub toggle_star : ℕ → Text → Action S DriveItem
  unfolding get_item_by_uuid save_item
  toggle_star user_id item_uuid = do
    item ← get_item_by_uuid user_id item_uuid
    save_item (record item { is_starred = not item.is_starred }) save_failed
