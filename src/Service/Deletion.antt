-- ===== src/Service/Deletion.antt =====
-- `DeleteItem` and `CollectDescendantItems`.
use ponta_drive_api.Base.{
  ℕ, Bool, false, not, ◌&&◌, Option, none, some, List, [], ◌∷◌, contains, ◌==◌, if◌then◌else◌,
}
use ponta_drive_api.Base.Int.{ℤ, pos, ◌-₆₄◌, ltb_ℤ}
use ponta_drive_api.Base.Text.{Text, is_empty}
use ponta_drive_api.Models.{DriveItem, CloudAccount, is_file}
use ponta_drive_api.Tree.{Collected, collect}
use ponta_drive_api.Service.{
  Driver, Outside, root_not_found, query_failed, delete_failed, out_of_fuel, Action, pure, raise,
  ask, perform, or_raise, ◌>>=◌, ◌>>◌, raise_if, attempt, found_item,
}
use ponta_drive_api.Service.Factory.{get_driver}
use ponta_drive_api.Service.Items.{in_account, get_item_by_uuid}

-- parent_id = n
abbrev pub child_of : ℕ → ℕ → ℕ → DriveItem → Bool
child_of user_id account_id n i =
    i.user_id == user_id
    && i.cloud_account_id == account_id
    && elim i.parent_id [ none ↦ false | some p ↦ p == n ]

abbrev pub max_items : ℕ
max_items = 10000

-- `newUsed`: floored at 0
unfoldable pub decrement : ℤ → ℤ → ℤ
decrement used size = let left = used -₆₄ size in if ltb_ℤ left (pos 0) then pos 0 else left

abbrev pub id_in : List ℕ → DriveItem → Bool
id_in ids i = contains i.id ids

abbrev pub item_ids : List DriveItem → List ℕ
item_ids [] = []
item_ids (i ∷ is) = i.id ∷ item_ids is

module _ {S : Type 0} (o : Outside S) where
  abbrev pub collected : Option (Option Collected) → Action S Collected
  collected none = raise query_failed
  collected (some none) = raise out_of_fuel
  collected (some (some c)) = pure c

  -- `CollectDescendantItems`, with fuel for the rounds of its loop
  unfoldable pub collect_descendant_items : ℕ → ℕ → ℕ → ℕ → Action S Collected
  collect_descendant_items fuel user_id account_id root_folder_id = do
    row ← ask (o.items.first (in_account user_id account_id root_folder_id))
    root ← or_raise (found_item row) root_not_found
    result ← ask (λ s.
        collect (λ n. o.items.get (child_of user_id account_id n) s) fuel max_items
          (record {
            queue = root.id ∷ [];
            visited = root.id ∷ [];
            all_items = root ∷ [];
            keys = [];
            total_size = pos 0;
          }))
    collected result

  -- The account's counter, which is not changed by a size of 0 or less, nor without an account.
  unfoldable pub release_storage : Option (Driver S × CloudAccount) → ℤ → Action S (Unit {0})
  release_storage none size = pure tt
  release_storage (some (driver, account)) size =
      if ltb_ℤ (pos 0) size
      then (do
        perform (
            o.accounts.save (record account { used_storage = decrement account.used_storage size }))
        pure tt)
      else pure tt

  -- `driver.Delete`, `driver.DeleteObjects`: an error is not returned.
  unfoldable pub delete_objects : Option (Driver S × CloudAccount) → List Text → Action S (Unit {0})
  delete_objects opened [] = pure tt
  delete_objects none (key ∷ keys) = pure tt
  delete_objects (some (driver, account)) (key ∷ keys) = do
    perform (driver.delete_objects (key ∷ keys))
    pure tt

  unfoldable pub delete_object : Option (Driver S × CloudAccount) → Text → Action S (Unit {0})
  delete_object none key = pure tt
  delete_object (some (driver, account)) key =
      if is_empty key then pure tt else (do perform (driver.delete_object key); pure tt)

  unfoldable pub delete_file : Option (Driver S × CloudAccount) → DriveItem → Action S (Unit {0})
  unfolding delete_object release_storage
  delete_file opened item = do
    delete_object opened item.storage_path
    done ← perform (o.items.force_delete (λ i. i.id == item.id))
    raise_if (not done) delete_failed
    release_storage opened item.size

  unfoldable pub delete_folder :
      ℕ → ℕ → Option (Driver S × CloudAccount) → DriveItem → Action S (Unit {0})
  unfolding collect_descendant_items delete_objects release_storage
  delete_folder fuel user_id opened item = do
    c ← collect_descendant_items fuel user_id item.cloud_account_id item.id
    delete_objects opened c.keys
    done ← perform (o.items.force_delete (id_in (item_ids c.all_items)))
    raise_if (not done) delete_failed
    release_storage opened c.total_size

  -- `DeleteItem`. The list of ids is never empty, since it holds the folder.
  unfoldable pub delete_item : ℕ → ℕ → Text → Bool → Action S (Unit {0})
  unfolding get_item_by_uuid delete_file delete_folder
  delete_item fuel user_id item_uuid permanent = do
    item ← get_item_by_uuid o user_id item_uuid
    if not permanent
        then (do
          done ← perform (o.items.delete (λ i. i.id == item.id))
          raise_if (not done) delete_failed)
        else (do
          opened ← attempt (get_driver o user_id item.cloud_account_id)
          if is_file item then delete_file opened item else delete_folder fuel user_id opened item)
