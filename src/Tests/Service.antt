-- ===== src/Tests/Service.antt =====
-- Runs of the service over a small world.
use ponta_drive_api.Base.{ℕ, ℕ, ◌<◌, ◌≡◌, refl, none, some, List, [], ◌∷◌, arith}
use ponta_drive_api.Base.Int.{pos}
use ponta_drive_api.Base.Text.{text, same}
use ponta_drive_api.Models.{DriveItem, type_folder}
use ponta_drive_api.Tree.Ancestry.{IsForest, Edge, Above, here, up, steps}
use ponta_drive_api.Service.{State, ok}
use ponta_drive_api.Service.Factory.{
  cached, get_driver, driver_for_account, cache_driver, build_driver, get_credentials, has_driver,
}
use ponta_drive_api.Service.Items.{update_item}
use ponta_drive_api.Service.Database.{account_rows}
use ponta_drive_api.Service.Folders.{update_item-IsForest}
use ponta_drive_api.Service.Drivers.{get_driver_owned, driver_for_account-cached}
use ponta_drive_api.Service.Storage.{release_storage-add_storage}
use ponta_drive_api.Models.{CloudAccount}
use ponta_drive_api.Service.Deletion.{release_storage}
use ponta_drive_api.Service.Uploads.{add_storage}
use ponta_drive_api.Tests.Server.{item_at}
use ponta_drive_api.Accounts.{no_credentials}
use ponta_drive_api.Tests.Codecs.{read-write_credentials}
use ponta_drive_api.Tests.World.{world, world-ItemLaws, live, row_of, home, no_objects}

abbrev two_rows : List DriveItem
two_rows =
    item_at 1 none (text "docs") type_folder 0 none
    ∷ item_at 2 (some 1) (text "notes") type_folder 0 none
    ∷ []

abbrev start : State (List DriveItem)
start = record { outside = two_rows; drivers = [] }

only-Edge : (u a n p : ℕ) → Edge (account_rows (live two_rows) u a) n p → (n ≡ 2) × (p ≡ 1)
unfolding row_of
only-Edge u a n p (node, at, link) = ground arith

no_cycle : (u a : ℕ) {n p : ℕ} → n ≡ 2 → p ≡ 1 → Above (account_rows (live two_rows) u a) n p → ⊥
no_cycle u a h k here = absurd (omega arith)
no_cycle u a h k (up {n = m} {p = q} f v) = absurd (omega (arith, only-Edge u a m q f))

few_steps : (u a : ℕ) {t n : ℕ} (w : Above (account_rows (live two_rows) u a) t n) → steps w < 3
unfolding steps
few_steps u a here = omega arith
few_steps u a (up e here) = omega arith
few_steps u a (up {n = n} {p = p} e (up {n = q} {p = r} f w)) =
    absurd (omega (arith, only-Edge u a n p e, only-Edge u a q r f))

-- The outer folder is to go into the inner one.
update_item-IsForest_example :
    IsForest (
      account_rows
        (live (update_item world 1 (2 ∷ []) (text "outer") (some 2) start).1.outside)
        1
        1)
update_item-IsForest_example =
    update_item-IsForest world live world-ItemLaws 1 (2 ∷ []) (text "outer") (some 2) start
      (λ u a n p e. no_cycle u a (only-Edge u a n p e).0 (only-Edge u a n p e).1)
      (λ u a t n w. omega (arith, few_steps u a w)) 1 1

abbrev filled_home : CloudAccount
filled_home = record home { used_storage = pos 70 }

release_storage-add_storage_example :
    (add_storage world filled_home (pos 8) start ≡ (ok tt, start))
    × (release_storage world
          (some (no_objects, record filled_home { used_storage = pos 78 }))
          (pos 8)
          start
        ≡ (ok tt, start))
    × (release_storage world (some (no_objects, filled_home)) (pos 8) start ≡ (ok tt, start))
release_storage-add_storage_example =
    release_storage-add_storage world filled_home no_objects 70 8 start refl (omega arith)
      (omega arith)

abbrev opened : State (List DriveItem)
opened = record { outside = two_rows; drivers = (1, no_objects) ∷ [] }

home_opens : driver_for_account world home start ≡ (ok no_objects, opened)
unfolding driver_for_account cache_driver cached build_driver get_credentials has_driver same
home_opens = rw (read-write_credentials no_credentials) refl

driver_for_account-cached_example :
    (cached 1 opened.drivers ≡ some no_objects)
    × (opened.outside ≡ two_rows)
    × (driver_for_account world home opened ≡ (ok no_objects, opened))
unfolding driver_for_account cache_driver cached build_driver get_credentials has_driver same
driver_for_account-cached_example =
    driver_for_account-cached world home start opened no_objects (omega arith) home_opens

get_driver_owned_example : (home.user_id ≡ 1) × (home.id ≡ 1) × (0 < 1)
unfolding get_driver driver_for_account cache_driver cached build_driver get_credentials has_driver
    same
get_driver_owned_example =
    get_driver_owned world 1 1 start opened no_objects home (λ q s a h. ground arith)
      (ground (arith, home_opens))
