-- ===== src/Tests/Reading.antt =====
-- A run of a download.
use ponta_drive_api.Base.{◌≡◌, refl, arith, inl, inr, none, List, [], ◌∷◌, ◌==◌, Bool-cases, ==_iff}
use ponta_drive_api.Base.Text.{text, same}
use ponta_drive_api.Models.{DriveItem}
use ponta_drive_api.Service.{State, ok}
use ponta_drive_api.Service.Factory.{cached, driver_for_account, get_driver}
use ponta_drive_api.Service.Items.{get_item_by_uuid}
use ponta_drive_api.Service.Downloads.{open_file, get_presigned_download_url}
use ponta_drive_api.Service.Drivers.{Answers}
use ponta_drive_api.Service.Reading.{IsOwnFile, reads_own_files}
use ponta_drive_api.Tests.Server.{file_at}
use ponta_drive_api.Tests.World.{world, world-ItemLaws, no_objects, first_of}

items_answer : Answers (λ i. i.id) world.items
items_answer q s a h = elim (Bool-cases (a.id == 0)) [
  | inl zero_id ↦ inl ((==_iff a.id 0).0 zero_id)
  | inr saved ↦ inr (world-ItemLaws.meets q s a h (ground arith)).0
]

abbrev song : DriveItem
song = file_at 3 none (text "song") 9 none

abbrev ready : State (List DriveItem)
ready = record { outside = song ∷ []; drivers = (1, no_objects) ∷ [] }

signs : get_presigned_download_url world 1 (3 ∷ []) 60 ready ≡ (ok (text "https://a", song), ready)
unfolding get_presigned_download_url open_file get_item_by_uuid get_driver driver_for_account cached
    first_of same
signs = refl

reads_own_files_example : IsOwnFile 1 (3 ∷ []) song
reads_own_files_example =
    reads_own_files world 1 (3 ∷ []) 60 ready ready (text "https://a") song items_answer (inl signs)
