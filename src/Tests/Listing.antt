-- ===== src/Tests/Listing.antt =====
-- Runs of the listing.
use ponta_drive_api.Base.{suc, ◌≡◌, refl, false, none, some, List, [], ◌∷◌, length, arith}
use ponta_drive_api.Base.Int.{pos}
use ponta_drive_api.Base.Text.{text}
use ponta_drive_api.Base.Order.{is_lt}
use ponta_drive_api.Models.{DriveItem, type_folder}
use ponta_drive_api.Listing.{
  by_name, by_size, by_updated_at, asc, desc, build_cursor_where, cursor_of, holds, compare_items,
}
use ponta_drive_api.Listing.Query.{Filter}
use ponta_drive_api.Listing.Keyset.{holds_iff_after}
use ponta_drive_api.Listing.Client.{walk, listing}
use ponta_drive_api.Listing.Walk.{walk_complete}
use ponta_drive_api.Base.{ℕ}
use ponta_drive_api.Listing.TimeCursor.{Right, four_rows_err}
use ponta_drive_api.Listing.NullCursor.{null_cursor_skips}
use ponta_drive_api.Tests.Server.{small_server, small_server-ServerLaws, item_at, file_at}
use ponta_drive_api.Tests.Codecs.{small_codec, small_codec-CursorCodecLaws}
use Prim.Native.Nat.{lt}

abbrev rows : List DriveItem
rows =
    file_at 1 none (text "b") 20 (some 5)
    ∷ item_at 2 none (text "photos") type_folder 0 (some 6)
    ∷ file_at 3 none (text "a") 20 (some 7)
    ∷ file_at 4 (some 2) (text "c") 10 (some 8)
    ∷ file_at 5 none (text "d") 7 (some 9)
    ∷ []

abbrev root_view : Filter
root_view = record {
  user_id = 1;
  cloud_account_id = 1;
  parent_id = some 0;
  search = [];
  item_type = [];
}

walk_complete_example :
    walk small_server small_codec rows root_view by_size desc
      (pos 2)
      (suc (length (listing small_server rows root_view by_size desc)))
      []
    ≡ some (listing small_server rows root_view by_size desc)
walk_complete_example =
    walk_complete small_server small_codec rows root_view by_size desc (pos 2)
      small_server-ServerLaws small_codec-CursorCodecLaws (ground arith) (ground arith) tt
      (ground arith)

holds_iff_after_example :
    holds small_server
      (build_cursor_where
        (cursor_of small_server (file_at 1 none (text "b") 20 none) by_name asc)
        by_name
        asc)
      (file_at 3 none (text "a") 20 none)
    ≡ is_lt (
        compare_items small_server by_name asc
          (file_at 1 none (text "b") 20 none)
          (file_at 3 none (text "a") 20 none))
holds_iff_after_example =
    holds_iff_after small_server small_server-ServerLaws by_name asc
      (file_at 1 none (text "b") 20 none) (file_at 3 none (text "a") 20 none) tt refl

abbrev changed_at : ℕ → DriveItem
changed_at n = file_at n none (text "x") 1 (some n)

four_rows_err_example : ¬ (
    Right small_server (text "2006-01-02 15:04:05") refl (λ t. refl) (changed_at 1) (changed_at 2)
    × Right small_server (text "2006-01-02 15:04:05") refl (λ t. refl) (changed_at 1) (changed_at 3)
    × Right small_server (text "2006-01-02 15:04:05") refl (λ t. refl) (changed_at 4) (changed_at 2)
    × Right small_server
        (text "2006-01-02 15:04:05")
        refl
        (λ t. refl)
        (changed_at 4)
        (changed_at 3))
four_rows_err_example =
    four_rows_err small_server (text "2006-01-02 15:04:05") refl (λ t. refl) (changed_at 1)
      (changed_at 2) (changed_at 3) (changed_at 4) 1 2 3 4 refl refl refl refl (refl, refl, refl)
      (omega arith) (omega arith) (omega arith)

null_cursor_skips_example :
    (compare_items small_server by_updated_at asc
        (file_at 7 none (text "x") 1 none)
        (file_at 3 none (text "y") 1 (some 9))
      ≡ lt)
    × (holds small_server
          (build_cursor_where
            (cursor_of small_server (file_at 7 none (text "x") 1 none) by_updated_at asc)
            by_updated_at
            asc)
          (file_at 3 none (text "y") 1 (some 9))
        ≡ false)
null_cursor_skips_example =
    null_cursor_skips small_server (file_at 7 none (text "x") 1 none)
      (file_at 3 none (text "y") 1 (some 9)) 9 refl refl refl (omega arith)
