-- ===== src/Listing/NullCursor.antt =====
-- The cursor of a row whose timestamp is NULL. `BuildCursorWhere` drops the comparison of the
-- column for it, "leaving the id tier to carry the walk".
use Prim.Native.Nat.{lt, eq}
use ponta_drive_api.Base.{ℕ, ◌<◌, ◌≡◌, false, none, some, arith}
use ponta_drive_api.Base.Order.{compare_text, compare_text-IsOrder}
use ponta_drive_api.Models.{DriveItem}
use ponta_drive_api.Listing.{
  Server, by_updated_at, asc, build_cursor_where, cursor_value, cursor_of, against, holds,
  compare_column, compare_items,
}

pub compare_text_self :
    (server : Server) (c : DriveItem)
    → compare_text (server.weight c.item_type) (server.weight c.item_type) ≡ eq
compare_text_self server c =
    ground
      (arith, compare_text-IsOrder.flips (server.weight c.item_type) (server.weight c.item_type))

-- A row behind a cursor whose timestamp is NULL is lost, when it is of the same type, has a
-- timestamp and a smaller id: in ascending order the listing puts it after the cursor's row, and
-- the condition of the cursor rejects it.
pub null_cursor_skips :
    (server : Server) (c item : DriveItem) (t : ℕ)
    → c.updated_at ≡ none
    → item.updated_at ≡ some t
    → item.item_type ≡ c.item_type
    → item.id < c.id
    → (compare_items server by_updated_at asc c item ≡ lt)
      × (holds server
            (build_cursor_where (cursor_of server c by_updated_at asc) by_updated_at asc)
            item
          ≡ false)
unfolding compare_items compare_column holds build_cursor_where cursor_of cursor_value against
null_cursor_skips server c item t no_time timed kind older =
    ground (arith, compare_text_self server c)
