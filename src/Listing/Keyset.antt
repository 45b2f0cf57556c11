-- ===== src/Listing/Keyset.antt =====
-- The condition of a cursor selects exactly the rows that the listing puts after it.
use ponta_drive_api.Base.{◌≡◌, refl, false, some, arith}
use ponta_drive_api.Base.Text.{is_empty}
use ponta_drive_api.Base.Decimal.{Fits, half_64, format_int_nonempty}
use ponta_drive_api.Base.Order.{
  IsOrder, is_lt, compare-IsOrder, compare_ℤ-IsOrder, compare_text-IsOrder, compare_null-IsOrder,
  flip-IsOrder, on-IsOrder, then_by-IsOrder,
}
use ponta_drive_api.Models.{DriveItem}
use ponta_drive_api.Listing.{
  Server, ServerLaws, Column, by_name, by_size, by_updated_at, by_created_at, Direction, asc, desc,
  build_cursor_where, cursor_value, cursor_of, against, holds, directed, compare_column,
  compare_items,
}

module _ (server : Server) where
  compare_column-IsOrder : (col : Column) → IsOrder (compare_column server col)
  unfolding compare_column
  compare_column-IsOrder by_name =
      on-IsOrder (λ (a : DriveItem). server.weight a.name) _ compare_text-IsOrder
  compare_column-IsOrder by_size = on-IsOrder (λ (a : DriveItem). a.size) _ compare_ℤ-IsOrder
  compare_column-IsOrder by_updated_at =
      on-IsOrder (λ (a : DriveItem). a.updated_at) _ compare_null-IsOrder
  compare_column-IsOrder by_created_at =
      on-IsOrder (λ (a : DriveItem). a.created_at) _ compare_null-IsOrder

  directed-IsOrder :
      (col : Column) (dir : Direction)
      → IsOrder (λ a b. directed server dir (compare_column server col a b))
  directed-IsOrder col asc = compare_column-IsOrder col
  directed-IsOrder col desc = flip-IsOrder _ (compare_column-IsOrder col)

  -- The order of the listing is total.
  pub compare_items-IsOrder :
      (col : Column) (dir : Direction) → IsOrder (compare_items server col dir)
  unfolding compare_items
  compare_items-IsOrder col dir =
      then_by-IsOrder _ _
        (flip-IsOrder _
          (on-IsOrder (λ (a : DriveItem). server.weight a.item_type) _ compare_text-IsOrder))
        (then_by-IsOrder _ _ (directed-IsOrder col dir)
          (on-IsOrder (λ (a : DriveItem). a.id) _ compare-IsOrder))

  -- The columns whose values a cursor carries: the times are not among them (TimeCursor).
  abbrev pub Carried : Column → Type 0
  Carried by_name = Unit
  Carried by_size = Unit
  Carried by_updated_at = ⊥
  Carried by_created_at = ⊥

  -- The row has a value in such a column, which the cursor can carry: the name is not empty, the size
  -- is an int64.
  abbrev pub HasValue : Column → DriveItem → Type 0
  HasValue by_name item = is_empty item.name ≡ false
  HasValue by_size item = Fits half_64 item.size
  HasValue by_updated_at item = Unit
  HasValue by_created_at item = Unit

  module _ (laws : ServerLaws server) where
    cursor_value_nonempty :
        (col : Column) (c : DriveItem)
        → Carried col
        → HasValue col c
        → is_empty (cursor_value server c col) ≡ false
    unfolding cursor_value
    cursor_value_nonempty by_name c k h = h
    cursor_value_nonempty by_size c k h = format_int_nonempty c.size
    cursor_value_nonempty by_updated_at c k h = absurd k
    cursor_value_nonempty by_created_at c k h = absurd k

    against_agrees :
        (col : Column) (c item : DriveItem)
        → Carried col
        → HasValue col c
        → against server col item (cursor_value server c col)
          ≡ some (compare_column server col item c)
    unfolding against cursor_value compare_column
    against_agrees by_name c item k h = refl
    against_agrees by_size c item k h = rw (laws.reads_int c.size h)
    against_agrees by_updated_at c item k h = absurd k
    against_agrees by_created_at c item k h = absurd k

    -- In a listing by name or by size, whose text the database reads back: a row passes the condition
    -- of a cursor exactly if it comes after the cursor's row, which has a name that is not empty, or a
    -- size that is an int64.
    pub holds_iff_after :
        (col : Column) (dir : Direction) (c item : DriveItem)
        → Carried col
        → HasValue col c
        → holds server (build_cursor_where (cursor_of server c col dir) col dir) item
          ≡ is_lt (compare_items server col dir c item)
    unfolding holds build_cursor_where cursor_of compare_items
    holds_iff_after col asc c item k hc = ground (
      arith,
      cursor_value_nonempty col c k hc,
      against_agrees col c item k hc,
      (compare_column-IsOrder col).flips c item,
      compare_text-IsOrder.flips (server.weight c.item_type) (server.weight item.item_type),
    )
    holds_iff_after col desc c item k hc = ground (
      arith,
      cursor_value_nonempty col c k hc,
      against_agrees col c item k hc,
      (compare_column-IsOrder col).flips c item,
      compare_text-IsOrder.flips (server.weight c.item_type) (server.weight item.item_type),
    )
