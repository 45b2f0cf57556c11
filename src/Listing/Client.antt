-- ===== src/Listing/Client.antt =====
-- A client that pages through a listing, and the listing that it is to see: the loop over
-- `next_cursor`, for `Index` of app/http/controllers/drive_item_controller.go.
use Prim.Native.Nat.{compare, eq}
use ponta_drive_api.Base.{
  ℕ, zero, suc, ◌-◌, ◌<◌, ◌≡◌, ◌≢◌, true, Option, none, some, List, [], ◌∷◌, ◌++◌, arith, select,
  if◌then◌else◌,
}
use ponta_drive_api.Base.Int.{ℤ, pos, pos_part, ◌+ℤ◌}
use ponta_drive_api.Base.Text.{Text, is_empty, same_refl}
use ponta_drive_api.Base.Order.Sort.{All-map, Distinct, sort}
use ponta_drive_api.Models.{DriveItem}
use ponta_drive_api.Listing.{
  Server, Column, Direction, zero_cursor, cursor_matches, cursor_of, holds, build_cursor_where,
  compare_items,
}
use ponta_drive_api.Listing.Query.{
  Filter, filter_holds, past_cursor, CursorCodec, IndexResult, page, invalid_cursor, list_failed,
  page_limit, index_page, limit_or_default,
}

-- What a client does with a page: it asks for the next one while there is a cursor.
abbrev pub follow : IndexResult → (Text → Option (List DriveItem)) → Option (List DriveItem)
follow (page p) rest =
    if is_empty p.next_cursor
    then some p.items
    else elim (rest p.next_cursor) [ none ↦ none | some items ↦ some (p.items ++ items) ]
follow invalid_cursor rest = none
follow list_failed rest = none

-- The items of all pages, with fuel for the number of pages.
unfoldable pub walk :
    Server
    → CursorCodec
    → List DriveItem
    → Filter
    → Column
    → Direction
    → ℤ
    → ℕ
    → Text
    → Option (List DriveItem)
walk server codec rows f col dir limit zero token = none
walk server codec rows f col dir limit (suc fuel) token =
    follow (index_page server codec (some rows) f col dir limit token)
      (walk server codec rows f col dir limit fuel)

-- No two rows share an id.
abbrev pub UniqueIds : List DriveItem → Type 0
UniqueIds = Distinct (λ a b. compare a.id b.id)

-- The rows that a filter selects, in the order of the listing.
abbrev pub listing : Server → List DriveItem → Filter → Column → Direction → List DriveItem
listing server rows f col dir =
    sort (compare_items server col dir) (select (filter_holds server f) rows)

pub page_limit_bounds : (l : ℤ) → (n : ℕ) × (page_limit l ≡ pos (suc n)) × (n < 100)
unfolding page_limit
page_limit_bounds l = (pos_part (page_limit l) - 1, ground arith, ground arith)

pub limit_succ : (n : ℕ) → pos_part (limit_or_default (pos (suc n) +ℤ pos 1)) ≡ suc (suc n)
unfolding ◌+ℤ◌
limit_succ n = ground arith

module _ (server : Server) (col : Column) (dir : Direction) where
  differ_by_id : (a b : DriveItem) → compare a.id b.id ≢ eq → compare_items server col dir a b ≢ eq
  unfolding compare_items
  differ_by_id a b h = ground arith

  pub Distinct-items :
      (xs : List DriveItem) → UniqueIds xs → Distinct (compare_items server col dir) xs
  Distinct-items [] h = tt
  Distinct-items (x ∷ xs) h = (
    All-map (λ y. compare x.id y.id ≢ eq) (λ y. compare_items server col dir x y ≢ eq)
        (differ_by_id x) xs h.0,
    Distinct-items xs h.1,
  )

  pub past_own_cursor :
      (c x : DriveItem)
      → 0 < c.id
      → past_cursor server col dir (cursor_of server c col dir) x
        ≡ holds server (build_cursor_where (cursor_of server c col dir) col dir) x
  unfolding past_cursor cursor_matches cursor_of
  past_own_cursor c x h = simp same_refl (ground arith)

  pub past_zero_cursor : (x : DriveItem) → past_cursor server col dir zero_cursor x ≡ true
  unfolding past_cursor
  past_zero_cursor x = ground arith
