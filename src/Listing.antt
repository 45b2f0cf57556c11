-- ===== src/Listing.antt =====
-- The listing of a folder, page by page: app/services/drive_cursor.go, `ListItems` of
-- app/services/cloud_drive_service.go, and the part of `Index` of
-- app/http/controllers/drive_item_controller.go that pages it.
--
-- A query means what SQL says that it means. What the code hands to the database is kept as it
-- stands there: the condition of the cursor is a tree of the comparisons that its text spells, and
-- the values that it binds are texts, also for a size or a time.
pub mod Query
pub mod Keyset
pub mod Client
pub mod Walk
pub mod Shown
pub mod TimeCursor
pub mod NullCursor
use Prim.Native.Nat.{compare, Ordering, lt, eq, gt}
use ponta_drive_api.Base.{
  ℕ, ◌≡◌, Bool, true, false, ◌&&◌, ◌||◌, [], Option, none, some, ltb, ◌==◌, if◌then◌else◌,
}
use ponta_drive_api.Base.Int.{ℤ}
use ponta_drive_api.Base.Text.{Text, text, same, is_empty}
use ponta_drive_api.Base.Decimal.{format_int, Fits, half_64}
use ponta_drive_api.Base.Order.{
  compare_ℤ, compare_text, compare_null, flip, then_by, is_lt, is_eq, is_gt,
}
use ponta_drive_api.Models.{DriveItem}

-- What the database server and the time library do. `weight` is the sequence of weights by which
-- the collation of the columns compares texts, `like` is LIKE, `read_int` and `read_time` are the
-- casts of a bound text to the type of the column that it is compared with, and `format_time` is
-- carbon's `Format` with the layout that the code passes.
pub record Server : Type 0 where
  pub weight : Text → Text
  pub like : Text → Text → Bool
  pub read_int : Text → ℤ
  pub read_time : Text → ℕ
  pub format_time : ℕ → Text

-- A size is read back as it was written. Of times no such law is assumed: the layout that the code
-- passes to carbon's `Format` is that of Go, and none of its characters is a sign of carbon.
pub record ServerLaws (server : Server) : Type 0 where
  pub reads_int : (z : ℤ) → Fits half_64 z → server.read_int (format_int z) ≡ z

-- The columns of `sortColumns`, and the two directions.
pub data Column : Type 0 where
  by_name by_size by_updated_at by_created_at : Column

pub data Direction : Type 0 where
  asc desc : Direction

abbrev pub column_text : Column → Text
column_text by_name = text "name"
column_text by_size = text "size"
column_text by_updated_at = text "updated_at"
column_text by_created_at = text "created_at"

abbrev pub direction_text : Direction → Text
direction_text asc = text "asc"
direction_text desc = text "desc"

unfoldable pub normalize_sort_field : Text → Column
normalize_sort_field field =
    if same field (text "name")
    then by_name
    else if same field (text "size")
    then by_size
    else if same field (text "updated_at")
    then by_updated_at
    else if same field (text "created_at")
    then by_created_at
    else by_name

unfoldable pub normalize_sort_order : Text → Direction
normalize_sort_order order = if same order (text "desc") then desc else asc

pub record DriveCursor : Type 0 where
  pub type_ : Text
  pub value : Text
  pub id : ℕ
  pub sort : Text
  pub order : Text

-- `DriveCursor{}`
abbrev pub zero_cursor : DriveCursor
zero_cursor = record { type_ = []; value = []; id = 0; sort = []; order = [] }

unfoldable pub cursor_matches : DriveCursor → Column → Direction → Bool
cursor_matches c col dir = same c.sort (column_text col) && same c.order (direction_text dir)

-- The conditions that the code writes, with the values that they bind.
pub data Condition : Type 0 where
  type_lt type_eq : Text → Condition
  column_lt column_gt column_eq : Column → Text → Condition
  id_gt : ℕ → Condition
  both either : Condition → Condition → Condition

-- `cmp`, which the direction picks, between the column and the cursor's value
abbrev pub column_past : Direction → Column → Text → Condition
column_past asc = column_gt
column_past desc = column_lt

-- `BuildCursorWhere`
unfoldable pub build_cursor_where : DriveCursor → Column → Direction → Condition
build_cursor_where c col dir =
    let rest =
      if is_empty c.value
      then id_gt c.id
      else either (column_past dir col c.value) (both (column_eq col c.value) (id_gt c.id)) in
    either (type_lt c.type_) (both (type_eq c.type_) rest)

module _ (server : Server) where
  abbrev pub time_text : Option ℕ → Text
  time_text none = []
  time_text (some t) = server.format_time t

  -- `cursorValue`
  unfoldable pub cursor_value : DriveItem → Column → Text
  cursor_value item by_size = format_int item.size
  cursor_value item by_updated_at = time_text item.updated_at
  cursor_value item by_created_at = time_text item.created_at
  cursor_value item by_name = item.name

  -- The cursor that `EncodeDriveCursor` serialises.
  unfoldable pub cursor_of : DriveItem → Column → Direction → DriveCursor
  cursor_of item col dir = record {
    type_ = item.item_type;
    value = cursor_value item col;
    id = item.id;
    sort = column_text col;
    order = direction_text dir;
  }

  abbrev pub time_against : Option ℕ → Text → Option Ordering
  time_against none v = none
  time_against (some t) v = some (compare t (server.read_time v))

  -- A column of a row compared with a bound text; `none` is SQL's unknown, for a NULL.
  unfoldable pub against : Column → DriveItem → Text → Option Ordering
  against by_name item v = some (compare_text (server.weight item.name) (server.weight v))
  against by_size item v = some (compare_ℤ item.size (server.read_int v))
  against by_updated_at item v = time_against item.updated_at v
  against by_created_at item v = time_against item.created_at v

  abbrev pub known : (Ordering → Bool) → Option Ordering → Bool
  known p none = false
  known p (some o) = p o

  -- Whether a row passes a condition. The conditions hold no NOT, so unknown counts as false.
  unfoldable pub holds : Condition → DriveItem → Bool
  holds (type_lt v) item = is_lt (compare_text (server.weight item.item_type) (server.weight v))
  holds (type_eq v) item = is_eq (compare_text (server.weight item.item_type) (server.weight v))
  holds (column_lt col v) item = known is_lt (against col item v)
  holds (column_gt col v) item = known is_gt (against col item v)
  holds (column_eq col v) item = known is_eq (against col item v)
  holds (id_gt n) item = ltb n item.id
  holds (both c d) item = holds c item && holds d item
  holds (either c d) item = holds c item || holds d item

  -- The sort column of two rows.
  unfoldable pub compare_column : Column → DriveItem → DriveItem → Ordering
  compare_column by_name a b = compare_text (server.weight a.name) (server.weight b.name)
  compare_column by_size a b = compare_ℤ a.size b.size
  compare_column by_updated_at a b = compare_null a.updated_at b.updated_at
  compare_column by_created_at a b = compare_null a.created_at b.created_at

  abbrev pub directed : Direction → Ordering → Ordering
  directed asc o = o
  directed desc o = flip o

  -- ORDER BY type DESC, column direction, id ASC
  unfoldable pub compare_items : Column → Direction → DriveItem → DriveItem → Ordering
  compare_items col dir a b =
      then_by (flip (compare_text (server.weight a.item_type) (server.weight b.item_type)))
        (then_by (directed dir (compare_column col a b)) (compare a.id b.id))
