-- ===== src/Listing/Query.antt =====
-- `ListItems`, and the page that `Index` makes of its rows.
use ponta_drive_api.Base.{
  ℕ, ◌≡◌, Bool, true, false, not, ◌&&◌, ◌||◌, Option, none, some, List, [], ◌∷◌, ◌++◌, length, take,
  last?, select, ltb, ◌==◌, if◌then◌else◌,
}
use ponta_drive_api.Base.Int.{ℤ, pos, pos_part, ◌+ℤ◌, ltb_ℤ, leb_ℤ}
use ponta_drive_api.Base.Text.{Text, same, is_empty, trim_space}
use ponta_drive_api.Base.Order.Sort.{sort}
use ponta_drive_api.Models.{DriveItem, type_folder, type_file}
use ponta_drive_api.Listing.{
  Server, Column, Direction, DriveCursor, zero_cursor, cursor_matches, build_cursor_where,
  cursor_of, holds, compare_items,
}

-- What a request asks for, its cursor and limit apart.
pub record Filter : Type 0 where
  pub user_id : ℕ
  pub cloud_account_id : ℕ
  pub parent_id : Option ℕ
  pub search : Text
  pub item_type : Text

-- parent_id IS NULL, parent_id = n
abbrev pub in_folder : Option ℕ → DriveItem → Bool
in_folder none item = elim item.parent_id [ none ↦ true | some n ↦ false ]
in_folder (some p) item = elim item.parent_id [ none ↦ false | some n ↦ n == p ]

-- `parentID == nil || *parentID == 0` is the root.
abbrev pub folder_in_view : Option ℕ → Option ℕ
folder_in_view none = none
folder_in_view (some p) = if p == 0 then none else some p

-- The bound of LIKE, `"%" + term + "%"`
abbrev pub pattern_of : Text → Text
pattern_of term = b'%' ∷ (term ++ b'%' ∷ [])

-- The conditions that do not come from the cursor.
unfoldable pub filter_holds : Server → Filter → DriveItem → Bool
filter_holds server f item =
    let term = trim_space f.search in
    item.user_id == f.user_id
    && item.cloud_account_id == f.cloud_account_id
    && (if not (is_empty term)
        then server.like item.name (pattern_of term)
        else in_folder (folder_in_view f.parent_id) item)
    && (if same f.item_type type_folder || same f.item_type type_file
        then same item.item_type f.item_type
        else true)

-- The rows past the cursor, or all of them where it is not used.
unfoldable pub past_cursor : Server → Column → Direction → DriveCursor → DriveItem → Bool
past_cursor server col dir cursor item =
    if ltb 0 cursor.id && cursor_matches cursor col dir
    then holds server (build_cursor_where cursor col dir) item
    else true

abbrev pub limit_or_default : ℤ → ℤ
limit_or_default limit = if leb_ℤ limit (pos 0) then pos 50 else limit

-- `ListItems` over the live rows of `drive_items`; `none` is a failed query.
unfoldable pub list_items :
    Server
    → Option (List DriveItem)
    → Filter
    → Column
    → Direction
    → DriveCursor
    → ℤ
    → Option (List DriveItem)
list_items server none f col dir cursor limit = none
list_items server (some rows) f col dir cursor limit = some (
    take (pos_part (limit_or_default limit)) (
      sort (compare_items server col dir)
        (select (past_cursor server col dir cursor) (select (filter_holds server f) rows))))

-- The token of a cursor: base64 over JSON.
pub record CursorCodec : Type 0 where
  pub encode : DriveCursor → Option Text
  pub decode : Text → Option DriveCursor

-- Every cursor has a token, which is not empty and is read back.
pub record CursorCodecLaws (codec : CursorCodec) : Type 0 where
  pub round_trip :
      (c : DriveCursor)
      → (t : Text) × (codec.encode c ≡ some t) × (codec.decode t ≡ some c) × (is_empty t ≡ false)

-- A decoded cursor must hold an id.
unfoldable pub with_id : Option DriveCursor → Option DriveCursor
with_id none = none
with_id (some c) = if c.id == 0 then none else some c

-- `DecodeDriveCursor`; `none` is its error.
unfoldable pub decode_drive_cursor : CursorCodec → Text → Option DriveCursor
unfolding with_id
decode_drive_cursor codec raw =
    if is_empty raw then some zero_cursor else with_id (codec.decode raw)

pub record Page : Type 0 where
  pub items : List DriveItem
  pub has_more : Bool
  pub next_cursor : Text

pub data IndexResult : Type 0 where
  page : Page → IndexResult
  invalid_cursor list_failed : IndexResult

-- Default 50, at most 100.
unfoldable pub page_limit : ℤ → ℤ
page_limit limit =
    let positive = if leb_ℤ limit (pos 0) then pos 50 else limit in
    if ltb_ℤ (pos 100) positive then pos 100 else positive

-- A page, where its cursor could be encoded.
unfoldable pub page_with : List DriveItem → Bool → Option Text → IndexResult
page_with items has_more none = list_failed
page_with items has_more (some token) =
    page (record { items = items; has_more = has_more; next_cursor = token })

module _ (server : Server) (codec : CursorCodec) where
  abbrev pub token_after : Option DriveItem → Column → Direction → Option Text
  token_after none col dir = some []
  token_after (some item) col dir = codec.encode (cursor_of server item col dir)

  -- The cursor of the last item of a page that is not the last page.
  unfoldable pub next_token : List DriveItem → Column → Direction → Bool → Option Text
  next_token items col dir false = some []
  next_token items col dir true = token_after (last? items) col dir

  unfoldable pub page_of : ℕ → Column → Direction → Option (List DriveItem) → IndexResult
  unfolding page_with next_token
  page_of limit col dir none = list_failed
  page_of limit col dir (some items) =
      let has_more = ltb limit (length items) in
      let shown = if has_more then take limit items else items in
      page_with shown has_more (next_token shown col dir has_more)

  unfoldable pub page_at :
      Option (List DriveItem) → Filter → Column → Direction → ℤ → Option DriveCursor → IndexResult
  page_at rows f col dir limit none = invalid_cursor
  page_at rows f col dir limit (some cursor) =
      page_of (pos_part limit) col dir (list_items server rows f col dir cursor (limit +ℤ pos 1))

  -- `Index` from the point where its parameters are read, at a query string's limit and cursor.
  unfoldable pub index_page :
      Option (List DriveItem) → Filter → Column → Direction → ℤ → Text → IndexResult
  unfolding page_at
  index_page rows f col dir limit raw =
      page_at rows f col dir (page_limit limit) (decode_drive_cursor codec raw)
