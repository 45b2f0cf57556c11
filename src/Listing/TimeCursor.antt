-- ===== src/Listing/TimeCursor.antt =====
-- A listing by a time, whose cursors all carry the same text: `cursorValue` of
-- app/services/drive_cursor.go passes a layout of Go to carbon's `Format`.
use ponta_drive_api.Listing.NullCursor.{compare_text_self}
use ponta_drive_api.Base.{◌≤◌, ℕ, ◌<◌, ◌≡◌, sym, ◌∙◌, false, some, arith}
use ponta_drive_api.Base.Text.{Text, is_empty}
use ponta_drive_api.Base.Order.{is_lt}
use ponta_drive_api.Models.{DriveItem}
use ponta_drive_api.Listing.{
  Server, by_updated_at, asc, build_cursor_where, cursor_of, cursor_value, against, holds,
  compare_items, compare_column,
}

module _ (server : Server) (v : Text) (filled : is_empty v ≡ false)
    (constant : (t : ℕ) → server.format_time t ≡ v) where
  -- Whether the condition of a cursor on `c` says of `x` what the order of the listing says.
  abbrev pub Right : DriveItem → DriveItem → Type 0
  Right c x =
      holds server (build_cursor_where (cursor_of server c by_updated_at asc) by_updated_at asc) x
      ≡ is_lt (compare_items server by_updated_at asc c x)

  -- A row that was changed after the cursor's is taken only if it was not changed before the time that
  -- the text is read as.
  later :
      (c x : DriveItem) (s t : ℕ)
      → c.updated_at ≡ some s
      → x.updated_at ≡ some t
      → x.item_type ≡ c.item_type
      → s < t
      → Right c x
      → server.read_time v ≤ t
  unfolding compare_items compare_column holds build_cursor_where cursor_of cursor_value against
  later c x s t sc tx kind order right = ground (arith, compare_text_self server c, constant s)

  -- A row that was changed before the cursor's is left out only if it was not changed after it.
  earlier :
      (c x : DriveItem) (s t : ℕ)
      → c.updated_at ≡ some s
      → x.updated_at ≡ some t
      → x.item_type ≡ c.item_type
      → t < s
      → Right c x
      → t ≤ server.read_time v
  unfolding compare_items compare_column holds build_cursor_where cursor_of cursor_value against
  earlier c x s t sc tx kind order right = ground (arith, compare_text_self server c, constant s)

  -- Where `Format` gives the same text for every time, and it is not empty: of any four rows of one
  -- type that were changed one after another, the condition of a cursor on the first or on the last,
  -- in an ascending listing by the time of the last change, is wrong about one of the two in between.
  pub four_rows_err :
      (a b c d : DriveItem) (ta tb tc td : ℕ)
      → a.updated_at ≡ some ta
      → b.updated_at ≡ some tb
      → c.updated_at ≡ some tc
      → d.updated_at ≡ some td
      → (b.item_type ≡ a.item_type) × (c.item_type ≡ a.item_type) × (d.item_type ≡ a.item_type)
      → ta < tb
      → tb < tc
      → tc < td
      → ¬ (Right a b × Right a c × Right d b × Right d c)
  four_rows_err a b c d ta tb tc td at bt ct dt (kb, kc, kd) ab bc cd (r1, r2, r3, r4) =
      let low : server.read_time v ≤ tb = later a b ta tb at bt kb ab r1 in
      let high : tc ≤ server.read_time v = earlier d c td tc dt ct (kc ∙ sym kd) cd r4 in
      absurd (omega arith)
