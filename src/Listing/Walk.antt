-- ===== src/Listing/Walk.antt =====
-- A client that follows `next_cursor` from the first page sees the whole listing, once.
use mathlib.Core.List.{Perm}
use ponta_drive_api.Base.{
  ℕ, zero, suc, ◌≤◌, ◌<◌, ◌≡◌, refl, sym, ap, fun_ext, subst, ◌∙◌, true, false, some, List, [], ◌∷◌,
  ◌++◌, append_assoc, arith, select, take, drop, length, last?, ltb, Bool-cases, inl, inr,
  take-append-drop, length-drop, take_all, length-take, take-take-suc,
}
use ponta_drive_api.Base.Int.{ℤ, pos}
use ponta_drive_api.Base.Text.{Text, is_empty}
use ponta_drive_api.Base.Order.Sort.{
  All, All-select, All-map, All-zip, All-sort, All-append_right, Distinct, Distinct-select, Sorted,
  sort, sort-Sorted, sort-perm, select-sort, select_after, select_congr, select_all, last_of,
}
use ponta_drive_api.Base.Order.{is_lt}
use ponta_drive_api.Models.{DriveItem}
use ponta_drive_api.Listing.{
  Server, ServerLaws, Column, Direction, DriveCursor, zero_cursor, cursor_of, compare_items,
}
use ponta_drive_api.Listing.Query.{
  Filter, filter_holds, past_cursor, list_items, CursorCodec, CursorCodecLaws, decode_drive_cursor,
  page, page_limit, page_of, index_page,
}
use ponta_drive_api.Listing.Keyset.{Carried, HasValue, holds_iff_after, compare_items-IsOrder}
use ponta_drive_api.Listing.Client.{
  walk, UniqueIds, listing, page_limit_bounds, limit_succ, Distinct-items, past_own_cursor,
  past_zero_cursor,
}

module _ (server : Server) (laws : ServerLaws server) (codec : CursorCodec)
    (codec_laws : CursorCodecLaws codec) (rows : List DriveItem) (f : Filter) (col : Column)
    (dir : Direction) (ids : UniqueIds rows) (saved : All (λ x. 0 < x.id) rows)
    (carried : Carried server col)
    (valued : All (HasValue server col) (select (filter_holds server f) rows)) where
  abbrev matching : List DriveItem
  matching = select (filter_holds server f) rows

  abbrev whole : List DriveItem
  whole = listing server rows f col dir

  distinct : Distinct (compare_items server col dir) matching
  distinct =
      Distinct-select (compare_items server col dir) (filter_holds server f) rows
        (Distinct-items server col dir rows ids)

  -- What a cursor leaves of the listing.
  abbrev left_by : DriveCursor → List DriveItem
  left_by cursor =
      sort (compare_items server col dir) (select (past_cursor server col dir cursor) matching)

  left_by-zero : left_by zero_cursor ≡ whole
  left_by-zero =
      ap (sort (compare_items server col dir))
        (rw (fun_ext (past_zero_cursor server col dir)) (select_all matching))

  facts : All (λ x. (0 < x.id) × HasValue server col x) whole
  facts =
      All-sort (compare_items server col dir) (λ x. (0 < x.id) × HasValue server col x) matching
        (All-zip (λ x. 0 < x.id) (HasValue server col) matching
          (All-select (λ x. 0 < x.id) (filter_holds server f) rows saved) valued)

  place :
      (before : List DriveItem) (c : DriveItem) (rest : List DriveItem)
      → whole ≡ before ++ c ∷ rest
      → (0 < c.id) × HasValue server col c
  place before c rest e =
      let P = λ (x : DriveItem). (0 < x.id) × HasValue server col x in
      (All-append_right P before (c ∷ rest) (subst (All P) e facts)).0

  left_by-cursor_of :
      (before : List DriveItem) (c : DriveItem) (rest : List DriveItem)
      → whole ≡ before ++ c ∷ rest
      → left_by (cursor_of server c col dir) ≡ rest
  left_by-cursor_of before c rest e =
      let cmp = compare_items server col dir in
      let order = compare_items-IsOrder server col dir in
      let (saved_c, valued_c) = place before c rest e in
      let past = past_cursor server col dir (cursor_of server c col dir) in
      sym (select-sort cmp order past matching distinct)
      ∙ select_congr past (λ x. is_lt (cmp c x)) whole
          (All-map (λ x. (0 < x.id) × HasValue server col x) (λ x. past x ≡ is_lt (cmp c x))
            (λ x h.
              past_own_cursor server col dir c x saved_c
              ∙ holds_iff_after server laws col dir c x carried valued_c)
            whole facts)
      ∙ ap (select (λ x. is_lt (cmp c x))) e
      ∙ select_after cmp order before c rest
          (subst (Sorted cmp) e (sort-Sorted cmp order matching distinct))

  -- A token stands for a place in the listing: what it leaves is the rest from there.
  abbrev Stands : Text → List DriveItem → Type 0
  Stands token rest =
      (cursor : DriveCursor) × (decode_drive_cursor codec token ≡ some cursor)
      × (left_by cursor ≡ rest)
      × (before : List DriveItem) × (whole ≡ before ++ rest)

  Stands-start : Stands [] whole
  unfolding decode_drive_cursor
  Stands-start = (zero_cursor, refl, left_by-zero, [], refl)

  index_page-Stands :
      (limit : ℤ) (n : ℕ) (token : Text) (rest : List DriveItem)
      → page_limit limit ≡ pos (suc n)
      → Stands token rest
      → index_page server codec (some rows) f col dir limit token
        ≡ page_of server codec (suc n) col dir (some (take (suc (suc n)) rest))
  unfolding index_page list_items
  index_page-Stands limit n token rest e (cursor, d, l, _, _) =
      rw (e, d) (rw (limit_succ n) (rw l refl))

  -- The last page: all that is left fits.
  last_page :
      (n : ℕ) (rest : List DriveItem)
      → length rest ≤ suc n
      → page_of server codec (suc n) col dir (some (take (suc (suc n)) rest))
        ≡ page (record { items = rest; has_more = false; next_cursor = [] })
  unfolding page_of
  last_page n rest h =
      let none_left : ltb (suc n) (length rest) ≡ false = ground arith in
      rw (take_all (suc (suc n)) rest (omega arith)) (rw none_left refl)

  decodes :
      (t : Text) (item : DriveItem)
      → is_empty t ≡ false
      → 0 < item.id
      → codec.decode t ≡ some (cursor_of server item col dir)
      → decode_drive_cursor codec t ≡ some (cursor_of server item col dir)
  unfolding decode_drive_cursor cursor_of
  decodes t item filled saved_item decoded = rw (filled, decoded) (ground arith)

  token_position :
      (before shown rest : List DriveItem) (item : DriveItem)
      → whole ≡ before ++ (shown ++ item ∷ rest)
      → (t : Text) × (codec.encode (cursor_of server item col dir) ≡ some t)
        × (is_empty t ≡ false)
        × Stands t rest
  token_position before shown rest item e =
      let whole_at : whole ≡ (before ++ shown) ++ item ∷ rest = simp append_assoc e in
      let (t, encoded, decoded, filled) = codec_laws.round_trip (cursor_of server item col dir) in
      let (saved_item, _) = place (before ++ shown) item rest whole_at in
      (
        t,
        encoded,
        filled,
        (
          cursor_of server item col dir,
          decodes t item filled saved_item decoded,
          left_by-cursor_of (before ++ shown) item rest whole_at,
          before ++ (shown ++ item ∷ []),
          simp append_assoc e,
        ),
      )

  page_before_last :
      (n : ℕ) (rest : List DriveItem) (item : DriveItem) (t : Text)
      → suc n < length rest
      → last? (take (suc n) rest) ≡ some item
      → codec.encode (cursor_of server item col dir) ≡ some t
      → page_of server codec (suc n) col dir (some (take (suc (suc n)) rest))
        ≡ page (record { items = take (suc n) rest; has_more = true; next_cursor = t })
  unfolding page_of
  page_before_last n rest item t h last encoded =
      let full : length (take (suc (suc n)) rest) ≡ suc (suc n) =
        length-take (suc (suc n)) rest (omega arith) in
      let more : ltb (suc n) (length (take (suc (suc n)) rest)) ≡ true = ground arith in
      rw more (rw (take-take-suc (suc n) rest) (rw last (rw encoded refl)))

  -- A page that is not the last: its items, and a token for what follows them.
  middle_page :
      (n : ℕ) (rest : List DriveItem) (token : Text)
      → suc n < length rest
      → Stands token rest
      → (t : Text) × (is_empty t ≡ false)
        × Stands t (drop (suc n) rest)
        × (page_of server codec (suc n) col dir (some (take (suc (suc n)) rest))
            ≡ page (record { items = take (suc n) rest; has_more = true; next_cursor = t }))
  middle_page n (x ∷ xs) token h (_, _, _, before, e) =
      let (shown, item, split, last) = last_of x (take n xs) in
      let whole_at : whole ≡ before ++ (shown ++ item ∷ drop n xs) =
        e
        ∙ ap (λ t. before ++ t)
            (sym (take-append-drop (suc n) (x ∷ xs))
              ∙ ap (λ t. t ++ drop n xs) split
              ∙ append_assoc shown (item ∷ []) (drop n xs)) in
      let (t, encoded, filled, stands) = token_position before shown (drop n xs) item whole_at in
      (t, filled, stands, page_before_last n (x ∷ xs) item t h last encoded)
  middle_page n [] token h s = absurd (omega arith)

  walk_from :
      (limit : ℤ) (fuel : ℕ) (token : Text) (rest : List DriveItem)
      → length rest < fuel
      → Stands token rest
      → walk server codec rows f col dir limit fuel token ≡ some rest
  unfolding walk
  walk_from limit zero token rest h s = absurd (omega arith)
  walk_from limit (suc fuel) token rest h s =
      let (n, e, _) = page_limit_bounds limit in
      let here = index_page-Stands limit n token rest e s in
      elim (Bool-cases (ltb (suc n) (length rest))) [
        | inl more ↦
            let longer : suc n < length rest = ground arith in
            let (t, filled, stands, shown) = middle_page n rest token longer s in
            let later =
              walk_from limit fuel t (drop (suc n) rest) (omega (arith, length-drop (suc n) rest))
                stands in
            rw here (rw shown (rw (filled, later) (ap some (take-append-drop (suc n) rest))))
        | inr none_left ↦ rw here (rw (last_page n rest (ground arith)) refl)
      ]

-- Paging by name or by size is complete and repeats nothing. Take any rows with distinct positive
-- ids, any filter, direction and limit parameter, and let every row that passes the filter have a
-- name that is not empty, or a size that is an int64. A client that starts without a cursor and
-- follows `next_cursor` until there is none gets, once its pages are put together, exactly the rows
-- that pass the filter, in the order of the listing; one page more than there are such rows is always
-- enough. The database reads back the text of a size, and a token decodes to its cursor.
pub walk_complete :
    (server : Server) (codec : CursorCodec) (rows : List DriveItem) (f : Filter) (col : Column)
    (dir : Direction) (limit : ℤ)
    → ServerLaws server
    → CursorCodecLaws codec
    → UniqueIds rows
    → All (λ x. 0 < x.id) rows
    → Carried server col
    → All (HasValue server col) (select (filter_holds server f) rows)
    → walk server codec rows f col dir limit (suc (length (listing server rows f col dir))) []
      ≡ some (listing server rows f col dir)
walk_complete server codec rows f col dir limit laws codec_laws ids saved carried valued =
    walk_from server laws codec codec_laws rows f col dir ids saved carried valued limit
      (suc (length (listing server rows f col dir))) [] (listing server rows f col dir)
      (omega arith)
      (Stands-start server laws codec codec_laws rows f col dir ids saved carried valued)

-- The listing holds the rows that pass the filter, each as often as the table does.
pub listing-perm :
    (server : Server) (rows : List DriveItem) (f : Filter) (col : Column) (dir : Direction)
    → Perm (listing server rows f col dir) (select (filter_holds server f) rows)
listing-perm server rows f col dir =
    sort-perm (compare_items server col dir) (select (filter_holds server f) rows)
