-- ===== src/Listing/Shown.antt =====
-- What a page of a listing shows.
use ponta_drive_api.Base.{
  ℕ, zero, suc, ◌≤◌, ◌≡◌, refl, subst, Memᴰ, Bool, true, Option, none, some, List, [], ◌∷◌, take,
  length, length-take-le, select, arith, Bool-cases, inl, inr, if◌then◌else◌, ltb,
}
use ponta_drive_api.Base.Int.{ℤ, pos, pos_part, ◌+ℤ◌}
use ponta_drive_api.Base.Text.{Text}
use ponta_drive_api.Base.Order.Sort.{All, All-map, All-zip, All-select, All-sort, sort}
use ponta_drive_api.Models.{DriveItem}
use ponta_drive_api.Listing.{Server, Column, Direction, DriveCursor, compare_items}
use ponta_drive_api.Listing.Query.{
  Filter, filter_holds, past_cursor, list_items, CursorCodec, Page, IndexResult, page,
  invalid_cursor, list_failed, index_page, page_limit, page_of, page_at, page_with, next_token,
  limit_or_default, decode_drive_cursor,
}
use ponta_drive_api.Listing.Client.{page_limit_bounds}

module _ {A : Type 0} where
  All-take : (P : A → Type 0) (n : ℕ) (xs : List A) → All P xs → All P (take n xs)
  All-take P zero xs h = tt
  All-take P (suc n) [] h = tt
  All-take P (suc n) (x ∷ xs) h = (h.0, All-take P n xs h.1)

  All-self : (xs : List A) → All (λ x. Memᴰ x xs) xs
  All-self [] = tt
  All-self (x ∷ xs) = (
    Memᴰ.head refl,
    All-map (λ y. Memᴰ y xs) (λ y. Memᴰ y (x ∷ xs)) (λ y m. Memᴰ.tail m) xs (All-self xs),
  )

  pub select_holds : (p : A → Bool) (xs : List A) → All (λ x. p x ≡ true) (select p xs)
  select_holds p [] = tt
  select_holds p (x ∷ xs) = elim (Bool-cases (p x)) [
    | inl e ↦ rw e (e, select_holds p xs)
    | inr e ↦ rw e (select_holds p xs)
  ]

pub filter_holds-owner :
    (server : Server) (f : Filter) (x : DriveItem)
    → filter_holds server f x ≡ true
    → (x.user_id ≡ f.user_id) × (x.cloud_account_id ≡ f.cloud_account_id)
unfolding filter_holds
filter_holds-owner server f x h = (ground arith, ground arith)

module _ (server : Server) (codec : CursorCodec) where
  -- A row of the table that meets the conditions of the query.
  abbrev pub Wanted : List DriveItem → Filter → DriveItem → Type 0
  Wanted rows f x = Memᴰ x rows × (filter_holds server f x ≡ true)

  list_items-Wanted :
      (rows : List DriveItem) (f : Filter) (col : Column) (dir : Direction) (cursor : DriveCursor)
      (limit : ℤ) (items : List DriveItem)
      → list_items server (some rows) f col dir cursor limit ≡ some items
      → All (Wanted rows f) items
  unfolding list_items
  list_items-Wanted rows f col dir cursor limit items e =
      let matching = select (filter_holds server f) rows in
      let wanted =
        All-zip (λ x. Memᴰ x rows) (λ x. filter_holds server f x ≡ true) matching
          (All-select (λ x. Memᴰ x rows) (filter_holds server f) rows (All-self rows))
          (select_holds (filter_holds server f) rows) in
      let left = select (past_cursor server col dir cursor) matching in
      let here =
        All-take (Wanted rows f) (pos_part (limit_or_default limit))
          (sort (compare_items server col dir) left)
          (All-sort (compare_items server col dir) (Wanted rows f) left
            (All-select (Wanted rows f) (past_cursor server col dir cursor) matching wanted)) in
      subst (λ o. elim o [ none ↦ Unit | some ys ↦ All (Wanted rows f) ys ]) e here

  page_with-items :
      (P : DriveItem → Type 0) (limit : ℕ) (items : List DriveItem) (has_more : Bool)
      (token : Option Text) (p : Page)
      → All P items × (length items ≤ limit)
      → page_with items has_more token ≡ page p
      → All P p.items × (length p.items ≤ limit)
  unfolding page_with
  page_with-items P limit items has_more none p h e = absurd cc
  page_with-items P limit items has_more (some token) p h e =
      subst
        (λ (r : IndexResult). elim r [
          | page q ↦ All P q.items × (length q.items ≤ limit)
          | invalid_cursor ↦ Unit
          | list_failed ↦ Unit
        ])
        e h

  -- What a page shows is the front of what the query answers with.
  page_of-front :
      (P : DriveItem → Type 0) (limit : ℕ) (col : Column) (dir : Direction) (items : List DriveItem)
      (p : Page)
      → All P items
      → page_of server codec limit col dir (some items) ≡ page p
      → All P p.items × (length p.items ≤ limit)
  unfolding page_of
  page_of-front P limit col dir items p h =
      let shown = if ltb limit (length items) then take limit items else items in
      let fits : All P shown × (length shown ≤ limit) =
        elim (Bool-cases (ltb limit (length items))) [
          | inl more ↦ rw more (All-take P limit items h, length-take-le limit items)
          | inr all ↦ rw all (h, ground arith)
        ] in
      page_with-items P limit shown (ltb limit (length items))
        (next_token server codec shown col dir (ltb limit (length items))) p fits

  page_at-Wanted :
      (answered : Option (List DriveItem)) (f : Filter) (col : Column) (dir : Direction) (limit : ℤ)
      (cursor : Option DriveCursor) (p : Page)
      → page_at server codec answered f col dir limit cursor ≡ page p
      → (rows : List DriveItem) × (answered ≡ some rows)
        × All (Wanted rows f) p.items
        × (length p.items ≤ pos_part limit)
  unfolding page_at page_of list_items
  page_at-Wanted answered f col dir limit none p e = absurd cc
  page_at-Wanted none f col dir limit (some cursor) p e = absurd cc
  page_at-Wanted (some rows) f col dir limit (some cursor) p e =
      let (wanted, short) =
        page_of-front (Wanted rows f) (pos_part limit) col dir _ p
          (list_items-Wanted rows f col dir cursor (limit +ℤ pos 1) _ refl) e in
      (rows, refl, wanted, short)

  pub index_page-Wanted :
      (answered : Option (List DriveItem)) (f : Filter) (col : Column) (dir : Direction) (limit : ℤ)
      (raw : Text) (p : Page)
      → index_page server codec answered f col dir limit raw ≡ page p
      → (rows : List DriveItem) × (answered ≡ some rows)
        × All (Wanted rows f) p.items
        × (length p.items ≤ 100)
  unfolding index_page
  index_page-Wanted answered f col dir limit raw p e =
      let (rows, at, wanted, short) =
        page_at-Wanted answered f col dir (page_limit limit) (decode_drive_cursor codec raw) p e in
      let (n, bound, small) = page_limit_bounds limit in
      let capped : pos_part (page_limit limit) ≤ 100 = rw bound (omega arith) in
      (rows, at, wanted, omega arith)
