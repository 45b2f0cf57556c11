-- ===== src/Dashboard/Suggestions.antt =====
-- What `getSuggestedFiles` of app/services/dashboard_service.go suggests.
use ponta_drive_api.Base.{
  ◌≡◌, refl, subst, Option-cases, ℕ, zero, suc, ◌-◌, ◌≤◌, Bool, true, Option, none, some, List, [],
  ◌∷◌, ◌++◌, length, take, ltb, arith, inl, inr, length-append, length-take-le,
}
use ponta_drive_api.Base.Order.Sort.{sort, All, All-sort, All-map}
use ponta_drive_api.Models.{DriveItem, status_ready}
use ponta_drive_api.Base.Text.{same_iff}
use ponta_drive_api.Service.{Outside}
use ponta_drive_api.Dashboard.{
  compare_recent, starred_by, recent_of, topped_up, suggested_files, get_suggested_files,
}

All-take : {A : Type 0} (P : A → Type 0) (n : ℕ) (xs : List A) → All P xs → All P (take n xs)
All-take P zero xs h = tt
All-take P (suc n) [] h = tt
All-take P (suc n) (x ∷ xs) (h, hs) = (h, All-take P n xs hs)

All-append : {A : Type 0} (P : A → Type 0) (xs ys : List A) → All P xs → All P ys → All P (xs ++ ys)
All-append P [] ys h k = k
All-append P (x ∷ xs) ys (h, hs) k = (h, All-append P xs ys hs k)

-- An item that is ready and belongs to the user, be it a file or a folder.
abbrev pub Own : ℕ → DriveItem → Type 0
Own user_id i = (i.user_id ≡ user_id) × (i.status ≡ status_ready)

module _ (user_id : ℕ) where
  starred-Own : (i : DriveItem) → starred_by user_id i ≡ true → Own user_id i
  starred-Own i h = (ground arith, (same_iff i.status status_ready).0 (ground arith))

  recent-Own : (since : ℕ) (i : DriveItem) → recent_of user_id since i ≡ true → Own user_id i
  recent-Own since i h = (ground arith, (same_iff i.status status_ready).0 (ground arith))

  filled_up :
      (first : List DriveItem) (recent : Option (List DriveItem)) (items : List DriveItem)
      → length first ≤ 8
      → All (Own user_id) first
      → ((rows : List DriveItem) → recent ≡ some rows → All (Own user_id) rows)
      → topped_up first recent ≡ some items
      → All (Own user_id) items × (length items ≤ 8)
  unfolding topped_up
  filled_up first none items few own k e = absurd cc
  filled_up first (some rows) items few own k e =
      let ranked = sort compare_recent rows in
      let more = take (8 - length first) ranked in
      let whole : first ++ more ≡ items = cc in
      let more_own =
        All-take (Own user_id) (8 - length first) ranked
          (All-sort compare_recent (Own user_id) rows (k rows refl)) in
      let long : length (first ++ more) ≤ 8 =
        omega (arith, length-append first more, length-take-le (8 - length first) ranked) in
      (
        subst (All (Own user_id)) whole (All-append (Own user_id) first more own more_own),
        subst (λ xs. length xs ≤ 8) whole long,
      )

  suggested_from :
      (starred : List DriveItem) (recent : Option (List DriveItem)) (items : List DriveItem)
      → All (Own user_id) starred
      → ((rows : List DriveItem) → recent ≡ some rows → All (Own user_id) rows)
      → suggested_files (some starred) recent ≡ some items
      → All (Own user_id) items × (length items ≤ 8)
  unfolding suggested_files
  suggested_from starred recent items h k =
      let ranked = sort compare_recent starred in
      let first = take 4 ranked in
      let few : length first ≤ 4 = length-take-le 4 ranked in
      let room : ltb (length first) 8 ≡ true = ground arith in
      let own = All-take (Own user_id) 4 ranked (All-sort compare_recent (Own user_id) starred h) in
      rw room (filled_up first recent items (omega arith) own k)

none_suggested :
    (recent : Option (List DriveItem)) (items : List DriveItem)
    → suggested_files none recent ≡ some items
    → ⊥
unfolding suggested_files
none_suggested recent items h = absurd cc

-- Where a query for items answers with rows that meet its conditions: what is suggested are items of
-- the user that are ready, files or folders, and there are at most eight of them.
pub get_suggested_files-Own :
    {S : Type 0} (o : Outside S) (user_id since : ℕ) (s : S) (items : List DriveItem)
    → ((q : DriveItem → Bool) (rows : List DriveItem)
        → o.items.get q s ≡ some rows
        → All (λ i. q i ≡ true) rows)
    → get_suggested_files o user_id since s ≡ some items
    → All (Own user_id) items × (length items ≤ 8)
unfolding get_suggested_files
get_suggested_files-Own o user_id since s items meets =
    elim (Option-cases (o.items.get (starred_by user_id) s)) [
      | inl failed ↦
          rw failed (λ e. absurd (none_suggested (o.items.get (recent_of user_id since) s) items e))
      | inr (starred, e) ↦
          let own =
            All-map (λ i. starred_by user_id i ≡ true) (Own user_id) (starred-Own user_id) starred
              (meets (starred_by user_id) starred e) in
          let recent_own : (rows : List DriveItem)
              → o.items.get (recent_of user_id since) s ≡ some rows
              → All (Own user_id) rows =
            λ rows h.
              All-map (λ i. recent_of user_id since i ≡ true) (Own user_id)
                (recent-Own user_id since) rows (meets (recent_of user_id since) rows h) in
          rw e (
            suggested_from user_id starred (o.items.get (recent_of user_id since) s) items own
              recent_own)
    ]
