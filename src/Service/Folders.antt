-- ===== src/Service/Folders.antt =====
-- `UpdateItem` keeps the folders of every account a forest.
use ponta_drive_api.Base.{
  ℕ, ◌<◌, ◌≡◌, refl, sym, ap, fun_ext, ◌∙◌, subst, ◌⊎◌, inl, inr, Bool, true, false, ◌&&◌, Option,
  none, some, arith, ◌==◌, if◌then◌else◌, Bool-cases, Option-cases, ==_iff,
}
use ponta_drive_api.Base.Text.{Text, is_empty, trim_space}
use ponta_drive_api.Models.{DriveItem}
use ponta_drive_api.Tree.{is_self_or_descendant}
use ponta_drive_api.Tree.Ancestry.{Above, IsForest, steps}
use ponta_drive_api.Tree.Moves.{with_row, save-IsForest, not_below}
use ponta_drive_api.Service.{Outside, Error, ok, err, State, found_item}
use ponta_drive_api.Service.Runs.{Outcome-cases, found-some}
use ponta_drive_api.Service.Items.{
  rows_of, moved, renamed, with_uuid, save_item, update_item, get_item_by_uuid,
}
use ponta_drive_api.Service.Database.{touched, ItemLaws, account_rows, keep, rows_of-account_rows}

-- A changed item that is still the same row of the same account.
abbrev SameRow : DriveItem → DriveItem → Type 0
SameRow item x =
    (x.id ≡ item.id) × (x.user_id ≡ item.user_id) × (x.cloud_account_id ≡ item.cloud_account_id)

module _ {S : Type 0} (o : Outside S) where
  -- Where an item may have been put: where it was, at the top, or under a folder that passed the
  -- test.
  abbrev Placed : ℕ → DriveItem → DriveItem → S → Type 0
  Placed user_id item x s =
      (x.parent_id ≡ item.parent_id)
      ⊎ ((x.parent_id ≡ none)
          ⊎ ((p : ℕ) × (x.parent_id ≡ some p)
              × (is_self_or_descendant (rows_of o user_id item.cloud_account_id s) p item.id
                  ≡ false)))

  moved-state :
      (user_id : ℕ) (item : DriveItem) (parent : Option ℕ) (s : State S)
      → (moved o user_id item parent s).1 ≡ s
  unfolding moved
  moved-state user_id item none s = refl
  moved-state user_id item (some p) s = ground arith

  moved-Placed :
      (user_id : ℕ) (item x : DriveItem) (parent : Option ℕ) (s : State S)
      → (moved o user_id item parent s).0 ≡ ok x
      → SameRow item x × Placed user_id item x s.outside
  unfolding moved
  moved-Placed user_id item x none s h = ground arith
  moved-Placed user_id item x (some p) s h = ground arith

  -- A new name does not count.
  renamed-Placed :
      (user_id : ℕ) (item x : DriveItem) (bare : Bool) (name : Text) (s : S)
      → let item' = if bare then item else record item { name = name } in
        SameRow item' x × Placed user_id item' x s → SameRow item x × Placed user_id item x s
  renamed-Placed user_id item x true name s h = h
  renamed-Placed user_id item x false name s h = h

  -- Where a run of `UpdateItem` ends.
  update_item-missing :
      (user_id : ℕ) (item_uuid name : Text) (parent : Option ℕ) (s : State S)
      → found_item (o.items.first (with_uuid user_id item_uuid) s.outside) ≡ none
      → (update_item o user_id item_uuid name parent s).1 ≡ s
  unfolding update_item get_item_by_uuid
  update_item-missing user_id item_uuid name parent s h = ground arith

  update_item-refused :
      (user_id : ℕ) (item_uuid name : Text) (parent : Option ℕ) (s : State S) (item : DriveItem)
      (e : Error)
      → found_item (o.items.first (with_uuid user_id item_uuid) s.outside) ≡ some item
      → (moved o user_id (renamed item name) parent s).0 ≡ err e
      → (update_item o user_id item_uuid name parent s).1 ≡ s
  unfolding update_item get_item_by_uuid
  update_item-refused user_id item_uuid name parent s item e h k =
      ground (arith, moved-state user_id (renamed item name) parent s)

  update_item-saved :
      (user_id : ℕ) (item_uuid name : Text) (parent : Option ℕ) (s : State S) (item x : DriveItem)
      → found_item (o.items.first (with_uuid user_id item_uuid) s.outside) ≡ some item
      → (moved o user_id (renamed item name) parent s).0 ≡ ok x
      → (update_item o user_id item_uuid name parent s).1.outside ≡ (o.items.save x s.outside).1
  unfolding update_item get_item_by_uuid save_item
  update_item-saved user_id item_uuid name parent s item x h k =
      ground (arith, moved-state user_id (renamed item name) parent s)

  module _ (view : S → ℕ → Option DriveItem) (laws : ItemLaws o view) where
    -- No item is nested 10000 deep, which is where the test on a destination gives up.
    abbrev pub IsShallow : S → Type 0
    IsShallow s = (u a t n : ℕ) (w : Above (account_rows (view s) u a) t n) → steps w < 10000

    abbrev pub AllForests : S → Type 0
    AllForests s = (u a : ℕ) → IsForest (account_rows (view s) u a)

    no_row_zero : (s : S) (u a : ℕ) → account_rows (view s) u a 0 ≡ none
    no_row_zero s u a = elim (Option-cases (view s 0)) [
      | inl nothing ↦ rw nothing refl
      | inr (x, there) ↦ absurd (omega (arith, laws.keyed s 0 x there))
    ]

    own_row :
        (s : S) (item : DriveItem)
        → view s item.id ≡ some item
        → account_rows (view s) item.user_id item.cloud_account_id item.id ≡ some item
    own_row s item there = rw there (ground arith)

    -- Nothing leads from the place of an item up to the item.
    Placed-clear :
        (s : S) (item x : DriveItem) (p : ℕ)
        → AllForests s
        → IsShallow s
        → view s item.id ≡ some item
        → Placed item.user_id item x s
        → x.parent_id ≡ some p
        → ¬ Above (account_rows (view s) item.user_id item.cloud_account_id) item.id p
    Placed-clear s item x p forests shallow there (inl kept) link =
        forests item.user_id item.cloud_account_id item.id p
          (item, own_row s item there, sym kept ∙ link)
    Placed-clear s item x p forests shallow there (inr (inl top)) link = absurd (cc (top, link))
    Placed-clear s item x p forests shallow there (inr (inr (q, at, clear))) link =
        let u = item.user_id in
        let a = item.cloud_account_id in
        let same : q ≡ p = ground arith in
        let clear' =
          subst (λ row. is_self_or_descendant row q item.id ≡ false)
            (rows_of-account_rows o view laws u a s) clear in
        subst (λ m. ¬ Above (account_rows (view s) u a) item.id m) same
          (not_below (account_rows (view s) u a) q item.id (forests u a) (no_row_zero s u a)
            (laws.keyed s item.id item there).1 (shallow u a item.id q) clear')

    -- The trees once an item is saved: the one of its account has the new row, the others are as
    -- they were.
    rows_after_save :
        (s s' : S) (item x : DriveItem) (u a n : ℕ)
        → view s item.id ≡ some item
        → SameRow item x
        → ((m : ℕ) → view s' m ≡ (if m == x.id then some x else view s m))
        → account_rows (view s') u a n ≡ (
            if item.user_id == u && item.cloud_account_id == a
            then with_row (account_rows (view s) u a) item.id x n
            else account_rows (view s) u a n)
    rows_after_save s s' item x u a n there same written = elim (Bool-cases (n == item.id)) [
      | inl hit ↦
          let at : n ≡ item.id = (==_iff n item.id).0 hit in
          let there' : view s n ≡ some item = subst (λ m. view s m ≡ some item) (sym at) there in
          rw (written n) (rw there' (ground arith))
      | inr other ↦ rw (written n) (ground arith)
    ]

    save-AllForests :
        (s s' : S) (item x : DriveItem)
        → AllForests s
        → IsShallow s
        → view s item.id ≡ some item
        → SameRow item x
        → Placed item.user_id item x s
        → ((m : ℕ) → view s' m ≡ (if m == x.id then some x else view s m))
        → AllForests s'
    save-AllForests s s' item x forests shallow there same placed written u a =
        let after = λ (n : ℕ). rows_after_save s s' item x u a n there same written in
        elim (Bool-cases (item.user_id == u && item.cloud_account_id == a)) [
          | inl own ↦
              let at_u : item.user_id ≡ u = ground arith in
              let at_a : item.cloud_account_id ≡ a = ground arith in
              let clear : (p : ℕ)
                  → x.parent_id ≡ some p
                  → ¬ Above (account_rows (view s) u a) item.id p =
                λ p link.
                  subst (λ v. ¬ Above (account_rows (view s) v a) item.id p) at_u
                    (subst (λ b. ¬ Above (account_rows (view s) item.user_id b) item.id p) at_a
                      (Placed-clear s item x p forests shallow there placed link)) in
              subst IsForest (sym (fun_ext (λ n. after n ∙ rw own refl)))
                (save-IsForest (account_rows (view s) u a) item.id x (forests u a) clear)
          | inr foreign ↦
              subst IsForest (sym (fun_ext (λ n. after n ∙ rw foreign refl))) (forests u a)
        ]

    saved-AllForests :
        (s : S) (item x : DriveItem)
        → AllForests s
        → IsShallow s
        → view s item.id ≡ some item
        → SameRow item x
        → Placed item.user_id item x s
        → AllForests (o.items.save x s).1
    saved-AllForests s item x forests shallow there same placed =
        elim (Bool-cases (o.items.save x s).0) [
          | inl done ↦
              save-AllForests s (o.items.save x s).1 item (touched (laws.clock s) x) forests shallow
                there same placed (λ m. laws.saves s x m done)
          | inr failed ↦ λ u a.
              subst IsForest (sym (fun_ext (λ n. ap (keep u a) (laws.refuses s x n failed))))
                (forests u a)
        ]

    forests_after_update :
        (user_id : ℕ) (item_uuid name : Text) (parent : Option ℕ) (s : State S)
        → AllForests s.outside
        → IsShallow s.outside
        → AllForests (update_item o user_id item_uuid name parent s).1.outside
    forests_after_update user_id item_uuid name parent s forests shallow =
        elim (Option-cases (found_item (o.items.first (with_uuid user_id item_uuid) s.outside))) [
          | inl missing ↦
              subst (λ (t : State S). AllForests t.outside)
                (sym (update_item-missing user_id item_uuid name parent s missing)) forests
          | inr (item, at) ↦
              let (answered, saved) = found-some (λ (i : DriveItem). i.id) _ item at in
              let (met, there) =
                laws.meets (with_uuid user_id item_uuid) s.outside item answered saved in
              let owned : user_id ≡ item.user_id = ground arith in
              elim (Outcome-cases (moved o user_id (renamed item name) parent s).0) [
                | inl (x, okay) ↦
                    let (same, placed) =
                      renamed-Placed user_id item x (is_empty (trim_space name)) (trim_space name)
                        s.outside (moved-Placed user_id (renamed item name) x parent s okay) in
                    subst AllForests
                      (sym (update_item-saved user_id item_uuid name parent s item x at okay))
                      (saved-AllForests s.outside item x forests shallow there same
                        (subst (λ u. Placed u item x s.outside) owned placed))
                | inr (e, refused) ↦
                    subst (λ (t : State S). AllForests t.outside)
                      (sym (update_item-refused user_id item_uuid name parent s item e at refused))
                      forests
              ]
        ]

    -- Whatever `UpdateItem` is asked for and however it ends: the parent links of the items of every
    -- account of every user form a forest afterwards, if they formed one before and no item was
    -- nested 10000 deep. The table of items keeps its laws.
    pub update_item-IsForest :
        (user_id : ℕ) (item_uuid name : Text) (parent : Option ℕ) (s : State S)
        → AllForests s.outside
        → IsShallow s.outside
        → (u a : ℕ)
        → IsForest
            (account_rows (view (update_item o user_id item_uuid name parent s).1.outside) u a)
    update_item-IsForest user_id item_uuid name parent s forests shallow u a =
        forests_after_update user_id item_uuid name parent s forests shallow u a
