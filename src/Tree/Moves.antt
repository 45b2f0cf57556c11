-- ===== src/Tree/Moves.antt =====
-- Moving an item keeps the folders a forest: the test that `UpdateItem` makes before it saves.
use ponta_drive_api.Base.{
  ℕ, ◌<◌, ◌≡◌, sym, subst, ◌⊎◌, ◌↔◌, inl, inr, true, false, Option, none, some, [], arith, ◌==◌,
  Bool-cases, ==_iff, if◌then◌else◌,
}
use ponta_drive_api.Models.{DriveItem}
use ponta_drive_api.Tree.{is_self_or_descendant}
use ponta_drive_api.Tree.Ancestry.{
  Edge, Above, here, up, IsForest, steps, Above-trans, ascends_complete, ascends_sound,
}

-- The rows after one of them is saved.
abbrev pub with_row : (ℕ → Option DriveItem) → ℕ → DriveItem → ℕ → Option DriveItem
with_row row i saved n = if n == i then some saved else row n

module _ (row : ℕ → Option DriveItem) (i : ℕ) (saved : DriveItem) where
  abbrev row' : ℕ → Option DriveItem
  row' = with_row row i saved

  old-Edge : (n p : ℕ) → (n == i) ≡ false → Edge row' n p → Edge row n p
  old-Edge n p other (node, at, link) = (node, ground arith, link)

  new_link : (p : ℕ) → Edge row' i p → saved.parent_id ≡ some p
  new_link p (node, at, link) = ground arith

  -- A walk up to the moved item is one of the old tree.
  old_walk : {n : ℕ} → Above row' i n → Above row i n
  old_walk here = here
  old_walk (up {n} {p} e w) = elim (Bool-cases (n == i)) [
    | inl same ↦ subst (Above row i) (sym ((==_iff n i).0 same)) here
    | inr other ↦ up (old-Edge n p other e) (old_walk w)
  ]

  -- Any walk is one of the old tree, or goes through the moved item.
  walk_cases :
      {t n : ℕ}
      → Above row' t n
      → Above row t n ⊎ ((p : ℕ) × Above row' i n × (saved.parent_id ≡ some p) × Above row' t p)
  walk_cases here = inl here
  walk_cases (up {n} {p} e w) = elim (Bool-cases (n == i)) [
    | inl same ↦
        let at_i = (==_iff n i).0 same in
        inr (
          p,
          subst (Above row' i) (sym at_i) here,
          new_link p (subst (λ m. Edge row' m p) at_i e),
          w,
        )
    | inr other ↦ elim (walk_cases w) [
      | inl old ↦ inl (up (old-Edge n p other e) old)
      | inr (q, to_i, link, on) ↦ inr (q, up e to_i, link, on)
    ]
  ]

  -- Saving an item whose new parent is not the item itself nor below it keeps the forest.
  pub save-IsForest :
      IsForest row → ((p : ℕ) → saved.parent_id ≡ some p → ¬ Above row i p) → IsForest row'
  save-IsForest forest clear n p e w = elim (Bool-cases (n == i)) [
    | inl same ↦
        let at_i = (==_iff n i).0 same in
        clear p (new_link p (subst (λ m. Edge row' m p) at_i e))
          (old_walk (subst (λ m. Above row' m p) at_i w))
    | inr other ↦ elim (walk_cases w) [
      | inl old ↦ forest n p (old-Edge n p other e) old
      | inr (q, to_i, link, on) ↦ clear q link (old_walk (Above-trans on (up e to_i)))
    ]
  ]

-- The test on a destination: when it says no, nothing leads from the destination up to the item.
pub not_below :
    (row : ℕ → Option DriveItem) (start target : ℕ)
    → IsForest row
    → row 0 ≡ none
    → 0 < target
    → ((w : Above row target start) → steps w < 10000)
    → is_self_or_descendant row start target ≡ false
    → ¬ Above row target start
unfolding is_self_or_descendant
not_below row start target forest no_zero pos_target shallow h w =
    let found =
      ascends_complete row forest no_zero 10000 [] start target w pos_target (shallow w)
        (λ v again. absurd (cc)) in
    cc (found, h)

-- In a forest in which no item is nested 10000 deep, the test on a destination is exact: it says
-- yes if and only if the destination is the item or lies below it. And where it says no, the tree
-- with the item moved there is a forest again.
pub is_self_or_descendant_exact :
    (row : ℕ → Option DriveItem) (item saved : DriveItem) (destination : ℕ)
    → IsForest row
    → row 0 ≡ none
    → 0 < item.id
    → ((w : Above row item.id destination) → steps w < 10000)
    → saved.parent_id ≡ some destination
    → ((is_self_or_descendant row destination item.id ≡ true) ↔ Above row item.id destination)
      × (is_self_or_descendant row destination item.id ≡ false
          → IsForest (with_row row item.id saved))
unfolding is_self_or_descendant
is_self_or_descendant_exact row item saved destination forest no_zero saved_id shallow link = (
  (
    ascends_sound row 10000 [] destination item.id,
    λ w.
        ascends_complete row forest no_zero 10000 [] destination item.id w saved_id (shallow w)
          (λ v again. absurd (cc)),
  ),
  λ h. save-IsForest row item.id saved forest (λ p at.
      let same : p ≡ destination = cc (at, link) in
      subst (λ q. ¬ Above row item.id q) (sym same)
        (not_below row destination item.id forest no_zero saved_id shallow h)),
)
