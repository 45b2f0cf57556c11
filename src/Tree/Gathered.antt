-- ===== src/Tree/Gathered.antt =====
-- What `CollectDescendantItems` gathers is what its queries answer with.
use ponta_drive_api.Base.{
  ℕ, zero, suc, ◌≡◌, refl, subst, ◌⊎◌, inl, inr, Option, some, List, [], ◌∷◌, ◌++◌, leb, length,
  contains, Bool-cases, Option-cases,
}
use ponta_drive_api.Base.Order.Sort.{All}
use ponta_drive_api.Models.{DriveItem, is_folder, is_file}
use ponta_drive_api.Tree.{Collected, collect, collect_children, collect_child}

module _ (P : DriveItem → Type 0) where
  All-snoc : (xs : List DriveItem) (x : DriveItem) → All P xs → P x → All P (xs ++ x ∷ [])
  All-snoc [] x h k = (k, tt)
  All-snoc (y ∷ ys) x (h, hs) k = (h, All-snoc ys x hs k)

  collect_child-All :
      (c : Collected) (child : DriveItem)
      → All P c.all_items
      → P child
      → All P (collect_child c child).all_items
  unfolding collect_child
  collect_child-All c child h k = elim (Bool-cases (contains child.id c.visited)) [
    | inl again ↦ rw again h
    | inr fresh ↦ elim (Bool-cases (is_folder child)) [
      | inl folder ↦ rw (fresh, folder) (All-snoc c.all_items child h k)
      | inr other ↦ elim (Bool-cases (is_file child)) [
        | inl file ↦ rw (fresh, other, file) (All-snoc c.all_items child h k)
        | inr neither ↦ rw (fresh, other, neither) (All-snoc c.all_items child h k)
      ]
    ]
  ]

  collect_children-All :
      (c : Collected) (rows : List DriveItem)
      → All P c.all_items
      → All P rows
      → All P (collect_children c rows).all_items
  unfolding collect_children
  collect_children-All c [] h k = h
  collect_children-All c (x ∷ xs) h (k, ks) =
      collect_children-All (collect_child c x) xs (collect_child-All c x h k) ks

  kept :
      (c c' : Collected)
      → All P c.all_items
      → (◌≡◌ {A = Option (Option Collected)} (some (some c)) (some (some c')))
      → All P c'.all_items
  kept c c' h e = let same : c ≡ c' = cc in subst (λ (d : Collected). All P d.all_items) same h

  pub collect-All :
      (children : ℕ → Option (List DriveItem)) (fuel limit : ℕ) (c c' : Collected)
      → ((n : ℕ) (rows : List DriveItem) → children n ≡ some rows → All P rows)
      → All P c.all_items
      → collect children fuel limit c ≡ some (some c')
      → All P c'.all_items
  unfolding collect
  collect-All children zero limit c c' k h = λ e. absurd cc
  collect-All children (suc fuel) limit c c' k h = elim (queue_cases c.queue) [
    | inl done ↦ rw done (kept _ c' h)
    | inr (current, queue, more) ↦ elim (Bool-cases (leb limit (length c.all_items))) [
      | inl full ↦ rw (more, full) (kept _ c' h)
      | inr room ↦ elim (Option-cases (children current)) [
        | inl failed ↦ rw (more, room, failed) λ e. absurd cc
        | inr (rows, at) ↦
            rw (more, room, at)
              (collect-All children fuel limit (collect_children (record c { queue = queue }) rows)
                c' k (collect_children-All (record c { queue = queue }) rows h (k current rows at)))
      ]
    ]
  ]
    where
      queue_cases :
          (queue : List ℕ)
          → (queue ≡ []) ⊎ ((current : ℕ) × (rest : List ℕ) × (queue ≡ current ∷ rest))
      queue_cases [] = inl refl
      queue_cases (n ∷ ns) = inr (n, ns, refl)
