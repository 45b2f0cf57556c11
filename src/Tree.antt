-- ===== src/Tree.antt =====
-- The walks over the folder tree of app/services/cloud_drive_service.go: the loops of
-- `GetBreadcrumb`, `isSelfOrDescendant` and `CollectDescendantItems`.
--
-- A walk reads the database and writes nothing, so it is a function of what its queries answer:
-- `row n` is the row with the id n that the query of the loop finds, and `none` where the query
-- fails or finds none, on which the loops do the same. The rounds of a loop are fuel; each loop has
-- a cap of its own, which is given as fuel, or a theorem that its fuel suffices.
pub mod Breadcrumb
pub mod Ancestry
pub mod Moves
pub mod Search
pub mod Rows
pub mod Inside
pub mod Descendants
pub mod Counting
pub mod Gathered
use ponta_drive_api.Base.{
  ℕ, zero, suc, ◌+◌, Bool, true, false, Option, none, some, List, [], ◌∷◌, ◌++◌, length, contains,
  leb, ◌==◌, if◌then◌else◌,
}
use mathlib.Core.List.{reverse}
use ponta_drive_api.Base.Int.{ℤ, pos, ◌+₆₄◌, ltb_ℤ}
use ponta_drive_api.Base.Text.{Text, is_empty}
use ponta_drive_api.Models.{DriveItem, is_folder, is_file}

-- `ParentID != nil && *ParentID > 0`
abbrev pub positive : Option ℕ → Option ℕ
positive none = none
positive (some zero) = none
positive (some (suc p)) = some (suc p)

abbrev pub parent_link : DriveItem → Option ℕ
parent_link item = positive item.parent_id

-- The parent link of a row; there is none without the row, or where it is nil.
abbrev pub link_of : Option DriveItem → Option ℕ
link_of none = none
link_of (some node) = node.parent_id

module _ (row : ℕ → Option DriveItem) where
  -- One round of the loop of `GetBreadcrumb`: the next ancestor, or `none` for a `break`. The chain
  -- has `depth` entries.
  unfoldable pub next_ancestor : ℕ → ℕ → List ℕ → Option ℕ → Option DriveItem
  next_ancestor max_depth depth visited none = none
  next_ancestor max_depth depth visited (some parent_id) =
      if leb max_depth depth
      then none
      else if contains parent_id visited
      then none
      else row parent_id

  -- The loop, from the chain so far, the visited ids and the current item.
  unfoldable pub climb : ℕ → ℕ → List DriveItem → List ℕ → DriveItem → List DriveItem
  unfolding next_ancestor
  climb zero max_depth chain visited current = chain
  climb (suc fuel) max_depth chain visited current =
      elim (next_ancestor max_depth (length chain) visited (parent_link current)) [
        | none ↦ chain
        | some parent ↦ climb fuel max_depth (chain ++ parent ∷ []) (parent.id ∷ visited) parent
      ]

  abbrev pub breadcrumb_depth : ℕ
  breadcrumb_depth = 100

  -- `GetBreadcrumb`, behind the lookup of the item: the chain, root first.
  unfoldable pub breadcrumb : DriveItem → List DriveItem
  breadcrumb item =
      reverse (climb breadcrumb_depth breadcrumb_depth (item ∷ []) (item.id ∷ []) item)

  -- The loop of `isSelfOrDescendant`; its cap on the depth is the fuel.
  unfoldable pub ascends : ℕ → List ℕ → ℕ → ℕ → Bool
  ascends zero visited current target = false
  ascends (suc fuel) visited current target =
      if current == 0
      then false
      else if current == target
      then true
      else if contains current visited
      then false
      else elim (link_of (row current)) [
        | none ↦ false
        | some parent ↦ ascends fuel (current ∷ visited) parent target
      ]

  abbrev pub ascent_depth : ℕ
  ascent_depth = 10000

  unfoldable pub is_self_or_descendant : ℕ → ℕ → Bool
  is_self_or_descendant start target = ascends ascent_depth [] start target

-- What `CollectDescendantItems` has gathered.
pub record Collected : Type 0 where
  pub queue : List ℕ
  pub visited : List ℕ
  pub all_items : List DriveItem
  pub keys : List Text
  pub total_size : ℤ

-- The part of a round that only files take.
abbrev pub add_file : DriveItem → Collected → Collected
add_file child c = record c {
  keys = if is_empty child.storage_path then c.keys else c.keys ++ child.storage_path ∷ [];
  total_size = if ltb_ℤ (pos 0) child.size then c.total_size +₆₄ child.size else c.total_size;
}

-- The body of the loop over the children.
unfoldable pub collect_child : Collected → DriveItem → Collected
collect_child c child =
    if contains child.id c.visited
    then c
    else let c' : Collected = record c {
      visited = child.id ∷ c.visited;
      all_items = c.all_items ++ child ∷ [];
    } in
      if is_folder child
      then record c' { queue = c'.queue ++ child.id ∷ [] }
      else if is_file child
      then add_file child c'
      else c'

unfoldable pub collect_children : Collected → List DriveItem → Collected
unfolding collect_child
collect_children c [] = c
collect_children c (child ∷ rest) = collect_children (collect_child c child) rest

module _ (children : ℕ → Option (List DriveItem)) where
  -- The loop over the queue. `none` is a failed query; the second `none`, that the fuel ran out.
  unfoldable pub collect : ℕ → ℕ → Collected → Option (Option Collected)
  unfolding collect_children
  collect zero max_items c = some none
  collect (suc fuel) max_items c = elim c.queue [
    | [] ↦ some (some c)
    | current ∷ queue ↦
        if leb max_items (length c.all_items) then some (some c) else elim (children current) [
          | none ↦ none
          | some found ↦
              collect fuel max_items (collect_children (record c { queue = queue }) found)
        ]
  ]
