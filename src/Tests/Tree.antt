-- ===== src/Tests/Tree.antt =====
-- Runs of the walks over the folder tree.
use ponta_drive_api.Base.{
  ℕ, ◌<◌, ◌≡◌, ◌↔◌, refl, true, false, Option, none, some, arith, ◌==◌, if◌then◌else◌, [], ◌∷◌,
  length, select, Bool, false, Memᴰ,
}
use ponta_drive_api.Base.Text.{text, same}
use ponta_drive_api.Models.{DriveItem, type_folder, is_folder}
use ponta_drive_api.Tree.{Collected, collect, breadcrumb, is_self_or_descendant}
use ponta_drive_api.Tree.Breadcrumb.{NoRepeat, ids, IsBreadcrumb, breadcrumb-IsBreadcrumb}
use ponta_drive_api.Tree.Ancestry.{Edge, Above, here, up, IsForest, steps}
use ponta_drive_api.Tree.Moves.{with_row, is_self_or_descendant_exact}
use ponta_drive_api.Tree.Inside.{Subtree, Inside, keys_of}
use ponta_drive_api.Tree.Descendants.{start, collect_exact}
use ponta_drive_api.Tests.Server.{item_at, file_at}

abbrev docs : DriveItem
docs = item_at 1 none (text "docs") type_folder 0 none

abbrev notes : DriveItem
notes = item_at 2 (some 1) (text "notes") type_folder 0 none

-- A folder in a folder.
abbrev two_folders : ℕ → Option DriveItem
two_folders n = if n == 1 then some docs else if n == 2 then some notes else none

two_folders-id : (n : ℕ) (x : DriveItem) → two_folders n ≡ some x → x.id ≡ n
two_folders-id n x h = ground arith

only-Edge : (n p : ℕ) → Edge two_folders n p → (n ≡ 2) × (p ≡ 1)
only-Edge n p (node, at, link) = ground arith

nothing_above_docs : (t p : ℕ) → Edge two_folders 1 p → ⊥
nothing_above_docs t p e = absurd (omega (arith, only-Edge 1 p e))

two_folders-IsForest : IsForest two_folders
two_folders-IsForest n p e w = no_way (only-Edge n p e).0 (only-Edge n p e).1 w
  where
    no_way : {n p : ℕ} → n ≡ 2 → p ≡ 1 → Above two_folders n p → ⊥
    no_way h k here = absurd (omega arith)
    no_way h k (up {n = m} {p = q} f v) = absurd (omega (arith, only-Edge m q f))

one_step : {p : ℕ} (w : Above two_folders 1 p) → steps w < 3
unfolding steps
one_step here = omega arith
one_step (up e here) = omega arith
one_step (up {n} {p} e (up {n = q} {p = r} f w)) =
    absurd (omega (arith, only-Edge n p e, only-Edge q r f))

-- The outer folder cannot go into the inner one, nor into itself.
is_self_or_descendant_exact_example :
    ((is_self_or_descendant two_folders 2 1 ≡ true) ↔ Above two_folders 1 2)
    × (is_self_or_descendant two_folders 2 1 ≡ false
        → IsForest (with_row two_folders 1 (record docs { parent_id = some 2 })))
is_self_or_descendant_exact_example =
    is_self_or_descendant_exact two_folders docs (record docs { parent_id = some 2 }) 2
      two_folders-IsForest refl (omega arith) (λ w. omega (arith, one_step w)) refl

breadcrumb-IsBreadcrumb_example :
    IsBreadcrumb two_folders 100
      (file_at 3 (some 2) (text "a") 1 none)
      (breadcrumb two_folders (file_at 3 (some 2) (text "a") 1 none))
breadcrumb-IsBreadcrumb_example =
    breadcrumb-IsBreadcrumb two_folders (file_at 3 (some 2) (text "a") 1 none) two_folders-id

abbrev child_in : ℕ → DriveItem → Bool
child_in n x = elim x.parent_id [ none ↦ false | some p ↦ p == n ]

docs_folder : is_folder docs ≡ true
unfolding same
docs_folder = refl

abbrev docs_subtree : Subtree
docs_subtree = record {
  rows = docs ∷ notes ∷ file_at 3 (some 2) (text "a") 1 none ∷ [];
  child = child_in;
  root = docs;
  unique = (refl, (refl, (refl, tt)));
  root_row = Memᴰ.head refl;
  root_folder = docs_folder;
}

collect_exact_example :
    (c : Collected) × (collect
        (λ n. some (select (child_in n) docs_subtree.rows))
        5
        10
        (start docs_subtree)
      ≡ some (some c))
    × ((x : DriveItem) → Memᴰ x c.all_items → Inside docs_subtree x)
    × NoRepeat (ids c.all_items)
    × (c.keys ≡ keys_of c.all_items)
    × (length c.all_items < 10 → (x : DriveItem) → Inside docs_subtree x → Memᴰ x c.all_items)
collect_exact_example =
    collect_exact docs_subtree (λ n. some (select (child_in n) docs_subtree.rows)) (λ n. refl) 5 10
      (omega arith)
