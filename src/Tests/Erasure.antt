-- ===== src/Tests/Erasure.antt =====
-- A permanent deletion of a folder in a table that is a list.
use ponta_drive_api.Base.{
  ◌≡◌, refl, ◌⊎◌, inl, inr, Bool, true, false, not, none, some, List, [], ◌∷◌, select, Memᴰ, arith,
  if◌then◌else◌, Bool-cases,
}
use ponta_drive_api.Models.{DriveItem, is_folder, type_folder}
use ponta_drive_api.Base.Text.{text, same}
use ponta_drive_api.Tree.Breadcrumb.{NoRepeat, ids}
use ponta_drive_api.Tree.Rows.{mem_cons}
use ponta_drive_api.Tree.Inside.{Subtree, Inside}
use ponta_drive_api.Service.{Table, Outside, State, ok}
use ponta_drive_api.Service.Deletion.{delete_folder}
use ponta_drive_api.Service.Erasure.{Erases, below_folder, delete_folder-erases}
use ponta_drive_api.Tests.Server.{item_at, file_at}
use ponta_drive_api.Tests.World.{world_over}

abbrev pub nothing : DriveItem
nothing = item_at 0 none [] [] 0 none

unfoldable pub first_row : (DriveItem → Bool) → List DriveItem → DriveItem
first_row q [] = nothing
first_row q (x ∷ xs) = let rest = first_row q xs in if q x then x else rest

abbrev pub list_table : Table (List DriveItem) DriveItem
list_table = record {
  first = λ q s. some (first_row q s);
  get = λ q s. some (select q s);
  create = λ x s. (none, s);
  save = λ x s. (false, s);
  delete = λ q s. (true, select (λ x. not (q x)) s);
  force_delete = λ q s. (true, select (λ x. not (q x)) s);
}

abbrev pub list_world : Outside (List DriveItem)
list_world = world_over list_table

first_row-finds :
    (q : DriveItem → Bool) (s : List DriveItem)
    → (Memᴰ (first_row q s) s × (q (first_row q s) ≡ true))
      ⊎ ((x : DriveItem) → Memᴰ x s → q x ≡ false)
unfolding first_row
first_row-finds q [] = inr (λ x m. elim m [ ])
first_row-finds q (y ∷ ys) = elim (Bool-cases (q y)) [
  | inl hit ↦ rw hit (inl (Memᴰ.head refl, hit))
  | inr miss ↦ elim (first_row-finds q ys) [
    | inl (later, hit) ↦ rw miss (inl (Memᴰ.tail later, hit))
    | inr misses ↦
        rw miss (
          inr
            (λ x m. elim (mem_cons ys m) [ inl here ↦ rw here miss | inr later ↦ misses x later ]))
  ]
]

list_world-Erases : Erases list_world (λ s. s)
list_world-Erases = record {
  finds = λ q s. (first_row q s, refl, first_row-finds q s);
  gets = λ q s. refl;
  erases = λ q s. (refl, refl);
  apart = λ a s. refl;
}

abbrev docs : DriveItem
docs = item_at 1 none (text "docs") type_folder 0 none

abbrev notes : DriveItem
notes = file_at 2 (some 1) (text "notes") 9 none

abbrev other : DriveItem
other = file_at 3 none (text "other") 9 none

abbrev full : State (List DriveItem)
full = record { outside = docs ∷ (notes ∷ (other ∷ [])); drivers = [] }

abbrev full_once : NoRepeat (ids full.outside)
full_once = (refl, (refl, (refl, tt)))

docs_folder : is_folder docs ≡ true
unfolding same
docs_folder = refl

abbrev below_docs : Subtree
below_docs =
    below_folder list_world (λ s. s) list_world-Erases 1 docs full full_once (Memᴰ.head refl)
      docs_folder refl (omega arith)

delete_folder-erases_example :
    ((delete_folder list_world 5 1 none docs full).0 ≡ ok tt)
    × ((Inside below_docs notes
          × ¬ Memᴰ notes (delete_folder list_world 5 1 none docs full).1.outside)
        ⊎ (¬ Inside below_docs notes
            × Memᴰ notes (delete_folder list_world 5 1 none docs full).1.outside))
delete_folder-erases_example =
    delete_folder-erases list_world (λ s. s) list_world-Erases 1 docs full full_once
      (Memᴰ.head refl) docs_folder refl (omega arith) 5 none (omega arith) (omega arith) tt notes
      (Memᴰ.tail (Memᴰ.head refl))
