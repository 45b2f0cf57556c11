-- ===== src/Tree/Counting.antt =====
-- How many rows a list without repetition holds.
use ponta_drive_api.Base.{
  ℕ, suc, ◌≤◌, ◌≡◌, refl, ap, subst, inl, inr, true, false, List, [], ◌∷◌, length, contains, arith,
  ◌==◌, ==_iff, if◌then◌else◌, Bool-cases,
}
use ponta_drive_api.Models.{DriveItem}
use ponta_drive_api.Tree.Breadcrumb.{NoRepeat, ids}

-- A list without repetition is no longer than one that holds all of it.
abbrev without : ℕ → List ℕ → List ℕ
without n [] = []
without n (x ∷ xs) = let rest = without n xs in if n == x then xs else x ∷ rest

length-without :
    (n : ℕ) (xs : List ℕ) → contains n xs ≡ true → length xs ≡ suc (length (without n xs))
length-without n [] h = absurd cc
length-without n (x ∷ xs) h = elim (Bool-cases (n == x)) [
  | inl own ↦ rw own refl
  | inr other ↦ rw other (ap suc (length-without n xs (ground arith)))
]

contains-without :
    (m n : ℕ) (xs : List ℕ)
    → (m == n) ≡ false
    → contains m xs ≡ true
    → contains m (without n xs) ≡ true
contains-without m n [] d h = h
contains-without m n (x ∷ xs) d h = ground (arith, contains-without m n xs d)

pub NoRepeat-length :
    (ns xs : List ℕ)
    → NoRepeat ns
    → ((m : ℕ) → contains m ns ≡ true → contains m xs ≡ true)
    → length ns ≤ length xs
NoRepeat-length [] xs h k = omega arith
NoRepeat-length (n ∷ ns) xs (fresh, rest) k =
    let here = length-without n xs (k n (ground arith)) in
    let others : (m : ℕ) → contains m ns ≡ true → contains m (without n xs) ≡ true = λ m h.
      elim (Bool-cases (m == n)) [
        | inl own ↦
            let again : contains n ns ≡ true =
              subst (λ i. contains i ns ≡ true) ((==_iff m n).0 own) h in
            absurd cc
        | inr other ↦ contains-without m n xs other (k m (ground arith))
      ] in
    let shorter : length ns ≤ length (without n xs) =
      NoRepeat-length ns (without n xs) rest others in
    omega arith

pub length-ids : (xs : List DriveItem) → length (ids xs) ≡ length xs
length-ids [] = refl
length-ids (x ∷ xs) = ap suc (length-ids xs)
