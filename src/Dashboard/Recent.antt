-- ===== src/Dashboard/Recent.antt =====
-- What `GetRecent` of app/services/activity_service.go answers with.
use mathlib.Core.List.{Perm}
use ponta_drive_api.Base.{
  ◌≡◌, refl, ap, subst, sym, ℕ, zero, suc, ◌⊎◌, inl, inr, some, List, [], ◌∷◌, ◌++◌, take, length,
  ◌<◌, ◌≢◌, ◌==◌, Bool-cases, arith,
}
use ponta_drive_api.Base.Order.{IsOrder, compare-IsOrder, flip-IsOrder, on-IsOrder, then_by-IsOrder}
use ponta_drive_api.Base.Order.Sort.{All, All-map, sort, Sorted, Distinct, sort-Sorted, sort-perm}
use ponta_drive_api.Dashboard.Summary.{
  Logged, Inputs, compare_logged, logged_by, newest, get_recent,
}
use Prim.Native.Nat.{compare, lt, eq}

compare_logged-IsOrder : IsOrder compare_logged
unfolding compare_logged
compare_logged-IsOrder =
    then_by-IsOrder _ _ (flip-IsOrder _ (on-IsOrder (λ l. l.created_at) compare compare-IsOrder))
      (flip-IsOrder _ (on-IsOrder (λ l. l.entry.id) compare compare-IsOrder))

-- The rows that a limit cuts off; none are where it is not reached.
cut_off :
    {A : Type 0} (n : ℕ) (xs : List A)
    → (rest : List A) × (take n xs ++ rest ≡ xs) × ((length (take n xs) ≡ n) ⊎ (rest ≡ []))
cut_off zero xs = (xs, refl, inl refl)
cut_off (suc n) [] = ([], refl, inr refl)
cut_off (suc n) (x ∷ xs) =
    let (rest, whole, full) = cut_off n xs in
    (rest, ap (λ t. x ∷ t) whole, elim full [ inl e ↦ inl (ap suc e) | inr e ↦ inr e ])

-- Created later, or at the same time with a higher id.
abbrev pub Newer : Logged → Logged → Type 0
Newer a b =
    (b.created_at < a.created_at) ⊎ ((a.created_at ≡ b.created_at) × (b.entry.id < a.entry.id))

abbrev pub NewestFirst : List Logged → Type 0
NewestFirst [] = Unit
NewestFirst (x ∷ xs) = All (Newer x) xs × NewestFirst xs

-- No two rows have both their time and their id in common.
abbrev pub AllDiffer : List Logged → Type 0
AllDiffer [] = Unit
AllDiffer (x ∷ xs) =
    All (λ y. (x.created_at ≢ y.created_at) ⊎ (x.entry.id ≢ y.entry.id)) xs × AllDiffer xs

compare_logged-Newer : (a b : Logged) → compare_logged a b ≡ lt → Newer a b
unfolding compare_logged
compare_logged-Newer a b h = elim (Bool-cases (a.created_at == b.created_at)) [
  | inl same ↦ inr (ground arith, ground arith)
  | inr differ ↦ inl (ground arith)
]

Sorted-NewestFirst : (xs : List Logged) → Sorted compare_logged xs → NewestFirst xs
Sorted-NewestFirst [] h = tt
Sorted-NewestFirst (x ∷ xs) (first, rest) = (
  All-map (λ y. compare_logged x y ≡ lt) (Newer x) (λ y k. compare_logged-Newer x y k) xs first,
  Sorted-NewestFirst xs rest,
)

differ-compare_logged :
    (a b : Logged)
    → (a.created_at ≢ b.created_at) ⊎ (a.entry.id ≢ b.entry.id)
    → compare_logged a b ≢ eq
unfolding compare_logged
differ-compare_logged a b (inl h) k = h (ground arith)
differ-compare_logged a b (inr h) k = h (ground arith)

AllDiffer-Distinct : (xs : List Logged) → AllDiffer xs → Distinct compare_logged xs
AllDiffer-Distinct [] h = tt
AllDiffer-Distinct (x ∷ xs) (first, rest) = (
  All-map (λ y. (x.created_at ≢ y.created_at) ⊎ (x.entry.id ≢ y.entry.id))
      (λ y. compare_logged x y ≢ eq) (λ y k. differ-compare_logged x y k) xs first,
  AllDiffer-Distinct xs rest,
)

-- The list is the front of the rows, newest first: what stands behind it is older than all of it, and
-- there is something behind it only where it has as many rows as it may have.
abbrev pub NewestOf : ℕ → List Logged → List Logged → Type 0
NewestOf limit rows logs =
    (rest : List Logged) × (Perm (logs ++ rest) rows)
    × NewestFirst (logs ++ rest)
    × ((length logs ≡ limit) ⊎ (rest ≡ []))

newest-NewestOf :
    (limit : ℕ) (rows logs : List Logged)
    → Distinct compare_logged rows
    → newest limit (some rows) ≡ some logs
    → NewestOf limit rows logs
unfolding newest
newest-NewestOf limit rows logs distinct e =
    let ranked = sort compare_logged rows in
    let (rest, whole, full) = cut_off limit ranked in
    let own : take limit ranked ≡ logs = cc in
    subst (NewestOf limit rows) own (
      rest,
      subst (λ xs. Perm xs rows) (sym whole) (sort-perm compare_logged rows),
      subst NewestFirst (sym whole) (
          Sorted-NewestFirst ranked
            (sort-Sorted compare_logged compare_logged-IsOrder rows distinct)),
      full,
    )

-- For any answer of the query in which no two rows have both their time and their id in common:
-- `GetRecent` gives the newest of these rows, newest first, as many as the limit allows.
pub get_recent-NewestOf :
    {S M : Type 0} (d : Inputs S M) (user_id limit : ℕ) (s : S) (rows logs : List Logged)
    → d.logged (logged_by user_id) s ≡ some rows
    → AllDiffer rows
    → get_recent d user_id limit s ≡ some logs
    → NewestOf limit rows logs
unfolding get_recent
get_recent-NewestOf d user_id limit s rows logs read distinct =
    rw read (newest-NewestOf limit rows logs (AllDiffer-Distinct rows distinct))
