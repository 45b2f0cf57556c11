-- ===== src/Base/Order/Sort.antt =====
-- Insertion sort by a three-way comparison, for lists in which no two elements compare equal: it
-- sorts, it is a permutation, selecting commutes with it, and what stands behind an element of a
-- sorted list is what compares greater.
use Prim.Native.Nat.{Ordering, lt, eq, gt}
use mathlib.Core.List.{Perm}
use mathlib.Core.List.Perm
use ponta_drive_api.Base.{
  ◌≡◌, ◌≢◌, refl, ◌∙◌, ap, Bool, true, List, [], ◌∷◌, ◌++◌, arith, select, last?, some, Bool-cases,
  inl, inr, if◌then◌else◌,
}
use ponta_drive_api.Base.Order.{is_lt, IsOrder}

abbrev pub All : {A : Type 0} → (A → Type 0) → List A → Type 0
All P [] = Unit
All P (x ∷ xs) = P x × All P xs

module _ {A : Type 0} where
  pub All-append_right : (P : A → Type 0) (xs ys : List A) → All P (xs ++ ys) → All P ys
  All-append_right P [] ys h = h
  All-append_right P (x ∷ xs) ys h = All-append_right P xs ys h.1

  pub All-map : (P Q : A → Type 0) → ((x : A) → P x → Q x) → (xs : List A) → All P xs → All Q xs
  All-map P Q f [] h = tt
  All-map P Q f (x ∷ xs) h = (f x h.0, All-map P Q f xs h.1)

  pub All-select : (P : A → Type 0) (p : A → Bool) (xs : List A) → All P xs → All P (select p xs)
  All-select P p [] h = tt
  All-select P p (x ∷ xs) h = elim (Bool-cases (p x)) [
    | inl e ↦ rw e (h.0, All-select P p xs h.1)
    | inr e ↦ rw e (All-select P p xs h.1)
  ]

  pub All-zip : (P Q : A → Type 0) (xs : List A) → All P xs → All Q xs → All (λ x. P x × Q x) xs
  All-zip P Q [] h k = tt
  All-zip P Q (x ∷ xs) h k = ((h.0, k.0), All-zip P Q xs h.1 k.1)

  pub select_congr :
      (p q : A → Bool) (xs : List A) → All (λ x. p x ≡ q x) xs → select p xs ≡ select q xs
  select_congr p q [] h = refl
  select_congr p q (x ∷ xs) h = rw (h.0, select_congr p q xs h.1)

  pub select_all : (xs : List A) → select (λ _. true) xs ≡ xs
  select_all [] = refl
  select_all (x ∷ xs) = ap (λ t. x ∷ t) (select_all xs)

  -- A list that is not empty ends in an element.
  pub last_of :
      (x : A) (xs : List A)
      → (init : List A) × (item : A) × (x ∷ xs ≡ init ++ item ∷ []) × (last? (x ∷ xs) ≡ some item)
  last_of x [] = ([], x, refl, refl)
  last_of x (y ∷ ys) =
      let (init, item, e, l) = last_of y ys in (x ∷ init, item, ap (λ t. x ∷ t) e, l)

module _ {A : Type 0} (cmp : A → A → Ordering) where
  unfoldable pub insert : A → List A → List A
  insert x [] = x ∷ []
  insert x (y ∷ ys) = if is_lt (cmp x y) then x ∷ (y ∷ ys) else y ∷ insert x ys

  unfoldable pub sort : List A → List A
  unfolding insert
  sort [] = []
  sort (x ∷ xs) = insert x (sort xs)

  abbrev pub Sorted : List A → Type 0
  Sorted [] = Unit
  Sorted (x ∷ xs) = All (λ y. cmp x y ≡ lt) xs × Sorted xs

  abbrev pub Distinct : List A → Type 0
  Distinct [] = Unit
  Distinct (x ∷ xs) = All (λ y. cmp x y ≢ eq) xs × Distinct xs

  pub Distinct-select : (p : A → Bool) (xs : List A) → Distinct xs → Distinct (select p xs)
  Distinct-select p [] h = tt
  Distinct-select p (x ∷ xs) h = elim (Bool-cases (p x)) [
    | inl e ↦ rw e (All-select (λ y. cmp x y ≢ eq) p xs h.0, Distinct-select p xs h.1)
    | inr e ↦ rw e (Distinct-select p xs h.1)
  ]

  All-insert : (P : A → Type 0) (x : A) (xs : List A) → P x → All P xs → All P (insert x xs)
  unfolding insert
  All-insert P x [] h k = (h, tt)
  All-insert P x (y ∷ ys) h k = elim (Bool-cases (is_lt (cmp x y))) [
    | inl e ↦ rw e (h, k)
    | inr e ↦ rw e (k.0, All-insert P x ys h k.1)
  ]

  pub All-sort : (P : A → Type 0) (xs : List A) → All P xs → All P (sort xs)
  unfolding sort
  All-sort P [] h = tt
  All-sort P (x ∷ xs) h = All-insert P x (sort xs) h.0 (All-sort P xs h.1)

  insert-perm : (x : A) (xs : List A) → Perm (insert x xs) (x ∷ xs)
  unfolding insert
  insert-perm x [] = Perm.refl (x ∷ [])
  insert-perm x (y ∷ ys) = elim (Bool-cases (is_lt (cmp x y))) [
    | inl e ↦ rw e (Perm.refl (x ∷ (y ∷ ys)))
    | inr e ↦ rw e (Perm.trans (Perm.cons y (insert-perm x ys)) (Perm.swap x y ys))
  ]

  pub sort-perm : (xs : List A) → Perm (sort xs) xs
  unfolding sort
  sort-perm [] = Perm.refl []
  sort-perm (x ∷ xs) = Perm.trans (insert-perm x (sort xs)) (Perm.cons x (sort-perm xs))

  module _ (order : IsOrder cmp) where
    lt_trans : (a b c : A) → cmp a b ≡ lt → cmp b c ≡ lt → cmp a c ≡ lt
    lt_trans a b c h k = ground (
      arith,
      order.flips a b,
      order.flips a c,
      order.flips b c,
      order.le_trans a b c,
      order.le_trans c a b,
      order.le_trans b c a,
    )

    after_first :
        (x y : A) (ys : List A) → cmp x y ≡ lt → Sorted (y ∷ ys) → All (λ z. cmp x z ≡ lt) ys
    after_first x y ys first h =
        All-map (λ z. cmp y z ≡ lt) (λ z. cmp x z ≡ lt) (λ z k. lt_trans x y z first k) ys h.0

    insert-Sorted :
        (x : A) (xs : List A) → All (λ y. cmp x y ≢ eq) xs → Sorted xs → Sorted (insert x xs)
    unfolding insert
    insert-Sorted x [] d h = (tt, tt)
    insert-Sorted x (y ∷ ys) d h = elim (Bool-cases (is_lt (cmp x y))) [
      | inl e ↦
          let first : cmp x y ≡ lt = ground arith in rw e ((first, after_first x y ys first h), h)
      | inr e ↦
          let after : cmp y x ≡ lt = ground (arith, order.flips x y, d.0) in
          rw e (All-insert (λ z. cmp y z ≡ lt) x ys after h.0, insert-Sorted x ys d.1 h.1)
    ]

    pub sort-Sorted : (xs : List A) → Distinct xs → Sorted (sort xs)
    unfolding sort
    sort-Sorted [] d = tt
    sort-Sorted (x ∷ xs) d =
        insert-Sorted x (sort xs) (All-sort (λ y. cmp x y ≢ eq) xs d.0) (sort-Sorted xs d.1)

    -- Something that compares less than all of a list goes to its front.
    insert_front : (x : A) (xs : List A) → All (λ y. cmp x y ≡ lt) xs → insert x xs ≡ x ∷ xs
    unfolding insert
    insert_front x [] h = refl
    insert_front x (y ∷ ys) h = rw h.0

    select-insert :
        (p : A → Bool) (x : A) (xs : List A)
        → Sorted xs
        → select p (insert x xs) ≡ (if p x then insert x (select p xs) else select p xs)
    unfolding insert
    select-insert p x [] h = refl
    select-insert p x (y ∷ ys) h = elim (Bool-cases (is_lt (cmp x y))) [
      | inl e ↦
          let first : cmp x y ≡ lt = ground arith in
          let front =
            insert_front x (select p ys)
              (All-select (λ z. cmp x z ≡ lt) p ys (after_first x y ys first h)) in
          rw e (ground (arith, front))
      | inr e ↦ rw e (ground (arith, select-insert p x ys h.1))
    ]

    branches :
        (p : A → Bool) (x : A) (sorted xs : List A)
        → select p sorted ≡ sort (select p xs)
        → (if p x then insert x (select p sorted) else select p sorted)
          ≡ sort (if p x then x ∷ select p xs else select p xs)
    unfolding sort
    branches p x sorted xs h = ground arith

    pub select-sort :
        (p : A → Bool) (xs : List A) → Distinct xs → select p (sort xs) ≡ sort (select p xs)
    unfolding sort
    select-sort p [] d = refl
    select-sort p (x ∷ xs) d =
        select-insert p x (sort xs) (sort-Sorted xs d.1)
        ∙ branches p x (sort xs) xs (select-sort p xs d.1)

    select-All_after :
        (c : A) (xs : List A) → All (λ x. cmp c x ≡ lt) xs → select (λ x. is_lt (cmp c x)) xs ≡ xs
    select-All_after c [] h = refl
    select-All_after c (x ∷ xs) h = rw h.0 (ap (λ t. x ∷ t) (select-All_after c xs h.1))

    pub select_after :
        (xs : List A) (c : A) (rest : List A)
        → Sorted (xs ++ c ∷ rest)
        → select (λ x. is_lt (cmp c x)) (xs ++ c ∷ rest) ≡ rest
    select_after [] c rest h =
        let same : cmp c c ≡ eq = ground (arith, order.flips c c) in
        rw same (select-All_after c rest h.0)
    select_after (x ∷ xs) c rest h =
        let before = (All-append_right (λ y. cmp x y ≡ lt) xs (c ∷ rest) h.0).0 in
        let later : cmp c x ≡ gt = ground (arith, order.flips x c, before) in
        rw later (select_after xs c rest h.1)
