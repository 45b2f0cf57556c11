-- ===== src/Tree/Rows.antt =====
-- Rows of the items, by their ids: the lemmas on lists behind the search of
-- `CollectDescendantItems`.
use ponta_drive_api.Base.{
  ◌≡◌, refl, sym, ap, ◌∙◌, subst, ℕ, Bool, true, false, ◌||◌, List, [], ◌∷◌, ◌++◌, contains, select,
  arith, inl, inr, ◌⊎◌, Bool-cases, ◌==◌, Memᴰ,
}
use ponta_drive_api.Models.{DriveItem}
use ponta_drive_api.Tree.Breadcrumb.{NoRepeat, ids}

pub contains-append :
    (n : ℕ) (xs ys : List ℕ) → contains n (xs ++ ys) ≡ (contains n xs || contains n ys)
contains-append n [] ys = refl
contains-append n (x ∷ xs) ys = ground (arith, contains-append n xs ys)

pub ids-append : (xs ys : List DriveItem) → ids (xs ++ ys) ≡ ids xs ++ ids ys
ids-append [] ys = refl
ids-append (x ∷ xs) ys = ap (λ t. x.id ∷ t) (ids-append xs ys)

pub NoRepeat-append :
    (ns : List ℕ) (n : ℕ) → NoRepeat ns → contains n ns ≡ false → NoRepeat (ns ++ (n ∷ []))
NoRepeat-append [] n h k = (refl, tt)
NoRepeat-append (m ∷ ns) n (fresh, rest) k =
    let away : contains m (n ∷ []) ≡ false = ground arith in
    (
      contains-append m ns (n ∷ []) ∙ rw (fresh, away) refl,
      NoRepeat-append ns n rest (ground arith),
    )

pub mem_snoc :
    {x y : DriveItem} (xs : List DriveItem) → Memᴰ x (xs ++ (y ∷ [])) → Memᴰ x xs ⊎ (x ≡ y)
mem_snoc [] (Memᴰ.head e) = inr e
mem_snoc [] (Memᴰ.tail m) = elim m [ ]
mem_snoc (z ∷ xs) (Memᴰ.head e) = inl (Memᴰ.head e)
mem_snoc (z ∷ xs) (Memᴰ.tail m) = elim (mem_snoc xs m) [ inl l ↦ inl (Memᴰ.tail l) | inr e ↦ inr e ]

pub select_yes :
    (p : DriveItem → Bool) (y : DriveItem) (ys : List DriveItem)
    → p y ≡ true
    → select p (y ∷ ys) ≡ y ∷ select p ys
select_yes p y ys h = rw h refl

pub select_no :
    (p : DriveItem → Bool) (y : DriveItem) (ys : List DriveItem)
    → p y ≡ false
    → select p (y ∷ ys) ≡ select p ys
select_no p y ys h = rw h refl

pub mem_cons : {x y : DriveItem} (ys : List DriveItem) → Memᴰ x (y ∷ ys) → (x ≡ y) ⊎ Memᴰ x ys
mem_cons ys (Memᴰ.head e) = inl e
mem_cons ys (Memᴰ.tail m) = inr m

pub mem_select :
    (p : DriveItem → Bool) {x : DriveItem} (xs : List DriveItem)
    → Memᴰ x (select p xs)
    → Memᴰ x xs × (p x ≡ true)
mem_select p [] m = elim m [ ]
mem_select p {x} (y ∷ ys) m = elim (Bool-cases (p y)) [
  | inl e ↦ elim (mem_cons (select p ys) (subst (Memᴰ x) (select_yes p y ys e) m)) [
    | inl own ↦ (Memᴰ.head own, ap p own ∙ e)
    | inr later ↦ let (m', h) = mem_select p ys later in (Memᴰ.tail m', h)
  ]
  | inr e ↦
      let (m', h) = mem_select p ys (subst (Memᴰ x) (select_no p y ys e) m) in (Memᴰ.tail m', h)
]

pub select_mem :
    (p : DriveItem → Bool) {x : DriveItem} (xs : List DriveItem)
    → Memᴰ x xs
    → p x ≡ true
    → Memᴰ x (select p xs)
select_mem p [] m h = elim m [ ]
select_mem p {x} (y ∷ ys) (Memᴰ.head e) h =
    subst (Memᴰ x) (sym (select_yes p y ys (ap p (sym e) ∙ h))) (Memᴰ.head e)
select_mem p {x} (y ∷ ys) (Memᴰ.tail m) h = elim (Bool-cases (p y)) [
  | inl e ↦ subst (Memᴰ x) (sym (select_yes p y ys e)) (Memᴰ.tail (select_mem p ys m h))
  | inr e ↦ subst (Memᴰ x) (sym (select_no p y ys e)) (select_mem p ys m h)
]

pub mem_ids : {x : DriveItem} (xs : List DriveItem) → Memᴰ x xs → contains x.id (ids xs) ≡ true
mem_ids [] m = elim m [ ]
mem_ids (y ∷ ys) (Memᴰ.head e) = let e' = ap (λ (i : DriveItem). i.id) e in ground arith
mem_ids (y ∷ ys) (Memᴰ.tail m) = ground (arith, mem_ids ys m)

-- A row is known by its id.
pub same_row :
    {x y : DriveItem} (rows : List DriveItem)
    → NoRepeat (ids rows)
    → Memᴰ x rows
    → Memᴰ y rows
    → x.id ≡ y.id
    → x ≡ y
same_row [] u m n h = elim m [ ]
same_row (r ∷ rows) u (Memᴰ.head e) (Memᴰ.head f) h = e ∙ sym f
same_row (r ∷ rows) (u, us) (Memᴰ.tail m) (Memᴰ.tail n) h = same_row rows us m n h
same_row (r ∷ rows) (u, us) (Memᴰ.head e) (Memᴰ.tail n) h =
    let e' = ap (λ (i : DriveItem). i.id) e in absurd (cc (mem_ids rows n))
same_row (r ∷ rows) (u, us) (Memᴰ.tail m) (Memᴰ.head f) h =
    let f' = ap (λ (i : DriveItem). i.id) f in absurd (cc (mem_ids rows m))

-- An id is that of a row.
pub ids_mem :
    (n : ℕ) (xs : List DriveItem)
    → contains n (ids xs) ≡ true
    → (x : DriveItem) × Memᴰ x xs × (x.id ≡ n)
ids_mem n [] h = absurd cc
ids_mem n (x ∷ xs) h = elim (Bool-cases (n == x.id)) [
  | inl own ↦ (x, Memᴰ.head refl, ground arith)
  | inr other ↦ let (y, m, e) = ids_mem n xs (ground arith) in (y, Memᴰ.tail m, e)
]
