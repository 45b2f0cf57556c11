-- ===== src/Base/Order.antt =====
-- Three-way comparisons that are total orders, and sorting by one: what ORDER BY means.
pub mod Sort
use Prim.Native.Nat.{compare, Ordering, lt, eq, gt}
use ponta_drive_api.Base.{
  ℕ, ◌+◌, ◌≡◌, ◌≢◌, refl, Option, none, some, Bool, true, false, [], ◌∷◌, arith,
}
use ponta_drive_api.Base.Int.{ℤ, pos_part, neg_part}
use ponta_drive_api.Base.Text.{Text}

abbrev pub flip : Ordering → Ordering
flip lt = gt
flip eq = eq
flip gt = lt

-- The second comparison decides where the first finds no difference.
abbrev pub then_by : Ordering → Ordering → Ordering
then_by lt o = lt
then_by eq o = o
then_by gt o = gt

abbrev pub is_lt : Ordering → Bool
is_lt lt = true
is_lt eq = false
is_lt gt = false

abbrev pub is_eq : Ordering → Bool
is_eq lt = false
is_eq eq = true
is_eq gt = false

abbrev pub is_gt : Ordering → Bool
is_gt lt = false
is_gt eq = false
is_gt gt = true

pub record IsOrder {A : Type 0} (cmp : A → A → Ordering) : Type 0 where
  pub flips : (a b : A) → cmp b a ≡ flip (cmp a b)
  pub le_trans : (a b c : A) → cmp a b ≢ gt → cmp b c ≢ gt → cmp a c ≢ gt

-- The signs of an integer are compared through its two parts.
abbrev pub compare_ℤ : ℤ → ℤ → Ordering
compare_ℤ a b = compare (pos_part a + neg_part b) (pos_part b + neg_part a)

-- The lexicographic order of sequences of numbers.
unfoldable pub compare_text : Text → Text → Ordering
compare_text [] [] = eq
compare_text [] (d ∷ t) = lt
compare_text (c ∷ s) [] = gt
compare_text (c ∷ s) (d ∷ t) = then_by (compare c d) (compare_text s t)

pub compare-IsOrder : IsOrder compare
compare-IsOrder = record { flips = λ a b. ground arith; le_trans = λ a b c h k. ground arith }

pub compare_ℤ-IsOrder : IsOrder compare_ℤ
compare_ℤ-IsOrder = record { flips = λ a b. ground arith; le_trans = λ a b c h k. ground arith }

compare_text-flips : (s t : Text) → compare_text t s ≡ flip (compare_text s t)
unfolding compare_text
compare_text-flips [] [] = refl
compare_text-flips [] (d ∷ t) = refl
compare_text-flips (c ∷ s) [] = refl
compare_text-flips (c ∷ s) (d ∷ t) = ground (arith, compare_text-flips s t)

compare_text-le_trans :
    (s t u : Text) → compare_text s t ≢ gt → compare_text t u ≢ gt → compare_text s u ≢ gt
unfolding compare_text
compare_text-le_trans [] t [] h k = cc
compare_text-le_trans [] t (e ∷ u) h k = λ p. cc
compare_text-le_trans (c ∷ s) [] u h k = absurd (h refl)
compare_text-le_trans (c ∷ s) (d ∷ t) [] h k = absurd (k refl)
compare_text-le_trans (c ∷ s) (d ∷ t) (e ∷ u) h k = ground (arith, compare_text-le_trans s t u)

pub compare_text-IsOrder : IsOrder compare_text
compare_text-IsOrder = record { flips = compare_text-flips; le_trans = compare_text-le_trans }

-- A column that may be NULL: NULL comes first in ascending order, as in MySQL, MariaDB and SQLite.
-- Postgres puts it last.
abbrev pub compare_null : Option ℕ → Option ℕ → Ordering
compare_null none none = eq
compare_null none (some b) = lt
compare_null (some a) none = gt
compare_null (some a) (some b) = compare a b

pub compare_null-IsOrder : IsOrder compare_null
compare_null-IsOrder = record { flips = λ a b. ground arith; le_trans = λ a b c h k. ground arith }

module _ {A : Type 0} where
  -- The order of the reversed comparison, as DESC asks for it.
  pub flip-IsOrder : (cmp : A → A → Ordering) → IsOrder cmp → IsOrder (λ a b. flip (cmp a b))
  flip-IsOrder cmp o = record {
    flips = λ a b. ground (arith, o.flips a b);
    le_trans = λ a b c h k. ground (arith, o.flips a b, o.flips b c, o.flips a c, o.le_trans c b a);
  }

  pub on-IsOrder :
      {B : Type 0} (f : A → B) (cmp : B → B → Ordering)
      → IsOrder cmp
      → IsOrder (λ a b. cmp (f a) (f b))
  on-IsOrder f cmp o = record {
    flips = λ a b. o.flips (f a) (f b);
    le_trans = λ a b c. o.le_trans (f a) (f b) (f c);
  }

  pub then_by-IsOrder :
      (f g : A → A → Ordering) → IsOrder f → IsOrder g → IsOrder (λ a b. then_by (f a b) (g a b))
  then_by-IsOrder f g o p = record {
    flips = λ a b. ground (arith, o.flips a b, p.flips a b);
    le_trans = λ a b c h k. ground (
      arith,
      o.flips a b,
      o.flips b c,
      o.flips a c,
      o.le_trans a b c,
      o.le_trans b c a,
      o.le_trans c a b,
      p.le_trans a b c,
    );
  }
