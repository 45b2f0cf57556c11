-- ===== src/Service/Runs.antt =====
-- What a run of an action that ends in a result has gone through.
use ponta_drive_api.Base.{
  ℕ, ◌<◌, ◌≡◌, refl, ◌⊎◌, Option, none, some, arith, ◌==◌, Bool-cases, inl, inr,
}
use ponta_drive_api.Service.{Error, Outcome, ok, err, found}

pub Outcome-cases :
    {A : Type 0} (r : Outcome A) → ((a : A) × (r ≡ ok a)) ⊎ ((e : Error) × (r ≡ err e))
Outcome-cases (ok a) = inl (a, refl)
Outcome-cases (err e) = inr (e, refl)

pub found-some :
    {A : Type 0} (id_of : A → ℕ) (o : Option A) (a : A)
    → found id_of o ≡ some a
    → (o ≡ some a) × (0 < id_of a)
found-some id_of none a h = absurd (cc)
found-some id_of (some b) a h = elim (Bool-cases (id_of b == 0)) [
  | inl zero_id ↦ absurd (ground arith)
  | inr saved ↦ ground arith
]
