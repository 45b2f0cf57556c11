-- ===== src/Service/Post.antt =====
-- Postconditions of the actions of the drive service: an invariant of the state that holds however a
-- run ends, and what is known of its result.
use ponta_drive_api.Base.{◌≡◌, refl, Bool, true, false, if◌then◌else◌, Option, none, some}
use ponta_drive_api.Service.{Error, Outcome, ok, err, State, or_raise, raise_if, Action}

module _ {S : Type 0} (P : State S → Type 0) where
  pub data Post {A : Type 0} (Q : A → Type 0) : Outcome A × State S → Type 0 where
    returns : (a : A) (s : State S) → P s → Q a → Post Q (ok a, s)
    raises : (e : Error) (s : State S) → P s → Post Q (err e, s)

  pub Post-state : {A : Type 0} {Q : A → Type 0} {r : Outcome A × State S} → Post Q r → P r.1
  Post-state (returns a s p q) = p
  Post-state (raises e s p) = p

  pub Post-weaken :
      {A : Type 0} {Q R : A → Type 0} {r : Outcome A × State S}
      → ((a : A) → Q a → R a)
      → Post Q r
      → Post R r
  Post-weaken f (returns a s p q) = returns a s p (f a q)
  Post-weaken f (raises e s p) = raises e s p

  pub Post-or_raise :
      {A : Type 0} (found : Option A) (e : Error) (s : State S)
      → P s
      → Post (λ a. found ≡ some a) (or_raise found e s)
  Post-or_raise none e s p = raises e s p
  Post-or_raise (some a) e s p = returns a s p refl

  pub Post-raise_if :
      (b : Bool) (e : Error) (s : State S) → P s → Post (λ _. Unit {0}) (raise_if b e s)
  Post-raise_if true e s p = raises e s p
  Post-raise_if false e s p = returns tt s p tt

  -- What stands behind `>>=`.
  pub Post-then :
      {A B : Type 0} {Q : A → Type 0} {R : B → Type 0} (r : Outcome A × State S)
      {g : A → Outcome B × State S}
      → Post Q r
      → ((a : A) → P r.1 → Q a → Post R (g a))
      → Post R (elim r.0 [ ok a ↦ g a | err e ↦ (err e, r.1) ])
  Post-then r (returns a s p q) k = k a p q
  Post-then r (raises e s p) k = raises e s p

  abbrev pub Where : {A : Type 0} → (A → Type 0) → Option A → Type 0
  Where Q none = Unit
  Where Q (some a) = Q a

  -- What stands behind `attempt`.
  pub Post-attempt :
      {A : Type 0} {Q : A → Type 0} (r : Outcome A × State S)
      → Post Q r
      → Post (Where Q) (elim r.0 [ ok a ↦ (ok (some a), r.1) | err e ↦ (ok none, r.1) ])
  Post-attempt r (returns a s p q) = returns (some a) s p q
  Post-attempt r (raises e s p) = returns none s p tt

  pub Post-if :
      {A : Type 0} {Q : A → Type 0} (b : Bool) (m n : Action S A) (s : State S)
      → Post Q (m s)
      → Post Q (n s)
      → Post Q ((if b then m else n) s)
  Post-if true m n s h k = h
  Post-if false m n s h k = k
