-- ===== src/Web.antt =====
-- What the controllers of app/http/controllers share: the answers that they give, and the actions
-- that their handlers are written in.
--
-- `S` is the state of the world behind the handlers. A handler that returns early stops with its
-- answer, and what it has written by then stays written.
pub mod Reads
use ponta_drive_api.Base.{ℕ, Bool, true, false, Option, none, some}
use ponta_drive_api.Base.Text.{Text}

-- An answer with data; one with a message of success; one of `failResponse`, or of the same shape,
-- with its status; the answer 422 with the messages of the validator; the answer 400 to a request
-- that cannot be read. A message is the key that `Lang` translates.
pub data Response (D : Type 0) : Type 0 where
  payload : ℕ → D → Response D
  notice : Text → Response D
  failed : ℕ → Text → Response D
  rejected : Response D
  malformed : Response D

-- What `ValidateRequest` makes of a request.
pub data Form (R : Type 0) : Type 0 where
  unreadable : Form R
  violated : Form R
  accepted : R → Form R

pub data Step (D A : Type 0) : Type 0 where
  go : A → Step D A
  stop : Response D → Step D A

abbrev pub Handler : Type 0 → Type 0 → Type 0 → Type 0
Handler S D A = S → Step D A × S

module _ {S D A : Type 0} where
  abbrev pub pure : A → Handler S D A
  pure a s = (go a, s)

  abbrev pub answer : Response D → Handler S D A
  answer r s = (stop r, s)

  abbrev pub ask : (S → A) → Handler S D A
  ask f s = (go (f s), s)

  abbrev pub perform : (S → A × S) → Handler S D A
  perform f s = let (a, s') = f s in (go a, s')

  abbrev pub or_answer : Option A → Response D → Handler S D A
  or_answer none r s = (stop r, s)
  or_answer (some a) r s = (go a, s)

  abbrev pub validated : Form A → Handler S D A
  validated unreadable s = (stop malformed, s)
  validated violated s = (stop rejected, s)
  validated (accepted a) s = (go a, s)

  -- As `validated`, where the controller answers a request that cannot be read by `failResponse`.
  abbrev pub validated_as : Text → Form A → Handler S D A
  validated_as key unreadable s = (stop (failed 400 key), s)
  validated_as key violated s = (stop rejected, s)
  validated_as key (accepted a) s = (go a, s)

infixl 5 ◌>>=◌ ◌>>◌
abbrev pub ◌>>=◌ : {S D A B : Type 0} → Handler S D A → (A → Handler S D B) → Handler S D B
◌>>=◌ m f s = let (r, s') = m s in elim r [ go a ↦ f a s' | stop r ↦ (stop r, s') ]

abbrev pub ◌>>◌ : {S D A B : Type 0} → Handler S D A → Handler S D B → Handler S D B
m >> k = m >>= λ _. k

abbrev pub answer_if : {S D : Type 0} → Bool → Response D → Handler S D (Unit {0})
answer_if true r s = (stop r, s)
answer_if false r s = (go tt, s)

-- The answer of a handler that ends in one.
abbrev pub ended : {S D : Type 0} → Step D (Response D) × S → Response D × S
ended (go r, s) = (r, s)
ended (stop r, s) = (r, s)
