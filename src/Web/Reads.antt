-- ===== src/Web/Reads.antt =====
-- Handlers that only read.
use ponta_drive_api.Base.{◌≡◌, ◌≢◌, sym, subst, ap, ◌∙◌}
use ponta_drive_api.Web.{Response, payload, Step, go, stop, ended, Handler}

-- A handler that has written nothing and holds `Q` of what it goes on with, or stops with an answer
-- that is no page.
module _ {S D : Type 0} where
  abbrev pub Reads : {A : Type 0} → (A → Type 0) → S → Step D A × S → Type 0
  Reads Q s (go a, s') = Q a × (s' ≡ s)
  Reads Q s (stop x, s') = (d : D) → x ≢ payload 200 d

  pub Reads-then :
      {A B : Type 0} (Q : A → Type 0) (R : B → Type 0) (s : S) (r : Step D A × S)
      (f : A → Handler S D B)
      → Reads Q s r
      → ((a : A) → r ≡ (go a, s) → Q a → Reads R s (f a s))
      → Reads R s (elim r.0 [ go a ↦ f a r.1 | stop x ↦ (stop x, r.1) ])
  Reads-then Q R s (go a, s') f h k =
      subst (λ t. Reads R s (f a t)) (sym h.1) (k a (ap (λ t. (go a, t)) h.1) h.0)
  Reads-then Q R s (stop x, s') f h k = h

  pub Reads-ended :
      (Q : Response D → Type 0) (s s' : S) (d : D) (r : Step D (Response D) × S)
      → Reads Q s r
      → ended r ≡ (payload 200 d, s')
      → Q (payload 200 d) × (s' ≡ s)
  Reads-ended Q s s' d (go a, t) h e = (subst Q (ap (λ r. r.0) e) h.0, sym (ap (λ r. r.1) e) ∙ h.1)
  Reads-ended Q s s' d (stop x, t) h e = absurd (h d (ap (λ r. r.0) e))
