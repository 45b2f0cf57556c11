-- ===== src/Tree/Search.antt =====
-- The loop of `CollectDescendantItems` of app/services/cloud_drive_service.go ends: one child at a
-- time, and the rounds that it takes.
use ponta_drive_api.Base.{
  ◌≡◌, refl, ◌∙◌, subst, ◌⊎◌, ℕ, zero, suc, ◌+◌, ◌≤◌, ◌<◌, true, false, not, Option, some, List, [],
  ◌∷◌, ◌++◌, length, contains, select, leb, arith, inl, inr, Bool-cases, ◌==◌, length-append,
  if◌then◌else◌,
}
use ponta_drive_api.Models.{DriveItem, is_folder}
use ponta_drive_api.Tree.{Collected, collect_child, collect_children, collect}

-- A child whose id was seen changes nothing.
pub child_seen :
    (c : Collected) (child : DriveItem)
    → contains child.id c.visited ≡ true
    → collect_child c child ≡ c
unfolding collect_child
child_seen c child h = rw h refl

-- A child that is new is noted, and a folder is queued.
abbrev pub pushed : DriveItem → List ℕ → List ℕ
pushed child queue = if is_folder child then queue ++ (child.id ∷ []) else queue

pub child_visited :
    (c : Collected) (child : DriveItem)
    → contains child.id c.visited ≡ false
    → (collect_child c child).visited ≡ child.id ∷ c.visited
unfolding collect_child
child_visited c child h = ground arith

pub child_items :
    (c : Collected) (child : DriveItem)
    → contains child.id c.visited ≡ false
    → (collect_child c child).all_items ≡ c.all_items ++ (child ∷ [])
unfolding collect_child
child_items c child h = ground arith

pub child_queue :
    (c : Collected) (child : DriveItem)
    → contains child.id c.visited ≡ false
    → (collect_child c child).queue ≡ pushed child c.queue
unfolding collect_child
child_queue c child h = ground arith

-- How many ids of a list were not seen.
abbrev pub unseen : List ℕ → List ℕ → ℕ
unseen all visited = length (select (λ n. not (contains n visited)) all)

unseen_le : (all visited : List ℕ) (n : ℕ) → unseen all (n ∷ visited) ≤ unseen all visited
unseen_le [] visited n = omega arith
unseen_le (m ∷ all) visited n = ground (arith, unseen_le all visited n)

unseen_lt :
    (all visited : List ℕ) (n : ℕ)
    → contains n all ≡ true
    → contains n visited ≡ false
    → unseen all (n ∷ visited) < unseen all visited
unseen_lt [] visited n h k = absurd (ground arith)
unseen_lt (m ∷ all) visited n h k = elim (Bool-cases (n == m)) [
  | inl own ↦
      let e : n ≡ m = ground arith in
      let k' : contains m visited ≡ false = subst (λ i. contains i visited ≡ false) e k in
      let own' : (m == n) ≡ true = ground arith in
      rw (k', own') (omega (arith, unseen_le all visited n))
  | inr other ↦ ground (arith, unseen_lt all visited n)
]

length-pushed :
    (child : DriveItem) (queue : List ℕ) → length (pushed child queue) ≤ suc (length queue)
length-pushed child queue = ground (arith, length-append queue (child.id ∷ []))

-- What is queued and what was not seen, together.
abbrev pub work : List ℕ → Collected → ℕ
work all c = length c.queue + unseen all c.visited

child_work :
    (all : List ℕ) (c : Collected) (child : DriveItem)
    → contains child.id all ≡ true
    → work all (collect_child c child) ≤ work all c
child_work all c child h = elim (Bool-cases (contains child.id c.visited)) [
  | inl seen ↦ rw (child_seen c child seen) (omega arith)
  | inr new ↦
      rw (child_queue c child new, child_visited c child new)
        (omega (arith, length-pushed child c.queue, unseen_lt all c.visited child.id h new))
]

-- Ids that all stand in a list.
abbrev pub AllIn : List ℕ → List DriveItem → Type 0
AllIn all [] = Unit
AllIn all (x ∷ xs) = (contains x.id all ≡ true) × AllIn all xs

children_work :
    (all : List ℕ) (c : Collected) (found : List DriveItem)
    → AllIn all found
    → work all (collect_children c found) ≤ work all c
unfolding collect_children
children_work all c [] h = omega arith
children_work all c (child ∷ rest) (h, hs) =
    omega (arith, child_work all c child h, children_work all (collect_child c child) rest hs)

abbrev pub popped : Collected → List ℕ → Collected
popped c queue = record c { queue = queue }

module _ (children : ℕ → Option (List DriveItem)) where
  -- One round of the loop below its cap.
  pub collect_round :
      (fuel most current : ℕ) (queue : List ℕ) (c : Collected) (found : List DriveItem)
      → c.queue ≡ current ∷ queue
      → leb most (length c.all_items) ≡ false
      → children current ≡ some found
      → collect children (suc fuel) most c
        ≡ collect children fuel most (collect_children (popped c queue) found)
  unfolding collect
  collect_round fuel most current queue c found h k l = rw h (rw k (rw l refl))

  pub collect_empty :
      (fuel most : ℕ) (c : Collected)
      → c.queue ≡ []
      → collect children (suc fuel) most c ≡ some (some c)
  unfolding collect
  collect_empty fuel most c h = rw h refl

  pub collect_full :
      (fuel most current : ℕ) (queue : List ℕ) (c : Collected)
      → c.queue ≡ current ∷ queue
      → leb most (length c.all_items) ≡ true
      → collect children (suc fuel) most c ≡ some (some c)
  unfolding collect
  collect_full fuel most current queue c h k = rw h (rw k refl)

  queue_cases : (queue : List ℕ) → (queue ≡ []) ⊎ ((n : ℕ) × (ns : List ℕ) × (queue ≡ n ∷ ns))
  queue_cases [] = inl refl
  queue_cases (n ∷ ns) = inr (n, ns, refl)

  module _ (all : List ℕ) (kids : ℕ → List DriveItem)
      (answers : (n : ℕ) → children n ≡ some (kids n)) (known : (n : ℕ) → AllIn all (kids n))
      (Inv : Collected → Type 0)
      (keeps : (c : Collected) (current : ℕ) (queue : List ℕ)
        → c.queue ≡ current ∷ queue
        → Inv c
        → Inv (collect_children (popped c queue) (kids current))) where
    -- The loop ends when it has a round for each id that is queued or was not seen, and one more. It
    -- keeps what each round keeps, and stops when the queue is empty or the cap is reached.
    pub collect_ends :
        (fuel most : ℕ) (c : Collected)
        → Inv c
        → work all c < fuel
        → (c' : Collected) × (collect children fuel most c ≡ some (some c'))
          × Inv c'
          × ((c'.queue ≡ []) ⊎ (most ≤ length c'.all_items))
    collect_ends zero most c i h = absurd (omega arith)
    collect_ends (suc fuel) most c i h = elim (queue_cases c.queue) [
      | inl empty ↦ (c, collect_empty fuel most c empty, i, inl empty)
      | inr (current, queue, e) ↦ elim (Bool-cases (leb most (length c.all_items))) [
        | inl full ↦ (c, collect_full fuel most current queue c e full, i, inr (ground arith))
        | inr room ↦
            let next = collect_children (popped c queue) (kids current) in
            let shorter : length c.queue ≡ suc (length queue) = rw e refl in
            let less : work all next < fuel =
              omega (arith, children_work all (popped c queue) (kids current) (known current)) in
            let (c', runs, kept, stops) =
              collect_ends fuel most next (keeps c current queue e i) less in
            (
              c',
              collect_round fuel most current queue c (kids current) e room (answers current)
                  ∙ runs,
              kept,
              stops,
            )
      ]
    ]
