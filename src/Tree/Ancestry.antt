-- ===== src/Tree/Ancestry.antt =====
-- `isSelfOrDescendant` decides whether a walk up the parent links leads from one item to another.
use ponta_drive_api.Base.{
  ℕ, zero, suc, ◌<◌, ◌≡◌, sym, ap, ◌∙◌, subst, inl, inr, true, false, Option, none, some, List, ◌∷◌,
  arith, contains, ◌==◌, Bool-cases, Option-cases, ==_iff, or_split,
}
use ponta_drive_api.Models.{DriveItem}
use ponta_drive_api.Tree.{link_of, ascends}

-- The parent link of a row.
abbrev pub Edge : (ℕ → Option DriveItem) → ℕ → ℕ → Type 0
Edge row n p = (node : DriveItem) × (row n ≡ some node) × (node.parent_id ≡ some p)

-- The walks up the parent links that end in `target`, by where they begin.
pub data Above (row : ℕ → Option DriveItem) (target : ℕ) : ℕ → Type 0 where
  here : Above row target target
  up : {n p : ℕ} → Edge row n p → Above row target p → Above row target n

-- No item is above itself.
abbrev pub IsForest : (ℕ → Option DriveItem) → Type 0
IsForest row = (n p : ℕ) → Edge row n p → ¬ Above row n p

unfoldable pub steps : {row : ℕ → Option DriveItem} {target n : ℕ} → Above row target n → ℕ
steps here = 0
steps (up e w) = suc (steps w)

link-Edge : (row : ℕ → Option DriveItem) (n p : ℕ) → link_of (row n) ≡ some p → Edge row n p
link-Edge row n p h = elim (Option-cases (row n)) [
  | inl missing ↦ absurd (cc (subst (λ o. link_of o ≡ some p) missing h))
  | inr (node, at) ↦ (node, at, subst (λ o. link_of o ≡ some p) at h)
]

Edge-link : (row : ℕ → Option DriveItem) (n p : ℕ) → Edge row n p → link_of (row n) ≡ some p
Edge-link row n p (node, at, link) = ap link_of at ∙ link

pub Above-trans :
    {row : ℕ → Option DriveItem} {top middle n : ℕ}
    → Above row middle n
    → Above row top middle
    → Above row top n
Above-trans here v = v
Above-trans (up e w) v = up e (Above-trans w v)

module _ (row : ℕ → Option DriveItem) where
  -- A positive answer is always right.
  pub ascends_sound :
      (fuel : ℕ) (visited : List ℕ) (current target : ℕ)
      → ascends row fuel visited current target ≡ true
      → Above row target current
  unfolding ascends
  ascends_sound zero visited current target h = absurd (cc)
  ascends_sound (suc fuel) visited current target h = elim (Bool-cases (current == target)) [
    | inl same ↦ subst (Above row target) (sym ((==_iff current target).0 same)) here
    | inr other ↦ elim (Option-cases (link_of (row current))) [
      | inl top ↦ absurd (ground arith)
      | inr (p, link) ↦
          up (link-Edge row current p link)
            (ascends_sound fuel (current ∷ visited) p target (ground arith))
    ]
  ]

  -- Each visited item has a parent link from which the walk came to the current item.
  abbrev ComesFrom : List ℕ → ℕ → Type 0
  ComesFrom visited current =
      (v : ℕ) → contains v visited ≡ true → (p : ℕ) × Edge row v p × Above row current p

  comes_on :
      (visited : List ℕ) (current p : ℕ)
      → Edge row current p
      → ComesFrom visited current
      → ComesFrom (current ∷ visited) p
  comes_on visited current p e from v h = elim (or_split (v == current) (contains v visited) h) [
    | inl same ↦ (p, subst (λ n. Edge row n p) (sym ((==_iff v current).0 same)) e, here)
    | inr older ↦ let (q, edge, w) = from v older in (q, edge, Above-trans w (up e here))
  ]

  not_visited :
      (visited : List ℕ) (current : ℕ)
      → IsForest row
      → ComesFrom visited current
      → contains current visited ≡ false
  not_visited visited current forest from = elim (Bool-cases (contains current visited)) [
    | inl again ↦ let (p, edge, w) = from current again in absurd (forest current p edge w)
    | inr fresh ↦ fresh
  ]

  -- In a forest a walk that is shorter than the fuel is found.
  pub ascends_complete :
      (forest : IsForest row) (no_zero : row 0 ≡ none) (fuel : ℕ) (visited : List ℕ)
      (current target : ℕ) (w : Above row target current)
      → 0 < target
      → steps w < fuel
      → ComesFrom visited current
      → ascends row fuel visited current target ≡ true
  unfolding ascends steps
  ascends_complete forest no_zero zero visited current target w pos_target h from =
      absurd (omega arith)
  ascends_complete forest no_zero (suc fuel) visited current target here pos_target h from =
      ground arith
  ascends_complete forest no_zero (suc fuel) visited current target (up {p} e w) pos_target h from =
      let onward =
        ascends_complete forest no_zero fuel (current ∷ visited) p target w pos_target (omega arith)
          (comes_on visited current p e from) in
      let fresh = not_visited visited current forest from in
      let link = Edge-link row current p e in
      elim (Bool-cases (current == 0)) [
        | inl zero_id ↦
            let at_zero : link_of (row 0) ≡ some p =
              subst (λ n. link_of (row n) ≡ some p) ((==_iff current 0).0 zero_id) link in
            absurd (cc (at_zero, no_zero))
        | inr positive_id ↦ rw positive_id (ground (arith, onward, fresh, link))
      ]
