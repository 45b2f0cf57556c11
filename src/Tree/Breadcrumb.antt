-- ===== src/Tree/Breadcrumb.antt =====
-- What the loop of `GetBreadcrumb` returns.
use mathlib.Core.List.{reverse, reverse-append}
use ponta_drive_api.Base.{
  ℕ, zero, suc, ◌+◌, ◌≤◌, ◌<◌, ◌≡◌, refl, sym, ap, ◌∙◌, subst, ◌⊎◌, inl, inr, true, false, Option,
  none, some, List, [], ◌∷◌, ◌++◌, arith, length, last?, contains, leb, Option-cases, Bool-cases,
  length-append,
}
use ponta_drive_api.Models.{DriveItem}
use ponta_drive_api.Tree.{parent_link, next_ancestor, climb, breadcrumb}

-- No number stands twice in a list.
abbrev pub NoRepeat : List ℕ → Type 0
NoRepeat [] = Unit
NoRepeat (n ∷ ns) = (contains n ns ≡ false) × NoRepeat ns

abbrev pub ids : List DriveItem → List ℕ
ids [] = []
ids (x ∷ xs) = x.id ∷ ids xs

module _ (row : ℕ → Option DriveItem) where
  -- Each entry is the parent of the one behind it.
  abbrev pub Descends : List DriveItem → Type 0
  Descends [] = Unit
  Descends (a ∷ []) = Unit
  Descends (a ∷ (b ∷ rest)) =
      (parent_link b ≡ some a.id) × (row a.id ≡ some a) × Descends (b ∷ rest)

  -- Why no ancestor follows the first entry: it is at the top, its parent is among the entries, or
  -- its parent cannot be found.
  abbrev pub Ends : List DriveItem → Type 0
  Ends [] = ⊥
  Ends (root ∷ rest) =
      (parent_link root ≡ none)
      ⊎ ((p : ℕ) × (parent_link root ≡ some p)
          × ((contains p (ids (root ∷ rest)) ≡ true) ⊎ (row p ≡ none)))

  -- A breadcrumb of an item, at most `most` entries long.
  pub record IsBreadcrumb (most : ℕ) (item : DriveItem) (r : List DriveItem) : Type 0 where
    pub ends_in_item : last? r ≡ some item
    pub linked : Descends r
    pub no_repeat : NoRepeat (ids r)
    pub short : length r ≤ most
    pub complete : length r < most → Ends r

  next_none :
      (most depth : ℕ) (visited : List ℕ) (link : Option ℕ)
      → next_ancestor row most depth visited link ≡ none
      → depth < most
      → (link ≡ none) ⊎ ((p : ℕ) × (link ≡ some p) × ((contains p visited ≡ true) ⊎ (row p ≡ none)))
  unfolding next_ancestor
  next_none most depth visited none e h = inl refl
  next_none most depth visited (some p) e h =
      let shallow : leb most depth ≡ false = ground arith in
      elim (Bool-cases (contains p visited)) [
        | inl again ↦ inr (p, refl, inl again)
        | inr fresh ↦ inr (p, refl, inr (ground arith))
      ]

  next_some :
      (most depth : ℕ) (visited : List ℕ) (link : Option ℕ) (parent : DriveItem)
      → next_ancestor row most depth visited link ≡ some parent
      → (p : ℕ) × (link ≡ some p)
        × (depth < most)
        × (contains p visited ≡ false)
        × (row p ≡ some parent)
  unfolding next_ancestor
  next_some most depth visited none parent e = absurd (cc)
  next_some most depth visited (some p) parent e =
      (p, refl, ground arith, ground arith, ground arith)

  module _ (found : (n : ℕ) (x : DriveItem) → row n ≡ some x → x.id ≡ n) (most : ℕ)
      (item : DriveItem) where
    -- What the loop keeps, of the chain turned round.
    record Climbing (r : List DriveItem) : Type 0 where
      ends_in_item : last? r ≡ some item
      linked : Descends r
      no_repeat : NoRepeat (ids r)
      short : length r ≤ most

    next_climbs :
        (root parent : DriveItem) (rest : List DriveItem)
        → next_ancestor row most (length (root ∷ rest)) (ids (root ∷ rest)) (parent_link root)
          ≡ some parent
        → Climbing (root ∷ rest)
        → Climbing (parent ∷ (root ∷ rest))
    next_climbs root parent rest e c =
        let (p, link, shallow, fresh, at) =
          next_some most (length (root ∷ rest)) (ids (root ∷ rest)) (parent_link root) parent e in
        let same_id = found p parent at in
        record {
          ends_in_item = c.ends_in_item;
          linked = (link ∙ ap some (sym same_id), ap row same_id ∙ at, c.linked);
          no_repeat = (ap (λ n. contains n (ids (root ∷ rest))) same_id ∙ fresh, c.no_repeat);
          short = shallow;
        }

    -- The loop over the chain turned round, with fuel for the entries that may still come.
    climb-IsBreadcrumb :
        (fuel : ℕ) (chain : List DriveItem) (root : DriveItem) (rest : List DriveItem)
        → reverse chain ≡ root ∷ rest
        → length chain ≡ length (root ∷ rest)
        → most ≤ fuel + length chain
        → Climbing (root ∷ rest)
        → IsBreadcrumb most item (reverse (climb row fuel most chain (ids (root ∷ rest)) root))
    unfolding climb
    climb-IsBreadcrumb zero chain root rest turned same_length enough c = rw turned (record {
      ends_in_item = c.ends_in_item;
      linked = c.linked;
      no_repeat = c.no_repeat;
      short = c.short;
      complete = λ h. absurd (omega arith);
    })
    climb-IsBreadcrumb (suc fuel) chain root rest turned same_length enough c =
        elim (Option-cases
          (next_ancestor row most (length chain) (ids (root ∷ rest)) (parent_link root))) [
            | inl top ↦
                rw (top, climb)
                  (subst (IsBreadcrumb most item) (sym turned) (record {
                    ends_in_item = c.ends_in_item;
                    linked = c.linked;
                    no_repeat = c.no_repeat;
                    short = c.short;
                    complete = λ h.
                        next_none most (length chain) (ids (root ∷ rest)) (parent_link root) top
                          (omega arith);
                  }))
            | inr (parent, e) ↦
                let e' : next_ancestor row most (length (root ∷ rest)) (ids (root ∷ rest))
                      (parent_link root)
                    ≡ some parent =
                  subst
                    (λ n.
                      next_ancestor row most n (ids (root ∷ rest)) (parent_link root) ≡ some parent)
                    same_length e in
                rw (e, climb)
                  (climb-IsBreadcrumb fuel (chain ++ parent ∷ []) parent (root ∷ rest)
                    (reverse-append chain (parent ∷ []) ∙ ap (λ t. parent ∷ t) turned)
                    (omega (arith, length-append chain (parent ∷ [])))
                    (omega (arith, length-append chain (parent ∷ [])))
                    (next_climbs root parent rest e' c))
          ]

-- For every folder tree, also one whose parent links form a cycle or dangle: the breadcrumb of an
-- item ends in the item, holds at most 100 entries and none twice, and each entry is the row that
-- the parent link of the entry behind it names. Unless it has reached 100 entries, its first entry
-- is where the walk cannot go on: at the top, at a parent that is among the entries, or at one that
-- the query does not find. The query by an id finds a row with that id.
pub breadcrumb-IsBreadcrumb :
    (row : ℕ → Option DriveItem) (item : DriveItem)
    → ((n : ℕ) (x : DriveItem) → row n ≡ some x → x.id ≡ n)
    → IsBreadcrumb row 100 item (breadcrumb row item)
unfolding breadcrumb
breadcrumb-IsBreadcrumb row item found =
    climb-IsBreadcrumb row found 100 item 100 (item ∷ []) item [] refl refl (omega arith)
      (record { ends_in_item = refl; linked = tt; no_repeat = (refl, tt); short = omega arith })
