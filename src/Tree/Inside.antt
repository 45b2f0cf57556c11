-- ===== src/Tree/Inside.antt =====
-- The subtree of a folder, and what one child keeps in the search of `CollectDescendantItems` of
-- app/services/cloud_drive_service.go.
use ponta_drive_api.Base.{
  ◌≡◌, refl, sym, ap, ◌∙◌, subst, ℕ, Bool, true, false, not, ◌&&◌, ◌||◌, List, [], ◌∷◌, ◌++◌,
  contains, arith, inl, inr, ◌⊎◌, Bool-cases, ◌==◌, ==_iff, or_split, if◌then◌else◌, Memᴰ,
  append-nil,
}
use ponta_drive_api.Base.Text.{Text, is_empty}
use ponta_drive_api.Models.{DriveItem, is_folder, is_file}
use ponta_drive_api.Tree.{Collected, collect_child}
use ponta_drive_api.Tree.Breadcrumb.{NoRepeat, ids}
use ponta_drive_api.Tree.Rows.{contains-append, ids-append, NoRepeat-append, mem_snoc, same_row}
use ponta_drive_api.Tree.Search.{child_seen, child_visited, child_items, child_queue, pushed}

-- `rows` are the items of the account, each id once; `child n x` says that the query for the
-- children of n finds x. The root is a folder, as in `DeleteItem`, the only caller.
pub record Subtree : Type 0 where
  pub rows : List DriveItem
  pub child : ℕ → DriveItem → Bool
  pub root : DriveItem
  pub unique : NoRepeat (ids rows)
  pub root_row : Memᴰ root rows
  pub root_folder : is_folder root ≡ true

-- The items of the subtree, by way of its folders.
pub data Inside (t : Subtree) : DriveItem → Type 0 where
  top : Inside t t.root
  below :
      {f x : DriveItem}
      → Inside t f
      → is_folder f ≡ true
      → Memᴰ x t.rows
      → t.child f.id x ≡ true
      → Inside t x

-- The keys of the files, in order; a file without a key has none.
abbrev pub has_key : DriveItem → Bool
has_key x = not (is_folder x) && is_file x && not (is_empty x.storage_path)

unfoldable pub keys_of : List DriveItem → List Text
keys_of [] = []
keys_of (x ∷ xs) = let rest = keys_of xs in if has_key x then x.storage_path ∷ rest else rest

keys_of-append : (xs ys : List DriveItem) → keys_of (xs ++ ys) ≡ keys_of xs ++ keys_of ys
unfolding keys_of
keys_of-append [] ys = refl
keys_of-append (x ∷ xs) ys = ground (arith, keys_of-append xs ys)

pub or_true : (b : Bool) → (b || true) ≡ true
or_true b = ground arith

or_swap : (a b : Bool) → (a || b) ≡ (b || (a || false))
or_swap a b = ground arith

module _ (t : Subtree) where
  pub Inside-row : {x : DriveItem} → Inside t x → Memᴰ x t.rows
  Inside-row top = t.root_row
  Inside-row (below f folder row link) = row

  -- All children of an id were seen.
  unfoldable pub Done : List ℕ → ℕ → Type 0
  Done visited n =
      (x : DriveItem) → Memᴰ x t.rows → t.child n x ≡ true → contains x.id visited ≡ true

  -- A folder that was seen is still to be opened, or all its children were seen.
  unfoldable pub Open : (ℕ → Bool) → List ℕ → Type 0
  Open pending visited =
      (f : DriveItem)
      → Memᴰ f t.rows
      → is_folder f ≡ true
      → contains f.id visited ≡ true
      → (pending f.id ≡ true) ⊎ Done visited f.id

  pub Open-see :
      (pending pending' : ℕ → Bool) (visited : List ℕ) (y : DriveItem)
      → ((n : ℕ) → pending n ≡ true → pending' n ≡ true)
      → (is_folder y ≡ true → pending' y.id ≡ true)
      → Memᴰ y t.rows
      → Open pending visited
      → Open pending' (y.id ∷ visited)
  unfolding Open Done
  Open-see pending pending' visited y more now row o f frow folder seen =
      elim (Bool-cases (f.id == y.id)) [
        | inl own ↦
            let e : f ≡ y = same_row t.rows t.unique frow row (ground arith) in
            inl (
              subst (λ (g : DriveItem). pending' g.id ≡ true) (sym e)
                (now (ap is_folder (sym e) ∙ folder)))
        | inr other ↦ elim (o f frow folder (ground arith)) [
          | inl wait ↦ inl (more f.id wait)
          | inr done ↦ inr (λ x xrow link. let d = done x xrow link in ground arith)
        ]
      ]

  pub Open-close :
      (current : ℕ) (pending : ℕ → Bool) (visited : List ℕ)
      → Done visited current
      → Open (λ n. n == current || pending n) visited
      → Open pending visited
  unfolding Open Done
  Open-close current pending visited done o f frow folder seen = elim (o f frow folder seen) [
    | inr d ↦ inr d
    | inl wait ↦ elim (or_split (f.id == current) (pending f.id) wait) [
      | inr p ↦ inl p
      | inl e ↦ inr (subst (Done visited) (sym ((==_iff f.id current).0 e)) done)
    ]
  ]

  -- What each t.child keeps; `pending` are the folders that are still to be opened.
  pub record Good (pending : ℕ → Bool) (c : Collected) : Type 0 where
    pub inside : (x : DriveItem) → Memᴰ x c.all_items → Inside t x
    pub seen : (n : ℕ) → contains n c.visited ≡ contains n (ids c.all_items)
    pub no_repeat : NoRepeat (ids c.all_items)
    pub keys : c.keys ≡ keys_of c.all_items
    pub opened : Open pending c.visited
    pub queued :
        (n : ℕ)
        → contains n c.queue ≡ true
        → (f : DriveItem) × Inside t f × (is_folder f ≡ true) × (f.id ≡ n)

  -- The folder that is being opened, and the queue.
  abbrev pub during : ℕ → Collected → ℕ → Bool
  during current c n = n == current || contains n c.queue

  pushed_more :
      (y : DriveItem) (queue : List ℕ) (n : ℕ)
      → contains n queue ≡ true
      → contains n (pushed y queue) ≡ true
  pushed_more y queue n h = ground (arith, contains-append n queue (y.id ∷ []))

  pushed_now :
      (y : DriveItem) (queue : List ℕ) → is_folder y ≡ true → contains y.id (pushed y queue) ≡ true
  pushed_now y queue h = ground (arith, contains-append y.id queue (y.id ∷ []))

  pushed-cases :
      (y : DriveItem) (queue : List ℕ) (n : ℕ)
      → contains n (pushed y queue) ≡ true
      → (contains n queue ≡ true) ⊎ ((is_folder y ≡ true) × (y.id ≡ n))
  pushed-cases y queue n h = elim (Bool-cases (is_folder y)) [
    | inr file ↦ inl (subst (λ q. contains n q ≡ true) (rw file refl) h)
    | inl folder ↦
        let h' : contains n (queue ++ (y.id ∷ [])) ≡ true =
          subst (λ q. contains n q ≡ true) (rw folder refl) h in
        elim (or_split (contains n queue) (contains n (y.id ∷ []))
          (sym (contains-append n queue (y.id ∷ [])) ∙ h')) [
            | inl old ↦ inl old
            | inr own ↦ inr (folder, ground arith)
          ]
  ]

  child_keys :
      (c : Collected) (y : DriveItem)
      → contains y.id c.visited ≡ false
      → (collect_child c y).keys ≡ c.keys ++ keys_of (y ∷ [])
  unfolding collect_child keys_of
  child_keys c y h = ground (arith, append-nil c.keys)

  pub during_more :
      (current : ℕ) (c : Collected) (y : DriveItem) (n : ℕ)
      → (collect_child c y).queue ≡ pushed y c.queue
      → during current c n ≡ true
      → during current (collect_child c y) n ≡ true
  during_more current c y n queue h = elim (or_split (n == current) (contains n c.queue) h) [
    | inl own ↦ rw own refl
    | inr waits ↦ rw (queue, pushed_more y c.queue n waits) (or_true (n == current))
  ]

  pub during_now :
      (current : ℕ) (c : Collected) (y : DriveItem)
      → (collect_child c y).queue ≡ pushed y c.queue
      → is_folder y ≡ true
      → during current (collect_child c y) y.id ≡ true
  during_now current c y queue h = rw (queue, pushed_now y c.queue h) (or_true (y.id == current))

  seen_child :
      (c : Collected) (y : DriveItem) (n : ℕ)
      → (collect_child c y).visited ≡ y.id ∷ c.visited
      → (collect_child c y).all_items ≡ c.all_items ++ (y ∷ [])
      → contains n c.visited ≡ contains n (ids c.all_items)
      → contains n (collect_child c y).visited ≡ contains n (ids (collect_child c y).all_items)
  seen_child c y n vis items before =
      let names : ids (c.all_items ++ (y ∷ [])) ≡ ids c.all_items ++ (y.id ∷ []) =
        ids-append c.all_items (y ∷ []) in
      let both = contains-append n (ids c.all_items) (y.id ∷ []) in
      rw (vis, items, names, both, before) (or_swap (n == y.id) (contains n (ids c.all_items)))

  pub Good-child :
      (current : ℕ) (c : Collected) (y : DriveItem)
      → Inside t y
      → Good (during current c) c
      → Good (during current (collect_child c y)) (collect_child c y)
  Good-child current c y i g = elim (Bool-cases (contains y.id c.visited)) [
    | inl old ↦ subst (λ d. Good (during current d) d) (sym (child_seen c y old)) g
    | inr new ↦
        let c' = collect_child c y in
        let vis = child_visited c y new in
        let items = child_items c y new in
        let queue = child_queue c y new in
        let fresh : contains y.id (ids c.all_items) ≡ false = sym (g.seen y.id) ∙ new in
        let more : (n : ℕ) → during current c n ≡ true → during current c' n ≡ true =
          λ n h. during_more current c y n queue h in
        let now : is_folder y ≡ true → during current c' y.id ≡ true =
          λ h. during_now current c y queue h in
        record {
          inside = λ x m. elim (mem_snoc c.all_items (subst (Memᴰ x) items m)) [
            | inl before ↦ g.inside x before
            | inr e ↦ subst (Inside t) (sym e) i
          ];
          seen = λ n. seen_child c y n vis items (g.seen n);
          no_repeat =
              subst NoRepeat (sym (ap ids items ∙ ids-append c.all_items (y ∷ [])))
                (NoRepeat-append (ids c.all_items) y.id g.no_repeat fresh);
          keys =
              child_keys c y new
              ∙ ap (λ k. k ++ keys_of (y ∷ [])) g.keys
              ∙ sym (ap keys_of items ∙ keys_of-append c.all_items (y ∷ []));
          opened = subst (Open (during current c')) (sym vis) (
              Open-see (during current c) (during current c') c.visited y more now (Inside-row i)
                g.opened);
          queued = λ n h.
              elim (pushed-cases y c.queue n (subst (λ q. contains n q ≡ true) queue h)) [
                | inl before ↦ g.queued n before
                | inr (folder, own) ↦ (y, i, folder, own)
              ];
        }
  ]
