-- ===== src/Tree/Descendants.antt =====
-- What `CollectDescendantItems` of app/services/cloud_drive_service.go collects.
use ponta_drive_api.Base.{
  ◌≡◌, refl, sym, ◌∙◌, subst, ℕ, ◌<◌, ◌≤◌, ◌+◌, suc, Bool, true, false, not, Option, some, List, [],
  ◌∷◌, length, length-select-le, contains, select, arith, inl, inr, Bool-cases, ◌==◌, Memᴰ,
}
use ponta_drive_api.Base.Int.{pos}
use ponta_drive_api.Models.{DriveItem, is_folder}
use ponta_drive_api.Tree.{Collected, collect_child, collect_children, collect}
use ponta_drive_api.Tree.Breadcrumb.{NoRepeat, ids}
use ponta_drive_api.Tree.Rows.{
  select_yes, select_no, mem_select, select_mem, mem_ids, same_row, ids_mem,
}
use ponta_drive_api.Tree.Search.{child_seen, child_visited, work, AllIn, popped, collect_ends}
use ponta_drive_api.Tree.Inside.{
  Subtree, Inside, top, below, keys_of, or_true, Inside-row, Done, Open, Open-close, Good, during,
  Good-child,
}

module _ (t : Subtree) where
  Good-children :
      (current : ℕ) (c : Collected) (ks : List DriveItem)
      → ((x : DriveItem) → Memᴰ x ks → Inside t x)
      → Good t (during t current c) c
      → Good t (during t current (collect_children c ks)) (collect_children c ks)
  unfolding collect_children
  Good-children current c [] i g = g
  Good-children current c (y ∷ ks) i g =
      Good-children current (collect_child c y) ks (λ x m. i x (Memᴰ.tail m))
        (Good-child t current c y (i y (Memᴰ.head refl)) g)

  child_grows :
      (c : Collected) (y : DriveItem) (n : ℕ)
      → contains n c.visited ≡ true
      → contains n (collect_child c y).visited ≡ true
  child_grows c y n h = elim (Bool-cases (contains y.id c.visited)) [
    | inl old ↦ rw (child_seen c y old) h
    | inr new ↦ rw (child_visited c y new, h) (or_true (n == y.id))
  ]

  child_noted : (c : Collected) (y : DriveItem) → contains y.id (collect_child c y).visited ≡ true
  child_noted c y = elim (Bool-cases (contains y.id c.visited)) [
    | inl old ↦ rw (child_seen c y old) old
    | inr new ↦ rw (child_visited c y new) (ground arith)
  ]

  children_grow :
      (c : Collected) (ks : List DriveItem) (n : ℕ)
      → contains n c.visited ≡ true
      → contains n (collect_children c ks).visited ≡ true
  unfolding collect_children
  children_grow c [] n h = h
  children_grow c (y ∷ ks) n h = children_grow (collect_child c y) ks n (child_grows c y n h)

  children_noted :
      (c : Collected) (ks : List DriveItem) (x : DriveItem)
      → Memᴰ x ks
      → contains x.id (collect_children c ks).visited ≡ true
  unfolding collect_children
  children_noted c [] x m = elim m [ ]
  children_noted c (y ∷ ks) x (Memᴰ.head e) = children_grow (collect_child c y) ks x.id (
      subst (λ (z : DriveItem). contains z.id (collect_child c y).visited ≡ true) (sym e)
        (child_noted c y))
  children_noted c (y ∷ ks) x (Memᴰ.tail m) = children_noted (collect_child c y) ks x m

  abbrev waiting : Collected → ℕ → Bool
  waiting c n = contains n c.queue

  Good-popped :
      (c : Collected) (current : ℕ) (queue : List ℕ)
      → c.queue ≡ current ∷ queue
      → Good t (waiting c) c
      → Good t (during t current (popped c queue)) (popped c queue)
  Good-popped c current queue e g = record {
    inside = g.inside;
    seen = g.seen;
    no_repeat = g.no_repeat;
    keys = g.keys;
    opened = subst (λ q. Open t (λ n. contains n q) c.visited) e g.opened;
    queued = λ n h. g.queued n (rw (e, h) (or_true (n == current)));
  }

  all_seen :
      (current : ℕ) (c : Collected)
      → Done t (collect_children c (select (t.child current) t.rows)).visited current
  unfolding Done
  all_seen current c x row link =
      children_noted c (select (t.child current) t.rows) x
        (select_mem (t.child current) t.rows row link)

  -- A round opens the folder in front of the queue.
  Good-round :
      (c : Collected) (current : ℕ) (queue : List ℕ)
      → c.queue ≡ current ∷ queue
      → Good t (waiting c) c
      → Good t
          (waiting (collect_children (popped c queue) (select (t.child current) t.rows)))
          (collect_children (popped c queue) (select (t.child current) t.rows))
  Good-round c current queue e g =
      let ks = select (t.child current) t.rows in
      let c' = collect_children (popped c queue) ks in
      let front : contains current c.queue ≡ true = rw e (ground arith) in
      let (f, inside_f, folder, own) = g.queued current front in
      let kids : (x : DriveItem) → Memᴰ x ks → Inside t x = λ x m.
        let (row, link) = mem_select (t.child current) t.rows m in
        below inside_f folder row (subst (λ n. t.child n x ≡ true) (sym own) link) in
      let all_kids : Done t c'.visited current = all_seen current (popped c queue) in
      let during_kids =
        Good-children current (popped c queue) ks kids (Good-popped c current queue e g) in
      record {
        inside = during_kids.inside;
        seen = during_kids.seen;
        no_repeat = during_kids.no_repeat;
        keys = during_kids.keys;
        opened = Open-close t current (waiting c') c'.visited all_kids during_kids.opened;
        queued = during_kids.queued;
      }

  -- What the loop starts from.
  abbrev pub start : Collected
  start = record {
    queue = t.root.id ∷ [];
    visited = t.root.id ∷ [];
    all_items = t.root ∷ [];
    keys = [];
    total_size = pos 0;
  }

  no_folder_key : (x : DriveItem) → is_folder x ≡ true → [] ≡ keys_of (x ∷ [])
  unfolding keys_of
  no_folder_key x h = rw h refl

  start_open : Open t (waiting start) (t.root.id ∷ [])
  unfolding Open
  start_open f row folder seen = inl seen

  Good-start : Good t (waiting start) start
  Good-start = record {
    inside = λ x m. subst (Inside t) (sym (only m)) top;
    seen = λ n. refl;
    no_repeat = (refl, tt);
    keys = no_folder_key t.root t.root_folder;
    opened = start_open;
    queued = λ n h. (t.root, top, t.root_folder, own n h);
  }
    where
      only : {x : DriveItem} → Memᴰ x (t.root ∷ []) → x ≡ t.root
      only (Memᴰ.head e) = e
      only (Memᴰ.tail m) = elim m [ ]

      own : (n : ℕ) → contains n (t.root.id ∷ []) ≡ true → t.root.id ≡ n
      own n h = ground arith

  -- Once the queue is empty, everything inside was seen.
  seen_by_then :
      (c : Collected)
      → Open t (λ n. false) c.visited
      → contains t.root.id c.visited ≡ true
      → {x : DriveItem} → Inside t x
      → contains x.id c.visited ≡ true
  unfolding Open Done
  seen_by_then c o root_seen top = root_seen
  seen_by_then c o root_seen (below {f} {x} i folder row link) =
      elim (o f (Inside-row t i) folder (seen_by_then c o root_seen i)) [
        | inl wait ↦ absurd cc
        | inr done ↦ done x row link
      ]

  AllIn-select :
      (all : List ℕ) (p : DriveItem → Bool) (xs : List DriveItem)
      → ((x : DriveItem) → Memᴰ x xs → contains x.id all ≡ true)
      → AllIn all (select p xs)
  AllIn-select all p [] h = tt
  AllIn-select all p (x ∷ xs) h =
      let rest = AllIn-select all p xs (λ y m. h y (Memᴰ.tail m)) in
      elim (Bool-cases (p x)) [
        | inl e ↦ subst (AllIn all) (sym (select_yes p x xs e)) (h x (Memᴰ.head refl), rest)
        | inr e ↦ subst (AllIn all) (sym (select_no p x xs e)) rest
      ]

  length-ids : (xs : List DriveItem) → length (ids xs) ≡ length xs
  length-ids [] = refl
  length-ids (x ∷ xs) = omega (arith, length-ids xs)

  abbrev Inv : Collected → Type 0
  Inv c = Good t (waiting c) c × (contains t.root.id c.visited ≡ true)

  Inv-round :
      (c : Collected) (current : ℕ) (queue : List ℕ)
      → c.queue ≡ current ∷ queue
      → Inv c
      → Inv (collect_children (popped c queue) (select (t.child current) t.rows))
  Inv-round c current queue e (g, seen) = (
    Good-round c current queue e g,
    children_grow (popped c queue) (select (t.child current) t.rows) t.root.id seen,
  )

  complete :
      (c : Collected) → Inv c → c.queue ≡ [] → (x : DriveItem) → Inside t x → Memᴰ x c.all_items
  complete c (g, root_seen) empty x i =
      let o : Open t (λ n. false) c.visited =
        subst (λ q. Open t (λ n. contains n q) c.visited) empty g.opened in
      let seen = sym (g.seen x.id) ∙ seen_by_then c o root_seen i in
      let (y, m, e) = ids_mem x.id c.all_items seen in
      let same = same_row t.rows t.unique (Inside-row t i) (Inside-row t (g.inside y m)) (sym e) in
      subst (λ z. Memᴰ z c.all_items) (sym same) m

  work_at_first : work (ids t.rows) start ≤ suc (length t.rows)
  work_at_first = omega (
    arith,
    length-ids t.rows,
    length-select-le (λ n. not (contains n (t.root.id ∷ []))) (ids t.rows),
  )

  -- Where every query for children is answered with the rows that meet its condition: with two
  -- rounds more than there are rows the search ends without an error. It has collected only items
  -- of the subtree, none twice, and the keys of the collected files in their order; and if it has
  -- collected fewer items than its cap, it has collected every item of the subtree.
  pub collect_exact :
      (children : ℕ → Option (List DriveItem))
      → ((n : ℕ) → children n ≡ some (select (t.child n) t.rows))
      → (fuel most : ℕ) → length t.rows + 2 ≤ fuel
      → (c : Collected) × (collect children fuel most start ≡ some (some c))
        × ((x : DriveItem) → Memᴰ x c.all_items → Inside t x)
        × NoRepeat (ids c.all_items)
        × (c.keys ≡ keys_of c.all_items)
        × (length c.all_items < most → (x : DriveItem) → Inside t x → Memᴰ x c.all_items)
  collect_exact children answers fuel most enough =
      let all = ids t.rows in
      let kids = λ (n : ℕ). select (t.child n) t.rows in
      let known : (n : ℕ) → AllIn all (kids n) =
        λ n. AllIn-select all (t.child n) t.rows (λ x m. mem_ids t.rows m) in
      let root_seen : contains t.root.id (t.root.id ∷ []) ≡ true = ground arith in
      let (c, runs, inv, stops) =
        collect_ends children all kids answers known Inv Inv-round fuel most start
          (Good-start, root_seen) (omega (arith, work_at_first)) in
      (
        c,
        runs,
        (inv.0).inside,
        (inv.0).no_repeat,
        (inv.0).keys,
        λ room x i. elim stops [
          | inl empty ↦ complete c inv empty x i
          | inr full ↦ absurd (omega arith)
        ],
      )
