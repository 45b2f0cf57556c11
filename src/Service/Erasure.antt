-- ===== src/Service/Erasure.antt =====
-- Which rows a permanent deletion of a folder removes: `DeleteItem` and `CollectDescendantItems`.
use ponta_drive_api.Base.{
  ℕ, ◌+◌, ◌<◌, ◌≤◌, ◌≡◌, refl, sym, ap, subst, ◌∙◌, ◌⊎◌, inl, inr, Bool, true, false, not, Option,
  none, some, List, [], ◌∷◌, length, select, contains, arith, Bool-cases, Memᴰ,
}
use ponta_drive_api.Base.Int.{ℤ, pos, ltb_ℤ}
use ponta_drive_api.Base.Text.{Text}
use ponta_drive_api.Models.{DriveItem, CloudAccount, is_folder}
use ponta_drive_api.Tree.{Collected}
use ponta_drive_api.Tree.Breadcrumb.{NoRepeat, ids}
use ponta_drive_api.Tree.Rows.{mem_select, select_mem, mem_ids, ids_mem, same_row}
use ponta_drive_api.Tree.Inside.{Subtree, Inside, Inside-row}
use ponta_drive_api.Tree.Counting.{NoRepeat-length, length-ids}
use ponta_drive_api.Tree.Descendants.{collect_exact}
use ponta_drive_api.Service.{
  Driver, Outside, State, ok, err, Outcome, Action, found_item, perform, raise_if, delete_failed,
  ◌>>=◌, ◌>>◌,
}
use ponta_drive_api.Service.Items.{in_account}
use ponta_drive_api.Service.Deletion.{
  child_of, max_items, id_in, item_ids, collect_descendant_items, release_storage, delete_objects,
  delete_folder,
}

item_ids-ids : (xs : List DriveItem) → item_ids xs ≡ ids xs
item_ids-ids [] = refl
item_ids-ids (x ∷ xs) = ap (λ t. x.id ∷ t) (item_ids-ids xs)

-- What the deletion relies on: queries answer with the rows that meet their conditions, a deletion
-- removes those rows, and the table of accounts is another one.
pub record Erases {S : Type 0} (o : Outside S) (rows : S → List DriveItem) : Type 0 where
  pub finds :
      (q : DriveItem → Bool) (s : S)
      → (a : DriveItem) × (o.items.first q s ≡ some a)
        × ((Memᴰ a (rows s) × (q a ≡ true)) ⊎ ((x : DriveItem) → Memᴰ x (rows s) → q x ≡ false))
  pub gets : (q : DriveItem → Bool) (s : S) → o.items.get q s ≡ some (select q (rows s))
  pub erases :
      (q : DriveItem → Bool) (s : S)
      → ((o.items.force_delete q s).0 ≡ true)
        × (rows (o.items.force_delete q s).1 ≡ select (λ x. not (q x)) (rows s))
  pub apart : (a : CloudAccount) (s : S) → rows (o.accounts.save a s).1 ≡ rows s

module _ {S : Type 0} (o : Outside S) (rows : S → List DriveItem) (laws : Erases o rows) where
  -- A driver whose deletions leave the rows as they are.
  abbrev pub Still : Option (Driver S × CloudAccount) → Type 0
  Still none = Unit
  Still (some (driver, account)) =
      (keys : List Text) (s : S) → rows (driver.delete_objects keys s).1 ≡ rows s

  objects-rows :
      (opened : Option (Driver S × CloudAccount)) (keys : List Text) (s : State S)
      → Still opened
      → ((delete_objects o opened keys s).0 ≡ ok tt)
        × (rows (delete_objects o opened keys s).1.outside ≡ rows s.outside)
  unfolding delete_objects
  objects-rows opened [] s still = (refl, refl)
  objects-rows none (key ∷ keys) s still = (refl, refl)
  objects-rows (some (driver, account)) (key ∷ keys) s still = (refl, still (key ∷ keys) s.outside)

  release-rows :
      (opened : Option (Driver S × CloudAccount)) (size : ℤ) (s : State S)
      → ((release_storage o opened size s).0 ≡ ok tt)
        × (rows (release_storage o opened size s).1.outside ≡ rows s.outside)
  unfolding release_storage
  release-rows none size s = (refl, refl)
  release-rows (some (driver, account)) size s = elim (Bool-cases (ltb_ℤ (pos 0) size)) [
    | inl more ↦ rw more (refl, laws.apart _ s.outside)
    | inr no_size ↦ rw no_size (refl, refl)
  ]

  -- A step that ends in a result, in front of others.
  Ok-then :
      {A B : Type 0} (Q : Outcome B × State S → Type 0) (r : Outcome A × State S)
      (f : A → Action S B) (a : A) (s : State S)
      → r ≡ (ok a, s)
      → Q (f a s)
      → Q (elim r.0 [ ok a ↦ f a r.1 | err e ↦ (err e, r.1) ])
  Ok-then Q r f a s e h =
      subst (λ r. Q (elim r.0 [ ok a ↦ f a r.1 | err e ↦ (err e, r.1) ])) (sym e) h

  abbrev Leaves : List DriveItem → Outcome (Unit {0}) × State S → Type 0
  Leaves left r = (r.0 ≡ ok tt) × (rows r.1.outside ≡ left)

  -- What `delete_folder` does behind its search.
  abbrev erase : Option (Driver S × CloudAccount) → Collected → Action S (Unit {0})
  erase opened c = do
    done ← perform (o.items.force_delete (id_in (item_ids c.all_items)))
    raise_if (not done) delete_failed
    release_storage o opened c.total_size

  abbrev clear : Option (Driver S × CloudAccount) → Collected → Action S (Unit {0})
  clear opened c = delete_objects o opened c.keys >> erase opened c

  abbrev left_by : Collected → State S → List DriveItem
  left_by c s = select (λ x. not (id_in (item_ids c.all_items) x)) (rows s.outside)

  erase-Leaves :
      (opened : Option (Driver S × CloudAccount)) (c : Collected) (s : State S)
      → Leaves (left_by c s) (erase opened c s)
  erase-Leaves opened c s =
      let q = id_in (item_ids c.all_items) in
      let (done, left) = laws.erases q s.outside in
      let s' : State S = record s { outside = (o.items.force_delete q s.outside).1 } in
      let (fine, kept) = release-rows opened c.total_size s' in rw done (fine, kept ∙ left)

  clear-Leaves :
      (opened : Option (Driver S × CloudAccount)) (c : Collected) (s : State S)
      → Still opened
      → Leaves (left_by c s) (clear opened c s)
  clear-Leaves opened c s still =
      let r = delete_objects o opened c.keys s in
      let (fine, kept) = objects-rows opened c.keys s still in
      let (done, left) = erase-Leaves opened c r.1 in
      Ok-then (Leaves (left_by c s)) r (λ _. erase opened c) tt r.1 (ap (λ x. (x, r.1)) fine)
        (done, left ∙ ap (select (λ x. not (id_in (item_ids c.all_items) x))) kept)

  module _ (user_id : ℕ) (item : DriveItem) (s : State S) (unique : NoRepeat (ids (rows s.outside)))
      (saved : Memᴰ item (rows s.outside)) (folder : is_folder item ≡ true)
      (own : item.user_id ≡ user_id) (numbered : 0 < item.id) where
    -- The items below the folder, among the user's rows of the account.
    abbrev pub below_folder : Subtree
    below_folder = record {
      rows = rows s.outside;
      child = child_of user_id item.cloud_account_id;
      root = item;
      unique = unique;
      root_row = saved;
      root_folder = folder;
    }

    root_found :
        found_item (o.items.first (in_account user_id item.cloud_account_id item.id) s.outside)
        ≡ some item
    root_found =
        let q = in_account user_id item.cloud_account_id item.id in
        let met : q item ≡ true = ground arith in
        let (a, at, meets) = laws.finds q s.outside in
        elim meets [
          | inr misses ↦ let out : q item ≡ false = misses item saved in absurd cc
          | inl (row, hit) ↦
              let same : a ≡ item = same_row (rows s.outside) unique row saved (ground arith) in
              rw (at, same) (ground arith)
        ]

    -- What a search with enough fuel and room for every row comes to.
    gathers :
        (fuel : ℕ)
        → length (rows s.outside) + 2 ≤ fuel
        → length (rows s.outside) < max_items
        → (c : Collected) × (collect_descendant_items o fuel user_id item.cloud_account_id item.id s
            ≡ (ok c, s))
          × ((x : DriveItem) → Memᴰ x c.all_items → Inside below_folder x)
          × ((x : DriveItem) → Inside below_folder x → Memᴰ x c.all_items)
    unfolding collect_descendant_items
    gathers fuel enough room =
        let kids = λ (n : ℕ). o.items.get (child_of user_id item.cloud_account_id n) s.outside in
        let (c, at, inside, single, keys, all) =
          collect_exact below_folder kids
            (λ n. laws.gets (child_of user_id item.cloud_account_id n) s.outside) fuel max_items
            enough in
        let known : (m : ℕ)
            → contains m (ids c.all_items) ≡ true
            → contains m (ids (rows s.outside)) ≡ true =
          λ m h.
            let (x, there, same) = ids_mem m c.all_items h in
            subst (λ n. contains n (ids (rows s.outside)) ≡ true) same
              (mem_ids (rows s.outside) (Inside-row below_folder (inside x there))) in
        let short : length (ids c.all_items) ≤ length (ids (rows s.outside)) =
          NoRepeat-length (ids c.all_items) (ids (rows s.outside)) single known in
        let fits : length c.all_items < max_items =
          omega (arith, length-ids c.all_items, length-ids (rows s.outside)) in
        (c, rw root_found (rw at refl), inside, all fits)

    delete_folder-Leaves :
        (fuel : ℕ) (opened : Option (Driver S × CloudAccount)) (c : Collected)
        → collect_descendant_items o fuel user_id item.cloud_account_id item.id s ≡ (ok c, s)
        → Still opened
        → Leaves (left_by c s) (delete_folder o fuel user_id opened item s)
    unfolding delete_folder
    delete_folder-Leaves fuel opened c run still =
        Ok-then (Leaves (left_by c s))
          (collect_descendant_items o fuel user_id item.cloud_account_id item.id s) (clear opened) c
          s run (clear-Leaves opened c s still)

    -- Where the queries and the deletion do what they are asked, and the driver's deletions leave the
    -- rows alone: with two rounds more than there are rows, and fewer rows than the cap of the search,
    -- a permanent deletion of a folder succeeds, and a row is gone afterwards just when it is in the
    -- subtree of the folder, among the user's rows of the account.
    pub delete_folder-erases :
        (fuel : ℕ) (opened : Option (Driver S × CloudAccount))
        → length (rows s.outside) + 2 ≤ fuel
        → length (rows s.outside) < max_items
        → Still opened
        → (x : DriveItem) → Memᴰ x (rows s.outside)
        → ((delete_folder o fuel user_id opened item s).0 ≡ ok tt)
          × ((Inside below_folder x
                × ¬ Memᴰ x (rows (delete_folder o fuel user_id opened item s).1.outside))
              ⊎ (¬ Inside below_folder x
                  × Memᴰ x (rows (delete_folder o fuel user_id opened item s).1.outside)))
    delete_folder-erases fuel opened enough room still x m =
        let (c, run, inside, complete) = gathers fuel enough room in
        let (done, left) = delete_folder-Leaves fuel opened c run still in
        let p = λ (y : DriveItem). not (id_in (item_ids c.all_items) y) in
        let same_ids = item_ids-ids c.all_items in
        (
          done,
          elim (Bool-cases (contains x.id (item_ids c.all_items))) [
            | inl gone ↦
                let (y, there, same) =
                  ids_mem x.id c.all_items (subst (λ ns. contains x.id ns ≡ true) same_ids gone) in
                let row = Inside-row below_folder (inside y there) in
                let twin = same_row (rows s.outside) unique row m same in
                inl (
                  subst (Inside below_folder) twin (inside y there),
                  λ k.
                      let kept : p x ≡ true =
                        (mem_select p (rows s.outside) (subst (Memᴰ x) left k)).1 in
                      absurd (ground arith),
                )
            | inr stays ↦ inr (
              (λ i.
                  let held : contains x.id (item_ids c.all_items) ≡ true =
                    subst (λ ns. contains x.id ns ≡ true) (sym same_ids)
                      (mem_ids c.all_items (complete x i)) in
                  absurd cc),
              subst (Memᴰ x) (sym left) (select_mem p (rows s.outside) m (rw stays refl)),
            )
          ],
        )
