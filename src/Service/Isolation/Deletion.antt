-- ===== src/Service/Isolation/Deletion.antt =====
-- `DeleteItem` leaves the rows of the other users alone.
use ponta_drive_api.Base.{
  ℕ, ◌≡◌, refl, inl, inr, Bool, true, not, Option, none, some, List, [], ◌∷◌, arith, ◌==◌, contains,
  Bool-cases, or_split, and_split, ==_iff,
}
use ponta_drive_api.Base.Order.Sort.{All, All-map}
use ponta_drive_api.Base.Int.{ℤ, pos, ltb_ℤ}
use ponta_drive_api.Base.Text.{Text, is_empty}
use ponta_drive_api.Models.{DriveItem, CloudAccount, is_file}
use ponta_drive_api.Tree.{Collected, collect}
use ponta_drive_api.Tree.Gathered.{collect-All}
use ponta_drive_api.Service.{
  Driver, ok, err, State, or_raise, raise_if, attempt, found_item, root_not_found, delete_failed,
}
use ponta_drive_api.Service.Post.{
  Post, returns, raises, Post-or_raise, Post-raise_if, Post-then, Post-attempt, Where,
}
use ponta_drive_api.Service.Factory.{get_driver}
use ponta_drive_api.Service.Items.{in_account, get_item_by_uuid}
use ponta_drive_api.Service.Deletion.{
  child_of, max_items, id_in, item_ids, collected, collect_descendant_items, release_storage,
  delete_objects, delete_object, delete_file, delete_folder, delete_item,
}
use ponta_drive_api.Service.Isolation.{
  Tenant, Clear, Isolated, Mine, Holds, unmoved, found-Mine, row-Mine, Holds-delete,
  Holds-force_delete, same_id-free,
}
use ponta_drive_api.Service.Isolation.Drivers.{get_driver-Isolated}
use ponta_drive_api.Service.Isolation.Items.{get_item_by_uuid-Isolated}

module _ {S : Type 0} (w : Tenant S) where
  open w use {o, view, apart, user_id, others}

  row-Mine_of :
      (q : DriveItem → Bool) (s : S) (x : DriveItem)
      → Holds w s
      → ((y : DriveItem) → q y ≡ true → y.user_id ≡ user_id)
      → (q x ≡ true) × (view s x.id ≡ some x)
      → Mine w x
  row-Mine_of q s x h own (hit, there) = row-Mine w s x h there (own x hit)

  child-own :
      (account_id n : ℕ) (x : DriveItem)
      → child_of user_id account_id n x ≡ true
      → x.user_id ≡ user_id
  child-own account_id n x h =
      (==_iff x.user_id user_id).0 (and_split (x.user_id == user_id) _ (and_split _ _ h).0).0

  in_account-own :
      (account_id n : ℕ) (x : DriveItem)
      → in_account user_id account_id n x ≡ true
      → x.user_id ≡ user_id
  in_account-own account_id n x h = ground arith

  children-Mine :
      (account_id n : ℕ) (s : S) (rows : List DriveItem)
      → Holds w s
      → o.items.get (child_of user_id account_id n) s ≡ some rows
      → All (Mine w) rows
  children-Mine account_id n s rows h e =
      let q = child_of user_id account_id n in
      All-map (λ x. (q x ≡ true) × (view s x.id ≡ some x)) (Mine w)
        (λ x. row-Mine_of q s x h (child-own account_id n)) rows (apart.gets q s rows e)

  collected-Isolated :
      (result : Option (Option Collected)) (s : State S)
      → Isolated w s
      → ((c : Collected) → result ≡ some (some c) → All (Mine w) c.all_items)
      → Post (Isolated w) (λ c. All (Mine w) c.all_items) (collected o result s)
  collected-Isolated none s p h = raises _ s p
  collected-Isolated (some none) s p h = raises _ s p
  collected-Isolated (some (some c)) s p h = returns c s p (h c refl)

  collect_descendant_items-Isolated :
      (fuel account_id root_id : ℕ) (s : State S)
      → Isolated w s
      → Post
          (Isolated w)
          (λ c. All (Mine w) c.all_items)
          (collect_descendant_items o fuel user_id account_id root_id s)
  unfolding collect_descendant_items
  collect_descendant_items-Isolated fuel account_id root_id s p =
      let q = in_account user_id account_id root_id in
      let row = found_item (o.items.first q s.outside) in
      let there = or_raise row root_not_found s in
      Post-then (Isolated w) there (Post-or_raise (Isolated w) row root_not_found s p) λ root p' at.
        let start : Collected = record {
          queue = root.id ∷ [];
          visited = root.id ∷ [];
          all_items = root ∷ [];
          keys = [];
          total_size = pos 0;
        } in
        let children = λ (n : ℕ). o.items.get (child_of user_id account_id n) there.1.outside in
        let mine = found-Mine w q s.outside root (in_account-own account_id root_id) p.0 at in
        collected-Isolated (collect children fuel max_items start) there.1 p' λ c e.
          collect-All (Mine w) children fuel max_items start c
            (λ n rows. children-Mine account_id n there.1.outside rows p'.0) (mine, tt) e

  ids-free :
      (items : List DriveItem) (x : DriveItem)
      → All (Mine w) items
      → contains x.id (item_ids items) ≡ true
      → others x.id ≡ none
  ids-free [] x h e = absurd cc
  ids-free (i ∷ is) x (mine, h) e = elim (or_split (x.id == i.id) (contains x.id (item_ids is)) e) [
    | inl same ↦ same_id-free w i x mine same
    | inr later ↦ ids-free is x h later
  ]

  abbrev Opened : Option (Driver S × CloudAccount) → Type 0
  Opened = Where (Isolated w) (λ opened. Clear view opened.0)

  delete_objects-Isolated :
      (opened : Option (Driver S × CloudAccount)) (keys : List Text) (s : State S)
      → Opened opened
      → Isolated w s
      → Post (Isolated w) (λ _. Unit {0}) (delete_objects o opened keys s)
  unfolding delete_objects
  delete_objects-Isolated opened [] s clear p = returns tt s p tt
  delete_objects-Isolated none (key ∷ keys) s clear p = returns tt s p tt
  delete_objects-Isolated (some (driver, account)) (key ∷ keys) s clear p =
      returns tt _ (unmoved w s _ p (clear.delete_objects (key ∷ keys) s.outside)) tt

  delete_object-Isolated :
      (opened : Option (Driver S × CloudAccount)) (key : Text) (s : State S)
      → Opened opened
      → Isolated w s
      → Post (Isolated w) (λ _. Unit {0}) (delete_object o opened key s)
  unfolding delete_object
  delete_object-Isolated none key s clear p = returns tt s p tt
  delete_object-Isolated (some (driver, account)) key s clear p = elim (Bool-cases (is_empty key)) [
    | inl empty ↦ rw empty (returns tt s p tt)
    | inr full ↦ rw full (returns tt _ (unmoved w s _ p (clear.delete_object key s.outside)) tt)
  ]

  release_storage-Isolated :
      (opened : Option (Driver S × CloudAccount)) (size : ℤ) (s : State S)
      → Isolated w s
      → Post (Isolated w) (λ _. Unit {0}) (release_storage o opened size s)
  unfolding release_storage
  release_storage-Isolated none size s p = returns tt s p tt
  release_storage-Isolated (some (driver, account)) size s p =
      elim (Bool-cases (ltb_ℤ (pos 0) size)) [
        | inl some_size ↦
            rw some_size (returns tt _ (unmoved w s _ p (apart.save_account _ s.outside)) tt)
        | inr no_size ↦ rw no_size (returns tt s p tt)
      ]

  -- The last two steps of a permanent deletion.
  force_delete-Isolated :
      (q : DriveItem → Bool) (opened : Option (Driver S × CloudAccount)) (size : ℤ) (s : State S)
      → ((x : DriveItem) → q x ≡ true → others x.id ≡ none)
      → Isolated w s
      → let s' = record s { outside = (o.items.force_delete q s.outside).1 } in
        let checked = raise_if (not (o.items.force_delete q s.outside).0) delete_failed s' in
        Post
          (Isolated w)
          {A = Unit {0}}
          (λ _. Unit {0})
          (elim checked.0 [
            | ok _ ↦ release_storage o opened size checked.1
            | err e ↦ (err e, checked.1)
          ])
  force_delete-Isolated q opened size s free (holds, clear) =
      let s' = record s { outside = (o.items.force_delete q s.outside).1 } in
      let failed = not (o.items.force_delete q s.outside).0 in
      let checked = raise_if failed delete_failed s' in
      Post-then (Isolated w) checked
        (Post-raise_if (Isolated w) failed delete_failed s'
          (Holds-force_delete w q s.outside free holds, clear))
        λ _ p _. release_storage-Isolated opened size checked.1 p

  delete_file-Isolated :
      (opened : Option (Driver S × CloudAccount)) (item : DriveItem) (s : State S)
      → Opened opened
      → Mine w item
      → Isolated w s
      → Post (Isolated w) (λ _. Unit {0}) (delete_file o opened item s)
  unfolding delete_file
  delete_file-Isolated opened item s clear mine p =
      let gone = delete_object o opened item.storage_path s in
      Post-then (Isolated w) gone (delete_object-Isolated opened item.storage_path s clear p)
        λ _ p _.
          force_delete-Isolated (λ i. i.id == item.id) opened item.size gone.1
            (λ x. same_id-free w item x mine) p

  delete_folder-Isolated :
      (fuel : ℕ) (opened : Option (Driver S × CloudAccount)) (item : DriveItem) (s : State S)
      → Opened opened
      → Isolated w s
      → Post (Isolated w) (λ _. Unit {0}) (delete_folder o fuel user_id opened item s)
  unfolding delete_folder
  delete_folder-Isolated fuel opened item s clear p =
      let gathered = collect_descendant_items o fuel user_id item.cloud_account_id item.id s in
      Post-then (Isolated w) gathered
        (collect_descendant_items-Isolated fuel item.cloud_account_id item.id s p)
        λ c p mine.
          let gone = delete_objects o opened c.keys gathered.1 in
          Post-then (Isolated w) gone (delete_objects-Isolated opened c.keys gathered.1 clear p)
            λ _ p _.
              force_delete-Isolated (id_in (item_ids c.all_items)) opened c.total_size gone.1
                (λ x. ids-free c.all_items x mine) p

  soft_delete-Isolated :
      (item : DriveItem) (s : State S)
      → Mine w item
      → Isolated w s
      → let q = λ (i : DriveItem). i.id == item.id in
        Post
          (Isolated w)
          (λ _. Unit {0})
          (raise_if
            (not (o.items.delete q s.outside).0)
            delete_failed
            (record s { outside = (o.items.delete q s.outside).1 }))
  soft_delete-Isolated item s mine (holds, clear) = Post-raise_if (Isolated w) _ delete_failed _ (
    Holds-delete w (λ i. i.id == item.id) s.outside (λ x. same_id-free w item x mine) holds,
    clear,
  )

  pub delete_item-Isolated :
      (fuel : ℕ) (item_uuid : Text) (permanent : Bool) (s : State S)
      → Isolated w s
      → Post (Isolated w) (λ _. Unit {0}) (delete_item o fuel user_id item_uuid permanent s)
  unfolding delete_item
  delete_item-Isolated fuel item_uuid permanent s p =
      let read = get_item_by_uuid o user_id item_uuid s in
      Post-then (Isolated w) read (get_item_by_uuid-Isolated w item_uuid s p) λ item p mine.
        elim (Bool-cases permanent) [
          | inr soft ↦ rw soft (soft_delete-Isolated item read.1 mine p)
          | inl hard ↦
              let driver = get_driver o user_id item.cloud_account_id read.1 in
              let opening = attempt (get_driver o user_id item.cloud_account_id) read.1 in
              rw hard (
                Post-then (Isolated w) opening
                  (Post-attempt (Isolated w) driver
                    (get_driver-Isolated w item.cloud_account_id read.1 p))
                  λ opened p clear. elim (Bool-cases (is_file item)) [
                    | inl file ↦ rw file (delete_file-Isolated opened item opening.1 clear mine p)
                    | inr folder ↦
                        rw folder (delete_folder-Isolated fuel opened item opening.1 clear p)
                  ])
        ]
