-- ===== src/Service/Isolation/Items.antt =====
-- The methods on the hierarchy leave the rows of the other users alone.
use ponta_drive_api.Base.{
  ℕ, ◌≡◌, refl, inl, inr, true, not, Option, none, some, arith, ◌==◌, Bool-cases,
}
use ponta_drive_api.Base.Text.{Text, trim_space, is_empty}
use ponta_drive_api.Models.{DriveItem, is_folder, type_folder, status_ready}
use ponta_drive_api.Tree.{positive, is_self_or_descendant}
use ponta_drive_api.Service.{
  Error, State, or_raise, raise_if, found_item, found_account, item_not_found, parent_not_found,
  parent_not_folder, invalid_cloud_account, create_failed, own_parent, destination_not_found,
  destination_not_folder, would_cycle, save_failed,
}
use ponta_drive_api.Service.Post.{
  Post, returns, Post-weaken, Post-or_raise, Post-raise_if, Post-then,
}
use ponta_drive_api.Service.Factory.{owned_account}
use ponta_drive_api.Service.Items.{
  with_uuid, in_account, new_item, renamed, rows_of, get_item_by_uuid, check_parent, create_folder,
  get_breadcrumb, moved, save_item, update_item, toggle_star,
}
use ponta_drive_api.Service.Isolation.{
  Tenant, Isolated, Mine, unmoved, found-Mine, Holds-save, created-Mine, Holds-create,
}

module _ {S : Type 0} (w : Tenant S) where
  open w use {o, view, apart, user_id, others}

  with_uuid-own :
      (item_uuid : Text) (x : DriveItem)
      → with_uuid user_id item_uuid x ≡ true
      → x.user_id ≡ user_id
  with_uuid-own item_uuid x h = ground arith

  pub get_item_by_uuid-Isolated :
      (item_uuid : Text) (s : State S)
      → Isolated w s
      → Post (Isolated w) (Mine w) (get_item_by_uuid o user_id item_uuid s)
  unfolding get_item_by_uuid
  get_item_by_uuid-Isolated item_uuid s p =
      let q = with_uuid user_id item_uuid in
      Post-weaken (Isolated w) (λ x at. found-Mine w q s.outside x (with_uuid-own item_uuid) p.0 at)
        (Post-or_raise (Isolated w) (found_item (o.items.first q s.outside)) item_not_found s p)

  pub save_item-Isolated :
      (item : DriveItem) (e : Error) (s : State S)
      → Mine w item
      → Isolated w s
      → Post (Isolated w) (Mine w) (save_item o item e s)
  unfolding save_item
  save_item-Isolated item e s mine (holds, clear) =
      let s' = record s { outside = (o.items.save item s.outside).1 } in
      let failed = not (o.items.save item s.outside).0 in
      Post-then (Isolated w) (raise_if failed e s')
        (Post-raise_if (Isolated w) failed e s' (Holds-save w item s.outside mine holds, clear))
        λ _ p _. returns item _ p mine

  check_parent-Isolated :
      (account_id : ℕ) (parent : Option ℕ) (s : State S)
      → Isolated w s
      → Post (Isolated w) (λ _. Unit {0}) (check_parent o user_id account_id parent s)
  unfolding check_parent
  check_parent-Isolated account_id none s p = returns tt s p tt
  check_parent-Isolated account_id (some n) s p =
      let row = found_item (o.items.first (in_account user_id account_id n) s.outside) in
      Post-then (Isolated w) (or_raise row parent_not_found s)
        (Post-or_raise (Isolated w) row parent_not_found s p)
        λ parent p _. Post-raise_if (Isolated w) (not (is_folder parent)) parent_not_folder _ p

  -- A new row of the user.
  pub create-Isolated :
      (x : DriveItem) (e : Error) (s : State S)
      → x.user_id ≡ user_id
      → Isolated w s
      → Post (Isolated w) (Mine w) (
          or_raise
            (o.items.create x s.outside).0
            e
            (record s { outside = (o.items.create x s.outside).1 }))
  create-Isolated x e s own (holds, clear) =
      Post-weaken (Isolated w) (λ a at. created-Mine w x s.outside a own holds at)
        (Post-or_raise (Isolated w) (o.items.create x s.outside).0 e
          (record s { outside = (o.items.create x s.outside).1 })
          (Holds-create w x s.outside own holds, clear))

  pub with_new_uuid :
      (s : State S) → Isolated w s → Isolated w (record s { outside = (o.new_uuid s.outside).1 })
  with_new_uuid s p = unmoved w s (o.new_uuid s.outside).1 p (apart.new_uuid s.outside)

  pub create_folder-Isolated :
      (account_id : ℕ) (parent : Option ℕ) (name : Text) (s : State S)
      → Isolated w s
      → Post (Isolated w) (Mine w) (create_folder o user_id account_id parent name s)
  unfolding create_folder
  create_folder-Isolated account_id parent name s p =
      let row = found_account (o.accounts.first (owned_account user_id account_id) s.outside) in
      let owned = or_raise row invalid_cloud_account s in
      Post-then (Isolated w) owned (Post-or_raise (Isolated w) row invalid_cloud_account s p)
        λ account p _.
          let checked = check_parent o user_id account_id (positive parent) owned.1 in
          Post-then (Isolated w) checked
            (check_parent-Isolated account_id (positive parent) owned.1 p)
            λ _ p _.
              let drawn = o.new_uuid checked.1.outside in
              create-Isolated
                (new_item drawn.0 user_id account_id parent (trim_space name) type_folder
                  status_ready)
                create_failed (record checked.1 { outside = drawn.1 }) refl
                (with_new_uuid checked.1 p)

  pub get_breadcrumb-Isolated :
      (item_uuid : Text) (s : State S)
      → Isolated w s
      → Post (Isolated w) (λ _. Unit {0}) (get_breadcrumb o user_id item_uuid s)
  unfolding get_breadcrumb
  get_breadcrumb-Isolated item_uuid s p =
      Post-then (Isolated w) (get_item_by_uuid o user_id item_uuid s)
        (get_item_by_uuid-Isolated item_uuid s p) λ item p _. returns _ _ p tt

  moved_under-Isolated :
      (item : DriveItem) (n : ℕ) (s : State S)
      → Mine w item
      → Isolated w s
      → Post (Isolated w) (Mine w) (moved o user_id item (some n) s)
  unfolding moved
  moved_under-Isolated item n s mine p =
      let distinct = raise_if (n == item.id) own_parent s in
      Post-then (Isolated w) distinct (Post-raise_if (Isolated w) (n == item.id) own_parent s p)
        λ _ p _. elim (Bool-cases (n == 0)) [
          | inl top ↦ rw top (returns (record item { parent_id = none }) _ p mine)
          | inr below ↦
              let row =
                found_item
                  (o.items.first (in_account user_id item.cloud_account_id n) distinct.1.outside) in
              let there = or_raise row destination_not_found distinct.1 in
              rw below (
                Post-then (Isolated w) there
                  (Post-or_raise (Isolated w) row destination_not_found distinct.1 p)
                  λ parent p _.
                    let folder = raise_if (not (is_folder parent)) destination_not_folder there.1 in
                    Post-then (Isolated w) folder
                      (Post-raise_if (Isolated w) (not (is_folder parent)) destination_not_folder
                        there.1 p)
                      λ _ p _.
                        let cycle =
                          is_self_or_descendant
                            (rows_of o user_id item.cloud_account_id folder.1.outside) n item.id in
                        Post-then (Isolated w) (raise_if cycle would_cycle folder.1)
                          (Post-raise_if (Isolated w) cycle would_cycle folder.1 p)
                          λ _ p _. returns (record item { parent_id = some n }) _ p mine)
        ]

  moved-Isolated :
      (item : DriveItem) (parent : Option ℕ) (s : State S)
      → Mine w item
      → Isolated w s
      → Post (Isolated w) (Mine w) (moved o user_id item parent s)
  unfolding moved
  moved-Isolated item none s mine p = returns item s p mine
  moved-Isolated item (some n) s mine p = moved_under-Isolated item n s mine p

  renamed-Mine : (item : DriveItem) (name : Text) → Mine w item → Mine w (renamed item name)
  renamed-Mine item name mine = elim (Bool-cases (is_empty (trim_space name))) [
    | inl bare ↦ rw bare mine
    | inr full ↦ rw full mine
  ]

  pub update_item-Isolated :
      (item_uuid name : Text) (parent : Option ℕ) (s : State S)
      → Isolated w s
      → Post (Isolated w) (Mine w) (update_item o user_id item_uuid name parent s)
  unfolding update_item
  update_item-Isolated item_uuid name parent s p =
      let read = get_item_by_uuid o user_id item_uuid s in
      Post-then (Isolated w) read (get_item_by_uuid-Isolated item_uuid s p) λ item p mine.
        let changed = moved o user_id (renamed item name) parent read.1 in
        Post-then (Isolated w) changed
          (moved-Isolated (renamed item name) parent read.1 (renamed-Mine item name mine) p)
          λ x p mine. save_item-Isolated x save_failed changed.1 mine p

  pub toggle_star-Isolated :
      (item_uuid : Text) (s : State S)
      → Isolated w s
      → Post (Isolated w) (Mine w) (toggle_star o user_id item_uuid s)
  unfolding toggle_star
  toggle_star-Isolated item_uuid s p =
      let read = get_item_by_uuid o user_id item_uuid s in
      Post-then (Isolated w) read (get_item_by_uuid-Isolated item_uuid s p) λ item p mine.
        save_item-Isolated (record item { is_starred = not item.is_starred }) save_failed read.1
          mine p
