-- ===== src/Service/Isolation/Scan.antt =====
-- `ScanBucket` leaves the rows of the other users alone.
use ponta_drive_api.Base.{
  ℕ, zero, suc, ◌+◌, ◌≡◌, refl, true, not, ◌||◌, Option, none, some, List, [], ◌∷◌, ◌==◌,
  Bool-cases, inl, inr, and_split, ==_iff,
}
use ponta_drive_api.Base.Text.{Text, text, is_empty, trim_prefix, ends_with}
use ponta_drive_api.Models.{DriveItem, ObjectMetadata, type_folder, type_file, status_ready}
use ponta_drive_api.Service.{Driver, State, or_raise, found_item, list_failed, out_of_fuel}
use ponta_drive_api.Service.Post.{Post, returns, raises, Post-or_raise, Post-then}
use ponta_drive_api.Service.Factory.{get_driver}
use ponta_drive_api.Service.Items.{new_item}
use ponta_drive_api.Service.Scan.{
  named, stored_at, but_last, last_segment, segments_of, refreshed, new_file, folder_or_create,
  ensure_folder, ensure_folders, put_file, upsert_file, scan_untracked, scan_keyed, scan_object,
  scan_objects, scan_pages, scan_bucket,
}
use ponta_drive_api.Service.Isolation.{
  Tenant, Clear, Isolated, Mine, unmoved, found-Mine, Holds-save, Holds-create,
}
use ponta_drive_api.Service.Isolation.Drivers.{get_driver-Isolated}
use ponta_drive_api.Service.Isolation.Items.{with_new_uuid}

module _ {S : Type 0} (w : Tenant S) (account_id : ℕ) where
  open w use {o, view, apart, user_id, others}

  created :
      (x : DriveItem) (s : State S)
      → x.user_id ≡ user_id
      → Isolated w s
      → Isolated w (record s { outside = (o.items.create x s.outside).1 })
  created x s own (holds, clear) = (Holds-create w x s.outside own holds, clear)

  folder_or_create-Isolated :
      (parent : Option ℕ) (name : Text) (row : Option DriveItem) (s : State S)
      → Isolated w s
      → Post (Isolated w) (λ _. Unit {0}) (folder_or_create o user_id account_id parent name row s)
  unfolding folder_or_create
  folder_or_create-Isolated parent name (some folder) s p = returns _ s p tt
  folder_or_create-Isolated parent name none s p =
      let drawn = o.new_uuid s.outside in
      returns _ _
        (created (new_item drawn.0 user_id account_id parent name type_folder status_ready)
          (record s { outside = drawn.1 }) refl (with_new_uuid w s p))
        tt

  ensure_folder-Isolated :
      (parent : Option ℕ) (name : Text) (s : State S)
      → Isolated w s
      → Post (Isolated w) (λ _. Unit {0}) (ensure_folder o user_id account_id parent name s)
  unfolding ensure_folder
  ensure_folder-Isolated parent name s p = elim (Bool-cases (is_empty name)) [
    | inl nameless ↦ rw nameless (returns parent s p tt)
    | inr some_name ↦ rw some_name (
        folder_or_create-Isolated parent name
          (found_item (o.items.first (named user_id account_id type_folder parent name) s.outside))
          s p)
  ]

  ensure_folders-Isolated :
      (parent : Option ℕ) (names : List Text) (s : State S)
      → Isolated w s
      → Post (Isolated w) (λ _. Unit {0}) (ensure_folders o user_id account_id parent names s)
  unfolding ensure_folders
  ensure_folders-Isolated parent [] s p = returns parent s p tt
  ensure_folders-Isolated parent (name ∷ names) s p =
      let made = ensure_folder o user_id account_id parent name s in
      Post-then (Isolated w) made (ensure_folder-Isolated parent name s p)
        λ below p _. ensure_folders-Isolated below names made.1 p

  refreshed-Mine :
      (obj : ObjectMetadata) (item : DriveItem) → Mine w item → Mine w (refreshed obj item)
  unfolding refreshed
  refreshed-Mine obj item mine = mine

  moved_path-Mine :
      (path : Text) (item : DriveItem) → Mine w item → Mine w (record item { storage_path = path })
  moved_path-Mine path item mine = mine

  new_file-own :
      (parent : Option ℕ) (name : Text) (obj : ObjectMetadata) (uuid : Text)
      → (new_file user_id account_id parent name obj uuid).user_id ≡ user_id
  unfolding new_file
  new_file-own parent name obj uuid = refl

  put_file-Isolated :
      (parent : Option ℕ) (name : Text) (obj : ObjectMetadata) (row : Option DriveItem)
      (s : State S)
      → ((x : DriveItem) → row ≡ some x → Mine w x)
      → Isolated w s
      → Post (Isolated w) (λ _. Unit {0}) (put_file o user_id account_id parent name obj row s)
  unfolding put_file
  put_file-Isolated parent name obj (some item) s mine (holds, clear) =
      let x = record item { storage_path = obj.key } in
      returns tt _
        (
          Holds-save w (refreshed obj x) s.outside
              (refreshed-Mine obj x (moved_path-Mine obj.key item (mine item refl))) holds,
          clear,
        )
        tt
  put_file-Isolated parent name obj none s mine p =
      let drawn = o.new_uuid s.outside in
      returns tt _
        (created (new_file user_id account_id parent name obj drawn.0)
          (record s { outside = drawn.1 }) (new_file-own parent name obj drawn.0)
          (with_new_uuid w s p))
        tt

  named-own :
      (item_type : Text) (parent : Option ℕ) (name : Text) (x : DriveItem)
      → named user_id account_id item_type parent name x ≡ true
      → x.user_id ≡ user_id
  named-own item_type parent name x h =
      (==_iff x.user_id user_id).0
        (and_split (x.user_id == user_id) _
          (and_split _ _ (and_split _ _ (and_split _ _ h).0).0).0).0

  stored_at-own :
      (key : Text) (x : DriveItem) → stored_at user_id account_id key x ≡ true → x.user_id ≡ user_id
  stored_at-own key x h =
      (==_iff x.user_id user_id).0 (and_split (x.user_id == user_id) _ (and_split _ _ h).0).0

  upsert_file-Isolated :
      (parent : Option ℕ) (name : Text) (obj : ObjectMetadata) (s : State S)
      → Isolated w s
      → Post (Isolated w) (λ _. Unit {0}) (upsert_file o user_id account_id parent name obj s)
  unfolding upsert_file
  upsert_file-Isolated parent name obj s p =
      let q = named user_id account_id type_file parent name in
      put_file-Isolated parent name obj (found_item (o.items.first q s.outside)) s
        (λ x. found-Mine w q s.outside x (named-own type_file parent name) p.0) p

  scan_untracked-Isolated :
      (parent : Option ℕ) (obj : ObjectMetadata) (key : Text) (s : State S)
      → Isolated w s
      → Post (Isolated w) (λ _. Unit {0}) (scan_untracked o user_id account_id parent obj key s)
  unfolding scan_untracked
  scan_untracked-Isolated parent obj key s p =
      let made = ensure_folders o user_id account_id parent (segments_of key) s in
      let above = ensure_folders o user_id account_id parent (but_last (segments_of key)) s in
      elim (Bool-cases (ends_with key b'/')) [
        | inl marker ↦ rw marker (
            Post-then (Isolated w) made (ensure_folders-Isolated parent (segments_of key) s p)
              λ _ p _. returns 0 _ p tt)
        | inr file ↦ rw file (
            Post-then (Isolated w) above
              (ensure_folders-Isolated parent (but_last (segments_of key)) s p)
              λ below p _.
                Post-then (Isolated w)
                  (upsert_file o user_id account_id below (last_segment (segments_of key)) obj
                    above.1)
                  (upsert_file-Isolated below (last_segment (segments_of key)) obj above.1 p)
                  λ _ p _. returns 1 _ p tt)
      ]

  scan_keyed-Isolated :
      (parent : Option ℕ) (obj : ObjectMetadata) (key : Text) (row : Option DriveItem) (s : State S)
      → ((x : DriveItem) → row ≡ some x → Mine w x)
      → Isolated w s
      → Post (Isolated w) (λ _. Unit {0}) (scan_keyed o user_id account_id parent obj key row s)
  unfolding scan_keyed
  scan_keyed-Isolated parent obj key none s mine p = scan_untracked-Isolated parent obj key s p
  scan_keyed-Isolated parent obj key (some tracked) s mine (holds, clear) =
      returns 1 _
        (
          Holds-save w (refreshed obj tracked) s.outside
              (refreshed-Mine obj tracked (mine tracked refl)) holds,
          clear,
        )
        tt

  scan_object-Isolated :
      (parent : Option ℕ) (obj : ObjectMetadata) (s : State S)
      → Isolated w s
      → Post (Isolated w) (λ _. Unit {0}) (scan_object o user_id account_id parent obj s)
  unfolding scan_object
  scan_object-Isolated parent obj s p =
      let key = trim_prefix obj.key (text "/") in
      let q = stored_at user_id account_id obj.key in
      elim (Bool-cases (is_empty key)) [
        | inl empty ↦ rw empty (returns 0 s p tt)
        | inr full ↦ rw full (
            scan_keyed-Isolated parent obj key (found_item (o.items.first q s.outside)) s
              (λ x. found-Mine w q s.outside x (stored_at-own obj.key) p.0) p)
      ]

  scan_objects-Isolated :
      (parent : Option ℕ) (count : ℕ) (objs : List ObjectMetadata) (s : State S)
      → Isolated w s
      → Post (Isolated w) (λ _. Unit {0}) (scan_objects o user_id account_id parent count objs s)
  unfolding scan_objects
  scan_objects-Isolated parent count [] s p = returns count s p tt
  scan_objects-Isolated parent count (obj ∷ objs) s p =
      let scanned = scan_object o user_id account_id parent obj s in
      Post-then (Isolated w) scanned (scan_object-Isolated parent obj s p)
        λ counted p _. scan_objects-Isolated parent (count + counted) objs scanned.1 p

  scan_pages-Isolated :
      (fuel : ℕ) (driver : Driver S) (parent : Option ℕ) (token : Text) (count : ℕ) (s : State S)
      → Clear view driver
      → Isolated w s
      → Post
          (Isolated w)
          (λ _. Unit {0})
          (scan_pages o user_id account_id fuel driver parent token count s)
  unfolding scan_pages
  scan_pages-Isolated zero driver parent token count s clear p = raises out_of_fuel s p
  scan_pages-Isolated (suc fuel) driver parent token count s clear p =
      let listed = driver.list_objects [] token 1000 s.outside in
      let s1 = record s { outside = listed.1 } in
      let p1 = unmoved w s listed.1 p (clear.list_objects [] token 1000 s.outside) in
      let paged = or_raise listed.0 list_failed s1 in
      Post-then (Isolated w) paged (Post-or_raise (Isolated w) listed.0 list_failed s1 p1)
        λ page p _.
          let scanned = scan_objects o user_id account_id parent count page.objects paged.1 in
          Post-then (Isolated w) scanned (scan_objects-Isolated parent count page.objects paged.1 p)
            λ count' p _.
              elim (Bool-cases (not page.is_truncated || is_empty page.next_continuation)) [
                | inl last ↦ rw last (returns count' scanned.1 p tt)
                | inr more ↦ rw more (
                    scan_pages-Isolated fuel driver parent page.next_continuation count' scanned.1
                      clear p)
              ]

  pub scan_bucket-Isolated :
      (fuel : ℕ) (parent : Option ℕ) (s : State S)
      → Isolated w s
      → Post (Isolated w) (λ _. Unit {0}) (scan_bucket o user_id account_id fuel parent s)
  unfolding scan_bucket
  scan_bucket-Isolated fuel parent s p =
      let opening = get_driver o user_id account_id s in
      Post-then (Isolated w) opening (get_driver-Isolated w account_id s p) λ opened p clear.
        let scanned = scan_pages o user_id account_id fuel opened.0 parent [] 0 opening.1 in
        Post-then (Isolated w) scanned
          (scan_pages-Isolated fuel opened.0 parent [] 0 opening.1 clear p)
          λ count p _.
            returns count _ (unmoved w scanned.1 _ p (apart.save_account _ scanned.1.outside)) tt
