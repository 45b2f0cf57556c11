-- ===== src/Service/Isolation.antt =====
-- The rows of the other users: what the database and the drivers promise, and how each write of the
-- drive service leaves those rows alone.
pub mod Drivers
pub mod Items
pub mod Deletion
pub mod Uploads
pub mod Multipart
pub mod Reading
pub mod Scan
pub mod History
use ponta_drive_api.Base.{
  ℕ, ◌≡◌, refl, sym, ap, ◌∙◌, subst, ◌⊎◌, inl, inr, Bool, true, false, Option, none, some, List, [],
  ◌∷◌, arith, ◌==◌, ◌&&◌, if◌then◌else◌, Bool-cases, Option-cases, contains,
}
use ponta_drive_api.Base.Order.Sort.{All}
use ponta_drive_api.Base.Int.{ℤ}
use ponta_drive_api.Base.Text.{Text}
use ponta_drive_api.Models.{DriveItem, CloudAccount, UploadSession, CompletedPart}
use ponta_drive_api.Service.{Driver, S3Config, Outside, State, found_item}
use ponta_drive_api.Service.Runs.{found-some}
use ponta_drive_api.Service.Database.{touched, ItemLaws}

-- A row that is not the user's.
abbrev pub foreign : ℕ → Option DriveItem → Option DriveItem
foreign user_id none = none
foreign user_id (some x) = if x.user_id == user_id then none else some x

module _ {S : Type 0} (view : S → ℕ → Option DriveItem) where
  abbrev pub Unmoved : S → S → Type 0
  Unmoved s s' = (n : ℕ) → view s' n ≡ view s n

  -- The calls of a driver do not write the table of items.
  pub record Clear (d : Driver S) : Type 0 where
    pub get_object : (k : Text) (s : S) → Unmoved s (d.get_object k s).1
    pub delete_object : (k : Text) (s : S) → Unmoved s (d.delete_object k s).1
    pub get_metadata : (k : Text) (s : S) → Unmoved s (d.get_metadata k s).1
    pub presign_upload : (k m : Text) (t : ℕ) (s : S) → Unmoved s (d.presign_upload k m t s).1
    pub presign_download : (k f : Text) (t : ℕ) (s : S) → Unmoved s (d.presign_download k f t s).1
    pub initiate_multipart : (k m : Text) (s : S) → Unmoved s (d.initiate_multipart k m s).1
    pub upload_part :
        (k i : Text) (p : ℤ) (b : Text) (z : ℤ) (s : S) → Unmoved s (d.upload_part k i p b z s).1
    pub complete_multipart :
        (k i : Text) (ps : List CompletedPart) (s : S) → Unmoved s (d.complete_multipart k i ps s).1
    pub abort_multipart : (k i : Text) (s : S) → Unmoved s (d.abort_multipart k i s).1
    pub list_objects : (p t : Text) (m : ℕ) (s : S) → Unmoved s (d.list_objects p t m s).1
    pub delete_objects : (ks : List Text) (s : S) → Unmoved s (d.delete_objects ks s).1
    pub get_range : (k : Text) (a b : ℤ) (s : S) → Unmoved s (d.get_range k a b s).1

  -- A row is as it was, or it met the conditions of the deletion and is gone.
  abbrev pub Gone : (DriveItem → Bool) → S → S → ℕ → Type 0
  Gone q s s' n =
      (view s' n ≡ view s n)
      ⊎ ((x : DriveItem) × (view s n ≡ some x) × (q x ≡ true) × (view s' n ≡ none))

  -- What the items' table promises beyond `TableLaws`, and that nothing else writes it: the other
  -- tables, the random source and the drivers.
  pub record Apart (o : Outside S) : Type 0 where
    pub items : ItemLaws o view
    pub gets :
        (q : DriveItem → Bool) (s : S) (rows : List DriveItem)
        → o.items.get q s ≡ some rows
        → All (λ x. (q x ≡ true) × (view s x.id ≡ some x)) rows
    pub creates :
        (x : DriveItem) (s : S) (a : DriveItem)
        → (o.items.create x s).0 ≡ some a
        → (view s a.id ≡ none)
          × (a.user_id ≡ x.user_id)
          × ((n : ℕ) → view (o.items.create x s).1 n ≡ (if n == a.id then some a else view s n))
    pub creates_none :
        (x : DriveItem) (s : S) → (o.items.create x s).0 ≡ none → Unmoved s (o.items.create x s).1
    pub deletes : (q : DriveItem → Bool) (s : S) (n : ℕ) → Gone q s (o.items.delete q s).1 n
    pub force_deletes :
        (q : DriveItem → Bool) (s : S) (n : ℕ) → Gone q s (o.items.force_delete q s).1 n
    pub save_account : (a : CloudAccount) (s : S) → Unmoved s (o.accounts.save a s).1
    pub create_session : (x : UploadSession) (s : S) → Unmoved s (o.sessions.create x s).1
    pub save_session : (x : UploadSession) (s : S) → Unmoved s (o.sessions.save x s).1
    pub delete_session : (q : UploadSession → Bool) (s : S) → Unmoved s (o.sessions.delete q s).1
    pub new_uuid : (s : S) → Unmoved s (o.new_uuid s).1
    pub drivers : (c : S3Config) (d : Driver S) → o.new_s3_driver c ≡ some d → Clear d

  -- The cache holds drivers of this kind.
  abbrev pub AllClear : List (ℕ × Driver S) → Type 0
  AllClear = All (λ e. Clear e.1)

-- A user before such a database, and the rows of the others.
pub record Tenant (S : Type 0) : Type 0 where
  pub o : Outside S
  pub view : S → ℕ → Option DriveItem
  pub apart : Apart view o
  pub user_id : ℕ
  pub others : ℕ → Option DriveItem

module _ {S : Type 0} (w : Tenant S) where
  open w use {o, view, apart, user_id, others}

  -- The rows of the other users are the given ones.
  abbrev pub Holds : S → Type 0
  Holds s = (n : ℕ) → foreign user_id (view s n) ≡ others n

  abbrev pub Isolated : State S → Type 0
  Isolated s = Holds s.outside × AllClear view s.drivers

  -- An item that is the user's, as is the row that it is to replace, if any.
  abbrev pub Mine : DriveItem → Type 0
  Mine x = (others x.id ≡ none) × (x.user_id ≡ user_id)

  Holds-Unmoved : (s s' : S) → Unmoved view s s' → Holds s → Holds s'
  Holds-Unmoved s s' same h n = ap (foreign user_id) (same n) ∙ h n

  -- A call that does not write the items.
  pub unmoved :
      (s : State S) (next : S)
      → Isolated s
      → Unmoved view s.outside next
      → Isolated (record s { outside = next })
  unmoved s next (holds, clear) same = (Holds-Unmoved s.outside next same holds, clear)

  own_is_none : (x : DriveItem) → x.user_id ≡ user_id → foreign user_id (some x) ≡ none
  own_is_none x h = ground arith

  pub row-Mine :
      (s : S) (x : DriveItem) → Holds s → view s x.id ≡ some x → x.user_id ≡ user_id → Mine x
  row-Mine s x h there own = (sym (h x.id) ∙ ap (foreign user_id) there ∙ own_is_none x own, own)

  -- A row that a query for rows of the user has found.
  pub found-Mine :
      (q : DriveItem → Bool) (s : S) (x : DriveItem)
      → ((y : DriveItem) → q y ≡ true → y.user_id ≡ user_id)
      → Holds s
      → found_item (o.items.first q s) ≡ some x
      → Mine x
  found-Mine q s x own h at =
      let (answered, saved) = found-some (λ (i : DriveItem). i.id) _ x at in
      let (hit, there) = apart.items.meets q s x answered saved in row-Mine s x h there (own x hit)

  pub Holds-save : (x : DriveItem) (s : S) → Mine x → Holds s → Holds (o.items.save x s).1
  Holds-save x s (free, own) h n = elim (Bool-cases (o.items.save x s).0) [
    | inr failed ↦ ap (foreign user_id) (apart.items.refuses s x n failed) ∙ h n
    | inl done ↦ elim (Bool-cases (n == x.id)) [
      | inr other ↦ ap (foreign user_id) (apart.items.saves s x n done) ∙ rw other (h n)
      | inl hit ↦
          let at : x.id ≡ n = ground arith in
          ap (foreign user_id) (apart.items.saves s x n done)
          ∙ rw hit (
              own_is_none (touched (apart.items.clock s) x) own
              ∙ sym (subst (λ m. others m ≡ none) at free))
    ]
  ]

  pub created-Mine :
      (x : DriveItem) (s : S) (a : DriveItem)
      → x.user_id ≡ user_id
      → Holds s
      → (o.items.create x s).0 ≡ some a
      → Mine a
  created-Mine x s a own h e =
      let (fresh, same, written) = apart.creates x s a e in
      (sym (h a.id) ∙ ap (foreign user_id) fresh, same ∙ own)

  pub Holds-create :
      (x : DriveItem) (s : S) → x.user_id ≡ user_id → Holds s → Holds (o.items.create x s).1
  Holds-create x s own h = elim (Option-cases (o.items.create x s).0) [
    | inl failed ↦ Holds-Unmoved s (o.items.create x s).1 (apart.creates_none x s failed) h
    | inr (a, e) ↦ λ n.
        let (fresh, same, written) = apart.creates x s a e in
        let (free, mine) = created-Mine x s a own h e in
        elim (Bool-cases (n == a.id)) [
          | inr other ↦ ap (foreign user_id) (written n) ∙ rw other (h n)
          | inl hit ↦
              let at : a.id ≡ n = ground arith in
              ap (foreign user_id) (written n)
              ∙ rw hit (own_is_none a mine ∙ sym (subst (λ m. others m ≡ none) at free))
        ]
  ]

  Holds-Gone :
      (q : DriveItem → Bool) (s s' : S)
      → ((x : DriveItem) → q x ≡ true → others x.id ≡ none)
      → ((n : ℕ) → Gone view q s s' n)
      → Holds s
      → Holds s'
  Holds-Gone q s s' free gone h n = elim (gone n) [
    | inl same ↦ ap (foreign user_id) same ∙ h n
    | inr (x, there, hit, away) ↦
        let at : x.id ≡ n = (apart.items.keyed s n x there).0 in
        ap (foreign user_id) away ∙ sym (subst (λ m. others m ≡ none) at (free x hit))
  ]

  pub Holds-delete :
      (q : DriveItem → Bool) (s : S)
      → ((x : DriveItem) → q x ≡ true → others x.id ≡ none)
      → Holds s
      → Holds (o.items.delete q s).1
  Holds-delete q s free = Holds-Gone q s (o.items.delete q s).1 free (apart.deletes q s)

  pub Holds-force_delete :
      (q : DriveItem → Bool) (s : S)
      → ((x : DriveItem) → q x ≡ true → others x.id ≡ none)
      → Holds s
      → Holds (o.items.force_delete q s).1
  Holds-force_delete q s free =
      Holds-Gone q s (o.items.force_delete q s).1 free (apart.force_deletes q s)

  -- The row with an item's id is the item's.
  pub same_id-free :
      (item x : DriveItem) → Mine item → (x.id == item.id) ≡ true → others x.id ≡ none
  same_id-free item x (free, own) h =
      let at : item.id ≡ x.id = ground arith in subst (λ m. others m ≡ none) at free
