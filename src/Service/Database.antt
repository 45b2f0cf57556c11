-- ===== src/Service/Database.antt =====
-- What a table of the database promises, over the live rows that a state holds, and what the
-- queries of the folder tree read then.
use ponta_drive_api.Base.{
  ℕ, ◌<◌, ◌≡◌, fun_ext, subst, inl, inr, Bool, true, false, ◌&&◌, Option, none, some, arith, ◌==◌,
  if◌then◌else◌, Bool-cases, Option-cases, ==_iff,
}
use ponta_drive_api.Models.{DriveItem}
use ponta_drive_api.Service.{Table, Outside}
use ponta_drive_api.Service.Items.{in_account, rows_of}

-- `view s n` is the live row of the id n. Queries succeed and answer with a row that meets the
-- conditions, or with the zero value when there is none; a row is saved under its id, as it is given
-- but for the time of its last change, which `touch` sets; a write that fails changes nothing.
pub record TableLaws {S A : Type 0} (table : Table S A) (id_of : A → ℕ) (touch : ℕ → A → A)
    (view : S → ℕ → Option A) : Type 0 where
  pub clock : S → ℕ
  pub keyed : (s : S) (n : ℕ) (x : A) → view s n ≡ some x → (id_of x ≡ n) × (0 < n)
  pub answers : (q : A → Bool) (s : S) → (a : A) × (table.first q s ≡ some a)
  pub meets :
      (q : A → Bool) (s : S) (a : A)
      → table.first q s ≡ some a
      → 0 < id_of a
      → (q a ≡ true) × (view s (id_of a) ≡ some a)
  pub misses :
      (q : A → Bool) (s : S) (a : A)
      → table.first q s ≡ some a
      → id_of a ≡ 0
      → (n : ℕ) (x : A) → view s n ≡ some x
      → q x ≡ false
  pub saves :
      (s : S) (x : A) (n : ℕ)
      → (table.save x s).0 ≡ true
      → view (table.save x s).1 n ≡ (if n == id_of x then some (touch (clock s) x) else view s n)
  pub refuses :
      (s : S) (x : A) (n : ℕ) → (table.save x s).0 ≡ false → view (table.save x s).1 n ≡ view s n

-- The rows of a user in an account.
abbrev pub keep : ℕ → ℕ → Option DriveItem → Option DriveItem
keep user_id account_id none = none
keep user_id account_id (some x) =
    if x.user_id == user_id && x.cloud_account_id == account_id then some x else none

abbrev pub account_rows : (ℕ → Option DriveItem) → ℕ → ℕ → ℕ → Option DriveItem
account_rows view user_id account_id n = keep user_id account_id (view n)

abbrev pub touched : ℕ → DriveItem → DriveItem
touched now x = record x { updated_at = some now }

abbrev pub ItemLaws : {S : Type 0} → Outside S → (S → ℕ → Option DriveItem) → Type 0
ItemLaws o view = TableLaws o.items (λ i. i.id) touched view

module _ {S : Type 0} (o : Outside S) (view : S → ℕ → Option DriveItem)
    (laws : ItemLaws o view) where
  rows_of-view :
      (user_id account_id : ℕ) (s : S) (n : ℕ)
      → rows_of o user_id account_id s n ≡ account_rows (view s) user_id account_id n
  rows_of-view user_id account_id s n =
      let (a, at) = laws.answers (in_account user_id account_id n) s in
      elim (Bool-cases (a.id == 0)) [
        | inl zero_id ↦ elim (Option-cases (view s n)) [
          | inl nothing ↦ rw (at, nothing) (ground arith)
          | inr (x, there) ↦
              let key = laws.keyed s n x there in
              let out =
                laws.misses (in_account user_id account_id n) s a at ((==_iff a.id 0).0 zero_id) n x
                  there in
              rw (at, there) (ground arith)
        ]
        | inr saved ↦
            let (hit, there) = laws.meets (in_account user_id account_id n) s a at (ground arith) in
            let same : a.id ≡ n = ground arith in
            let there' : view s n ≡ some a = subst (λ m. view s m ≡ some a) same there in
            rw (at, there') (ground arith)
      ]

  -- The tree that the walks see is the account's.
  pub rows_of-account_rows :
      (user_id account_id : ℕ) (s : S)
      → rows_of o user_id account_id s ≡ account_rows (view s) user_id account_id
  rows_of-account_rows user_id account_id s = fun_ext (rows_of-view user_id account_id s)
