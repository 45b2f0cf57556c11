-- ===== src/Service/Storage.antt =====
-- The storage counter of an account: what uploads add and deletions take off.
use native.Mathlib.Nat.{mod-eq_of_lt}
use native.Mathlib.Decide.{dec_le}
use ponta_drive_api.Base.{ℕ, ◌+◌, ◌-◌, ◌%◌, ◌^◌, ◌<◌, ◌≤◌, ◌≡◌, ◌∙◌, ap, arith}
use ponta_drive_api.Base.Int.{pos, negsuc, ◌+ℤ◌, ◌-ℤ◌, wrap, ◌+₆₄◌, ◌-₆₄◌}
use ponta_drive_api.Base.{refl, true, some}
use ponta_drive_api.Base.Int.{ltb_ℤ}
use ponta_drive_api.Models.{CloudAccount}
use ponta_drive_api.Service.{Driver, Outside, State, ok}
use ponta_drive_api.Service.Deletion.{decrement, release_storage}
use ponta_drive_api.Service.Uploads.{add_storage}

-- Values of an int64 are left alone.
wrap_pos : (n : ℕ) → n < 2 ^ 63 → wrap (2 ^ 63) (pos n) ≡ pos n
unfolding wrap
wrap_pos n h =
    let in_range : n % (2 ^ 63 + 2 ^ 63) ≡ n = mod-eq_of_lt (omega arith) in
    rw in_range (ground arith)

wrap_neg : (n : ℕ) → n < 2 ^ 63 → wrap (2 ^ 63) (negsuc n) ≡ negsuc n
unfolding wrap
wrap_neg n h =
    let in_range : n % (2 ^ 63 + 2 ^ 63) ≡ n = mod-eq_of_lt (omega arith) in
    rw in_range (ground arith)

sum_pos : (a b : ℕ) → pos a +ℤ pos b ≡ pos (a + b)
unfolding ◌+ℤ◌
sum_pos a b = ground arith

difference_pos : (a b : ℕ) → b ≤ a → pos a -ℤ pos b ≡ pos (a - b)
unfolding ◌-ℤ◌
difference_pos a b h = ground arith

difference_neg : (a b : ℕ) → a < b → pos a -ℤ pos b ≡ negsuc (b - a - 1)
unfolding ◌-ℤ◌
difference_neg a b h = ground arith

pub add_exact : (used size : ℕ) → used + size < 2 ^ 63 → pos used +₆₄ pos size ≡ pos (used + size)
unfolding ◌+₆₄◌
add_exact used size h = rw (sum_pos used size) (wrap_pos (used + size) h)

sub_exact :
    (used size : ℕ) → used < 2 ^ 63 → size < 2 ^ 63 → pos used -₆₄ pos size ≡ (pos used -ℤ pos size)
unfolding ◌-₆₄◌
sub_exact used size h k = elim (dec_le size used) [
  | yes enough ↦ rw (difference_pos used size enough) (wrap_pos (used - size) (omega arith))
  | no short ↦
      rw (difference_neg used size (omega arith)) (wrap_neg (size - used - 1) (omega arith))
]

-- Of a counter that is not negative, a deletion takes off the size, down to 0.
pub decrement_exact :
    (used size : ℕ)
    → used < 2 ^ 63
    → size < 2 ^ 63
    → decrement (pos used) (pos size) ≡ pos (used - size)
unfolding decrement ◌-ℤ◌
decrement_exact used size h k = rw (sub_exact used size h k) (ground arith)

-- For an account whose counter is not negative and a positive size whose sum with it is an int64: an
-- upload of this size saves the account with the sum, a deletion of this size takes the sum back to
-- what the counter was, and a deletion from the counter as it was saves the difference, or 0 where
-- the size is larger.
pub release_storage-add_storage :
    {S : Type 0} (o : Outside S) (account : CloudAccount) (driver : Driver S) (used size : ℕ)
    (s : State S)
    → account.used_storage ≡ pos used
    → 0 < size
    → used + size < 2 ^ 63
    → (add_storage o account (pos size) s ≡ (
      ok tt,
      record s {
        outside =
            (o.accounts.save (record account { used_storage = pos (used + size) }) s.outside).1;
      },
    ))
      × (release_storage o
            (some (driver, record account { used_storage = pos (used + size) }))
            (pos size)
            s
          ≡ (
            ok tt,
            record s {
              outside = (o.accounts.save (record account { used_storage = pos used }) s.outside).1;
            },
          ))
      × (release_storage o (some (driver, account)) (pos size) s ≡ (
        ok tt,
        record s {
          outside =
              (o.accounts.save (record account { used_storage = pos (used - size) }) s.outside).1;
        },
      ))
unfolding add_storage release_storage
release_storage-add_storage o account driver used size s counter some_size fits =
    let more : ltb_ℤ (pos 0) (pos size) ≡ true = ground arith in
    let back : decrement (pos (used + size)) (pos size) ≡ pos used =
      decrement_exact (used + size) size fits (omega arith) ∙ ap pos (omega arith) in
    let left = decrement_exact used size (omega arith) (omega arith) in
    (
      rw more (rw (counter, add_exact used size fits) refl),
      rw more (rw back refl),
      rw more (rw (counter, left) refl),
    )
