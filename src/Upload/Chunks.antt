-- ===== src/Upload/Chunks.antt =====
-- The number of parts of a multipart upload: `InitiateMultipartUpload` of
-- app/services/cloud_drive_service.go.
use native.Mathlib.Nat.{mod-lt, mod-eq_of_lt, div-add-mod}
use native.Mathlib.Decide.{dec_le}
use ponta_drive_api.Base.{
  ℕ, zero, suc, ◌+◌, ◌-◌, ◌*◌, ◌/◌, ◌%◌, ◌^◌, ◌≤◌, ◌<◌, ◌≡◌, refl, arith, if◌then◌else◌,
}
use ponta_drive_api.Base.Int.{ℤ, pos, negsuc, pos_part, ◌+ℤ◌, ◌-ℤ◌, leb_ℤ, ltb_ℤ, wrap}

-- Go's division, which truncates towards zero. The divisor here is positive.
unfoldable pub quotient : ℤ → ℕ → ℤ
quotient (pos n) d = pos (n / d)
quotient (negsuc n) d = pos 0 -ℤ pos (suc n / d)

abbrev pub default_chunk_size : ℤ
default_chunk_size = pos (5 * 1024 * 1024)

unfoldable pub chunk_size_or_default : ℤ → ℤ
chunk_size_or_default chunk_size =
    if leb_ℤ chunk_size (pos 0) then default_chunk_size else chunk_size

-- `int32((size + chunkSize - 1) / chunkSize)`, at least 1
unfoldable pub total_parts : ℤ → ℤ → ℤ
unfolding wrap quotient
total_parts size chunk_size =
    let sum = wrap (2 ^ 63) (wrap (2 ^ 63) (size +ℤ chunk_size) -ℤ pos 1) in
    let parts = wrap (2 ^ 31) (quotient sum (pos_part chunk_size)) in
    if ltb_ℤ parts (pos 1) then pos 1 else parts

overflow_hides_parts : total_parts (pos (2 ^ 32)) (pos 1) ≡ pos 1
unfolding total_parts ◌+ℤ◌ ◌-ℤ◌
overflow_hides_parts = refl

wrap_small : (half n : ℕ) → n < half → wrap half (pos n) ≡ pos n
unfolding wrap
wrap_small half n h =
    let in_range : n % (half + half) ≡ n = mod-eq_of_lt (omega arith) in rw in_range (ground arith)

pos_sum : (a b : ℕ) → pos a +ℤ pos b ≡ pos (a + b)
unfolding ◌+ℤ◌
pos_sum a b = ground arith

pos_pred : (a : ℕ) → 0 < a → pos a -ℤ pos 1 ≡ pos (a - 1)
unfolding ◌-ℤ◌
pos_pred a h = ground arith

-- The int64 arithmetic stays in range.
sum_exact :
    (half size chunk : ℕ)
    → 0 < size
    → size + chunk < half
    → wrap half (wrap half (pos size +ℤ pos chunk) -ℤ pos 1) ≡ pos (size + chunk - 1)
sum_exact half size chunk hs small = rw (pos_sum size chunk) (
    rw (wrap_small half (size + chunk) small) (
      rw (pos_pred (size + chunk) (omega arith))
        (wrap_small half (size + chunk - 1) (omega arith))))

div_bounds : (a d : ℕ) → 0 < d → ((a / d) * d ≤ a) × (a < suc (a / d) * d)
div_bounds a d h = omega (arith, div-add-mod a d, mod-lt a h)

quotient_bounds :
    (size chunk k q : ℕ)
    → 0 < size
    → 0 < chunk
    → size ≤ chunk * k
    → q * chunk ≤ size + chunk - 1
    → size + chunk - 1 < q * chunk + chunk
    → (0 < q) × (q ≤ k) × ((q - 1) * chunk < size) × (size ≤ q * chunk)
quotient_bounds size chunk k zero hs hc fits lo hi = absurd (omega arith)
quotient_bounds size chunk k (suc q) hs hc fits lo hi = (
  omega arith,
  elim (dec_le (suc q) k) [
    | yes few ↦ few
    | no many ↦ let more : k ≤ q = omega arith in absurd (grind arith)
  ],
  rw (sub_one q) (omega arith),
  omega arith,
)
  where
    sub_one : (m : ℕ) → suc m - 1 ≡ m
    sub_one m = omega arith

parts_bounds :
    (size chunk k : ℕ)
    → 0 < size
    → 0 < chunk
    → size ≤ chunk * k
    → let q = (size + chunk - 1) / chunk in
      (0 < q) × (q ≤ k) × ((q - 1) * chunk < size) × (size ≤ q * chunk)
parts_bounds size chunk k hs hc fits =
    let (lo, hi) = div_bounds (size + chunk - 1) chunk hc in
    quotient_bounds size chunk k ((size + chunk - 1) / chunk) hs hc fits lo (omega arith)

-- For a positive size and chunk size, and at most 2^31 - 1 parts, the announced number of parts is
-- the least that holds the object: that many chunks cover the size, and one fewer do not.
pub total_parts_covers :
    (size chunk : ℕ)
    → 0 < size
    → 0 < chunk
    → size + chunk < 2 ^ 63
    → size ≤ chunk * (2 ^ 31 - 1)
    → (n : ℕ) × (total_parts (pos size) (pos chunk) ≡ pos (suc n))
      × (n * chunk < size)
      × (size ≤ suc n * chunk)
unfolding total_parts quotient
total_parts_covers size chunk hs hc small fits =
    let q = (size + chunk - 1) / chunk in
    let (some_part, few, short, enough) = parts_bounds size chunk (2 ^ 31 - 1) hs hc fits in
    (
      q - 1,
      rw (sum_exact (2 ^ 63) size chunk hs small)
          (rw (wrap_small (2 ^ 31) q (omega arith)) (ground arith)),
      short,
      rw (pred_suc q some_part) enough,
    )
  where
    pred_suc : (m : ℕ) → 0 < m → suc (m - 1) ≡ m
    pred_suc m h = omega arith
