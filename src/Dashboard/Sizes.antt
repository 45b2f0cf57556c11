-- ===== src/Dashboard/Sizes.antt =====
-- `humanizeBytes` of app/services/dashboard_service.go.
use ponta_drive_api.Base.{
  ◌≡◌, refl, ℕ, zero, suc, ◌+◌, ◌*◌, ◌/◌, ◌^◌, ◌≤◌, ◌<◌, Option, none, some, [], ◌∷◌, ◌++◌, leb,
  ltb, false, arith, if◌then◌else◌, Bool-cases, inl, inr,
}
use ponta_drive_api.Base.Int.{ℤ, pos, negsuc}
use ponta_drive_api.Base.Text.{Text, text}
use ponta_drive_api.Base.Decimal.{format_int}

-- The loop: the divisor and the exponent, where the rounds suffice.
unfoldable pub scale : ℕ → ℕ → ℕ → ℕ → Option (ℕ × ℕ)
scale zero n div exp = none
scale (suc fuel) n div exp =
    let rest = scale fuel (n / 1024) (div * 1024) (exp + 1) in
    if leb 1024 n then rest else some (div, exp)

-- A character of a text by its index; `none` is the panic of an index that is out of range.
unfoldable pub char_at : ℕ → Text → Option ℕ
char_at n [] = none
char_at zero (c ∷ t) = some c
char_at (suc n) (c ∷ t) = char_at n t

module _ (one_decimal : ℕ → ℕ → Text) where
  -- `fmt.Sprintf("%.1f %cB", ...)`
  abbrev lettered : ℕ → ℕ → Option ℕ → Option Text
  lettered b div none = none
  lettered b div (some letter) = some (one_decimal b div ++ 32 ∷ letter ∷ b'B' ∷ [])

  abbrev scaled : ℕ → Option (ℕ × ℕ) → Option Text
  scaled b none = none
  scaled b (some (div, exp)) = lettered b div (char_at exp (text "KMGTPE"))

  -- `humanizeBytes`, with `one_decimal b div` for the quotient as "%.1f" prints it, and six rounds for
  -- the loop.
  unfoldable pub humanize_bytes : ℤ → Option Text
  unfolding scale char_at
  humanize_bytes (negsuc n) = some (format_int (negsuc n) ++ text " B")
  humanize_bytes (pos n) =
      if ltb n 1024
      then some (format_int (pos n) ++ text " B")
      else scaled n (scale 6 (n / 1024) 1024 0)

abbrev pub power : ℕ → ℕ
power zero = 1
power (suc n) = power n * 1024

-- The loop has found the power of 1024 that fits, and its letter.
Fitting : ℕ → Type 0
unfolding scale char_at
Fitting b =
    (exp : ℕ) × (letter : ℕ) × (scale 6 (b / 1024) 1024 0 ≡ some (power (suc exp), exp))
    × (char_at exp (text "KMGTPE") ≡ some letter)
    × (power (suc exp) ≤ b)
    × (b < power (suc (suc exp)))

scale-Fitting : (b : ℕ) → 1024 ≤ b → b < 2 ^ 63 → Fitting b
unfolding scale char_at Fitting
scale-Fitting b h k = elim (Bool-cases (leb 1024 (b / 1024))) [
  | inr e0 ↦ (0, _, rw e0 refl, refl, omega arith, ground arith)
  | inl e0 ↦ elim (Bool-cases (leb 1024 (b / 1024 / 1024))) [
    | inr e1 ↦ (1, _, rw (e0, e1) refl, refl, ground arith, ground arith)
    | inl e1 ↦ elim (Bool-cases (leb 1024 (b / 1024 / 1024 / 1024))) [
      | inr e2 ↦ (2, _, rw (e0, e1, e2) refl, refl, ground arith, ground arith)
      | inl e2 ↦ elim (Bool-cases (leb 1024 (b / 1024 / 1024 / 1024 / 1024))) [
        | inr e3 ↦ (3, _, rw (e0, e1, e2, e3) refl, refl, ground arith, ground arith)
        | inl e3 ↦ elim (Bool-cases (leb 1024 (b / 1024 / 1024 / 1024 / 1024 / 1024))) [
          | inr e4 ↦ (4, _, rw (e0, e1, e2, e3, e4) refl, refl, ground arith, ground arith)
          | inl e4 ↦
              let last : leb 1024 (b / 1024 / 1024 / 1024 / 1024 / 1024 / 1024) ≡ false =
                ground arith in
              (5, _, rw (e0, e1, e2, e3, e4, last) refl, refl, ground arith, ground arith)
        ]
      ]
    ]
  ]
]

-- For every int64 from 1024 on the loop ends within six rounds and the index of the letter is in
-- range: the text is the quotient by a power of 1024, which is at most the number and more than a
-- 1024th of it, and the letter of this power.
pub humanize_bytes_lem :
    (one_decimal : ℕ → ℕ → Text) (b : ℕ)
    → 1024 ≤ b
    → b < 2 ^ 63
    → (exp : ℕ) × (letter : ℕ) × (char_at exp (text "KMGTPE") ≡ some letter)
      × (power (suc exp) ≤ b)
      × (b < power (suc (suc exp)))
      × (humanize_bytes one_decimal (pos b)
          ≡ some (one_decimal b (power (suc exp)) ++ 32 ∷ letter ∷ b'B' ∷ []))
unfolding humanize_bytes Fitting
humanize_bytes_lem one_decimal b h k =
    let (exp, letter, runs, found, above, under) = scale-Fitting b h k in
    let large : ltb b 1024 ≡ false = ground arith in
    (exp, letter, found, above, under, rw (large, runs) (rw found refl))
