-- ===== src/Base/Decimal.antt =====
-- `strconv.FormatInt` and `strconv.ParseInt` in base ten, and their round trip.
use ponta_drive_api.Base.{
  ℕ, zero, suc, ◌+◌, ◌-◌, ◌*◌, ◌/◌, ◌%◌, ◌^◌, ◌≤◌, ◌<◌, ◌≡◌, refl, ◌∙◌, ap, Bool, false, ◌&&◌,
  Option, none, some, [], ◌∷◌, arith, ltb, leb, ◌==◌, if◌then◌else◌, inl, inr, Bool-cases, true,
  and_split,
}
use ponta_drive_api.Base.Int.{ℤ, pos, negsuc}
use ponta_drive_api.Base.Text.{Text, text, is_empty, is_space, solid, has_char}

-- The digits of a number in front of a text, with fuel; `format_nat` gives enough.
digits_onto : ℕ → ℕ → Text → Text
digits_onto zero n rest = rest
digits_onto (suc fuel) n rest =
    let more = digits_onto fuel (n / 10) ((48 + n % 10) ∷ rest) in
    if ltb n 10 then (48 + n) ∷ rest else more

unfoldable pub format_nat : ℕ → Text
unfolding digits_onto
format_nat n = digits_onto (suc n) n []

unfoldable pub format_int : ℤ → Text
unfolding format_nat
format_int (pos n) = format_nat n
format_int (negsuc n) = b'-' ∷ format_nat (suc n)

is_digit : ℕ → Bool
is_digit c = leb 48 c && leb c 57

read_digits : ℕ → Text → Option ℕ
unfolding is_digit
read_digits acc [] = some acc
read_digits acc (c ∷ s) = if is_digit c then read_digits (acc * 10 + (c - 48)) s else none

-- At least one digit.
read_nat : Text → Option ℕ
unfolding read_digits
read_nat [] = none
read_nat (c ∷ s) = read_digits 0 (c ∷ s)

-- The sign and the range of a w-bit integer, 2^(w-1) being `half`.
unfoldable pub parse_int : ℕ → Text → Option ℤ
unfolding read_nat
parse_int half [] = none
parse_int half (c ∷ s) =
    if c == b'-'
    then elim (read_nat s) [
      | none ↦ none
      | some n ↦ if leb n half then some (elim n [ zero ↦ pos zero | suc m ↦ negsuc m ]) else none
    ]
    else elim (read_nat (if c == b'+' then s else c ∷ s)) [
      | none ↦ none
      | some n ↦ if ltb n half then some (pos n) else none
    ]

-- `ParseUint` in base ten, below a bound.
unfoldable pub parse_uint : ℕ → Text → Option ℕ
unfolding read_nat
parse_uint bound s = elim (read_nat s) [
  | none ↦ none
  | some n ↦ if ltb n bound then some n else none
]

abbrev pub half_64 : ℕ
half_64 = 2 ^ 63

abbrev pub half_32 : ℕ
half_32 = 2 ^ 31

read_digits-digits_onto :
    (fuel n : ℕ) (rest : Text)
    → n < fuel
    → read_digits 0 (digits_onto fuel n rest) ≡ read_digits n rest
unfolding read_digits digits_onto
read_digits-digits_onto zero n rest h = absurd (omega arith)
read_digits-digits_onto (suc fuel) n rest h = elim (Bool-cases (ltb n 10)) [
  | inl small ↦ rw small (ground arith)
  | inr large ↦
      rw large
        (read_digits-digits_onto fuel (n / 10) ((48 + n % 10) ∷ rest) (ground arith) ∙ ground arith)
]

check_parse : parse_int half_64 (text "-120") ≡ some (negsuc 119)
unfolding parse_int
check_parse = refl

check_format : format_int (negsuc 119) ≡ text "-120"
unfolding format_int
check_format = refl

digits_onto_head :
    (fuel n : ℕ) (rest : Text)
    → n < fuel
    → (c : ℕ) × (s : Text) × (digits_onto fuel n rest ≡ c ∷ s) × (48 ≤ c)
unfolding digits_onto
digits_onto_head zero n rest h = absurd (omega arith)
digits_onto_head (suc fuel) n rest h = elim (Bool-cases (ltb n 10)) [
  | inl small ↦ (48 + n, rest, rw small, omega arith)
  | inr large ↦
      let (c, s, e, d) = digits_onto_head fuel (n / 10) ((48 + n % 10) ∷ rest) (ground arith) in
      (c, s, rw large e, d)
]

read_digits-format_nat : (n : ℕ) → read_digits 0 (format_nat n) ≡ some n
unfolding format_nat read_digits
read_digits-format_nat n = read_digits-digits_onto (suc n) n [] (omega arith)

-- The text of a number begins with a digit, so that it reads as no sign.
pub format_nat_head : (n : ℕ) → (c : ℕ) × (s : Text) × (format_nat n ≡ c ∷ s) × (48 ≤ c)
unfolding format_nat
format_nat_head n = digits_onto_head (suc n) n [] (omega arith)

read_nat-cons : (c : ℕ) (s : Text) → read_nat (c ∷ s) ≡ read_digits 0 (c ∷ s)
unfolding read_nat
read_nat-cons c s = refl

read_nat-format_nat : (n : ℕ) → read_nat (format_nat n) ≡ some n
read_nat-format_nat n =
    let (c, s, e, _) = format_nat_head n in cc (e, read_nat-cons c s, read_digits-format_nat n)

parse_unsigned :
    (half n c : ℕ) (s : Text)
    → n < half
    → 48 ≤ c
    → read_nat (c ∷ s) ≡ some n
    → parse_int half (c ∷ s) ≡ some (pos n)
unfolding parse_int
parse_unsigned half n c s h d r = ground arith

parse_negative :
    (half n : ℕ) (s : Text)
    → n < half
    → read_nat s ≡ some (suc n)
    → parse_int half (b'-' ∷ s) ≡ some (negsuc n)
unfolding parse_int
parse_negative half n s h r = ground arith

-- The w-bit integers, `half` being 2^(w-1).
abbrev pub Fits : ℕ → ℤ → Type 0
Fits half (pos n) = n < half
Fits half (negsuc n) = n < half

-- What `FormatInt` writes `ParseInt` reads, for every number in its range.
pub parse_int-format_int : (half : ℕ) (z : ℤ) → Fits half z → parse_int half (format_int z) ≡ some z
unfolding format_int
parse_int-format_int half (pos n) h =
    let (c, s, e, d) = format_nat_head n in
    ap (parse_int half) e ∙ parse_unsigned half n c s h d (cc (e, read_nat-format_nat n))
parse_int-format_int half (negsuc n) h =
    parse_negative half n (format_nat (suc n)) h (read_nat-format_nat (suc n))

-- The text of an integer is not empty.
pub format_int_nonempty : (z : ℤ) → is_empty (format_int z) ≡ false
unfolding format_int
format_int_nonempty (pos n) = let (c, s, e, _) = format_nat_head n in rw e refl
format_int_nonempty (negsuc n) = refl

-- A text of digits.
unfoldable pub numeric : Text → Bool
unfolding is_digit
numeric [] = true
numeric (c ∷ s) = is_digit c && numeric s

numeric-digits_onto :
    (fuel n : ℕ) (rest : Text) → numeric rest ≡ true → numeric (digits_onto fuel n rest) ≡ true
unfolding numeric digits_onto is_digit
numeric-digits_onto zero n rest h = h
numeric-digits_onto (suc fuel) n rest h = elim (Bool-cases (ltb n 10)) [
  | inl small ↦ rw small (ground arith)
  | inr large ↦ rw large (numeric-digits_onto fuel (n / 10) ((48 + n % 10) ∷ rest) (ground arith))
]

pub numeric-format_nat : (n : ℕ) → numeric (format_nat n) ≡ true
unfolding format_nat numeric
numeric-format_nat n = numeric-digits_onto (suc n) n [] refl

digit_not_space : (c : ℕ) → is_digit c ≡ true → is_space c ≡ false
unfolding is_digit
digit_not_space c h = ground arith

pub numeric-solid : (s : Text) → numeric s ≡ true → solid s ≡ true
unfolding numeric solid
numeric-solid [] h = refl
numeric-solid (c ∷ s) h =
    let (digit, digits) = and_split (is_digit c) (numeric s) h in
    rw (digit_not_space c digit, numeric-solid s digits) refl

-- No sign and no separator stands among digits.
pub numeric-has_char : (s : Text) (d : ℕ) → d < 48 → numeric s ≡ true → has_char s d ≡ false
unfolding numeric has_char is_digit
numeric-has_char [] d k h = refl
numeric-has_char (c ∷ s) d k h =
    let (digit, digits) = and_split (is_digit c) (numeric s) h in
    let rest = numeric-has_char s d k digits in ground arith

pub format_int-pos : (n : ℕ) → format_int (pos n) ≡ format_nat n
unfolding format_int
format_int-pos n = refl

pub format_nat_nonempty : (n : ℕ) → is_empty (format_nat n) ≡ false
format_nat_nonempty n = let (c, s, e, _) = format_nat_head n in rw e refl
