-- ===== src/Preview/Range.antt =====
-- `ParseRangeHeader` of app/services/preview_policy.go.
use ponta_drive_api.Base.{
  ◌≡◌, Bool, true, false, not, ◌||◌, Option, none, some, arith, inl, inl, inr, Bool-cases,
  if◌then◌else◌,
}
use ponta_drive_api.Base.Int.{ℤ, pos, ◌+ℤ◌, ◌-ℤ◌, ◌≤ℤ◌, ltb_ℤ, leb_ℤ, int_laws}
use ponta_drive_api.Base.Text.{
  Text, text, is_empty, has_prefix, trim_prefix, trim_space, has_char, cut,
}
use ponta_drive_api.Base.Decimal.{parse_int, half_64}

pub data RangeError : Type 0 where
  unsupported_unit multiple_ranges malformed malformed_start out_of_bounds : RangeError
  malformed_end end_before_start : RangeError

pub data RangeResult : Type 0 where
  span : ℤ → ℤ → RangeResult
  bad_range : RangeError → RangeResult

-- `if parsed < end { end = parsed }`
unfoldable pub clip : ℤ → ℤ → ℤ
clip parsed last = if ltb_ℤ parsed last then parsed else last

-- The end as the header gives it, where it gives one.
unfoldable pub closed_end : ℤ → ℤ → Option ℤ → RangeResult
closed_end start last none = bad_range malformed_end
closed_end start last (some parsed) =
    if ltb_ℤ parsed start
    then bad_range end_before_start
    else span start (clip parsed last -ℤ start +ℤ pos 1)

-- The end of the span, behind a start that is in bounds.
unfoldable pub range_end : Text → ℤ → ℤ → RangeResult
unfolding clip closed_end
range_end end_str start size =
    let last = size -ℤ pos 1 in
    if is_empty (trim_space end_str)
    then span start (last -ℤ start +ℤ pos 1)
    else closed_end start last (parse_int half_64 (trim_space end_str))

-- The start of the span, as `ParseInt` read it.
unfoldable pub range_start : Text → ℤ → Option ℤ → RangeResult
range_start end_str size none = bad_range malformed_start
range_start end_str size (some start) =
    if ltb_ℤ start (pos 0) || leb_ℤ size start
    then bad_range out_of_bounds
    else range_end end_str start size

-- The two parts of the specification, as `Cut` split it at the dash.
unfoldable pub range_parts : ℤ → Option (Text × Text) → RangeResult
range_parts size none = bad_range malformed
range_parts size (some (start_str, end_str)) =
    range_start end_str size (parse_int half_64 (trim_space start_str))

unfoldable pub parse_range_header : Text → ℤ → RangeResult
unfolding range_start range_end range_parts
parse_range_header raw size =
    let header = trim_space raw in
    let spec = trim_prefix header (text "bytes=") in
    if is_empty header
    then span (pos 0) size
    else if not (has_prefix header (text "bytes="))
    then bad_range unsupported_unit
    else if has_char spec b','
    then bad_range multiple_ranges
    else range_parts size (cut spec b'-')

-- The span lies in the object, and is not empty.
abbrev pub InObject : ℤ → RangeResult → Type 0
InObject size (span start len) = (pos 0 ≤ℤ start) × (pos 1 ≤ℤ len) × (start +ℤ len ≤ℤ size)
InObject size (bad_range e) = Unit

-- From the start to an end that is in the object.
span-InObject :
    (start last size : ℤ)
    → pos 0 ≤ℤ start
    → start ≤ℤ last
    → last ≤ℤ size -ℤ pos 1
    → InObject size (span start (last -ℤ start +ℤ pos 1))
span-InObject start last size h k m = omega int_laws

clip-le : (parsed last : ℤ) → (clip parsed last ≤ℤ last) × (clip parsed last ≤ℤ parsed)
unfolding clip
clip-le parsed last = ground arith

le-clip : (start parsed last : ℤ) → start ≤ℤ last → start ≤ℤ parsed → start ≤ℤ clip parsed last
unfolding clip
le-clip start parsed last h k = ground arith

closed_end-InObject :
    (start size : ℤ) (o : Option ℤ)
    → pos 0 ≤ℤ start
    → start ≤ℤ size -ℤ pos 1
    → InObject size (closed_end start (size -ℤ pos 1) o)
unfolding closed_end
closed_end-InObject start size none h k = tt
closed_end-InObject start size (some parsed) h k = elim (Bool-cases (ltb_ℤ parsed start)) [
  | inl before ↦ rw before tt
  | inr from ↦
      let last = size -ℤ pos 1 in
      rw from (
        span-InObject start (clip parsed last) size h (le-clip start parsed last k (ground arith))
          (clip-le parsed last).0)
]

range_end-InObject :
    (end_str : Text) (start size : ℤ)
    → pos 0 ≤ℤ start
    → start ≤ℤ size -ℤ pos 1
    → InObject size (range_end end_str start size)
unfolding range_end
range_end-InObject end_str start size h k = elim (Bool-cases (is_empty (trim_space end_str))) [
  | inl open_ended ↦ rw open_ended (span-InObject start (size -ℤ pos 1) size h k (omega int_laws))
  | inr closed ↦
      rw closed (closed_end-InObject start size (parse_int half_64 (trim_space end_str)) h k)
]

in_bounds :
    (start size : ℤ)
    → (ltb_ℤ start (pos 0) || leb_ℤ size start) ≡ false
    → (pos 0 ≤ℤ start) × (start ≤ℤ size -ℤ pos 1)
in_bounds start size h =
    let a : pos 0 ≤ℤ start = ground arith in
    let b : start +ℤ pos 1 ≤ℤ size = grind int_laws in (a, omega int_laws)

range_start-InObject :
    (end_str : Text) (size : ℤ) (o : Option ℤ) → InObject size (range_start end_str size o)
unfolding range_start
range_start-InObject end_str size none = tt
range_start-InObject end_str size (some start) =
    elim (Bool-cases (ltb_ℤ start (pos 0) || leb_ℤ size start)) [
      | inl out ↦ rw out tt
      | inr fits ↦
          let (h, k) = in_bounds start size fits in
          rw fits (range_end-InObject end_str start size h k)
    ]

range_parts-InObject : (size : ℤ) (o : Option (Text × Text)) → InObject size (range_parts size o)
unfolding range_parts
range_parts-InObject size none = tt
range_parts-InObject size (some (start_str, end_str)) =
    range_start-InObject end_str size (parse_int half_64 (trim_space start_str))

InObject-if :
    (size : ℤ) (b : Bool) (e : RangeError) (r : RangeResult)
    → InObject size r
    → InObject size (if b then bad_range e else r)
InObject-if size true e r h = tt
InObject-if size false e r h = h

-- For every header that is not blank: when it is accepted, the span starts at zero or later, holds
-- at least one byte, and ends within the object.
pub parse_range_header-InObject :
    (header : Text) (size : ℤ)
    → is_empty (trim_space header) ≡ false
    → InObject size (parse_range_header header size)
unfolding parse_range_header
parse_range_header-InObject header size h =
    let trimmed = trim_space header in
    let spec = trim_prefix trimmed (text "bytes=") in
    let parts = range_parts size (cut spec b'-') in
    let single = if has_char spec b',' then bad_range multiple_ranges else parts in
    rw h (
      InObject-if size (not (has_prefix trimmed (text "bytes="))) unsupported_unit single (
        InObject-if size (has_char spec b',') multiple_ranges parts
          (range_parts-InObject size (cut spec b'-'))))
