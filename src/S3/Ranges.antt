-- ===== src/S3/Ranges.antt =====
-- The Range header of `GetRange` of app/services/storage/s3_driver.go against `ParseRangeHeader` of
-- app/services/preview_policy.go.
use ponta_drive_api.Base.{
  ◌≡◌, refl, ◌∙◌, ap, sym, ℕ, suc, ◌+◌, ◌≤◌, ◌<◌, true, false, some, ◌∷◌, ◌++◌, ◌||◌, append_assoc,
  arith,
}
use ponta_drive_api.Base.Int.{ltb_ℤ, leb_ℤ, pos, ◌+₆₄◌, ◌-₆₄◌, ◌+ℤ◌, ◌-ℤ◌, wrap}
use ponta_drive_api.Base.Text.{
  Text, text, trim_space, trim_space-solid, solid, solid-append, has_char, has_char-append, cut,
  cut-append, trim_prefix-append, has_prefix-append,
}
use ponta_drive_api.Base.Decimal.{
  format_nat, format_int-pos, format_nat_nonempty, parse_int, parse_int-format_int, half_64,
  numeric-format_nat, numeric-solid, numeric-has_char,
}
use ponta_drive_api.Preview.Range.{
  span, parse_range_header, range_parts, range_start, range_end, clip, closed_end,
}
use ponta_drive_api.S3.Objects.{range_header}

-- The last byte of the range, where nothing overflows.
last_byte :
    (offset len : ℕ)
    → offset + suc len < half_64
    → pos offset +₆₄ pos (suc len) -₆₄ pos 1 ≡ pos (offset + len)
unfolding ◌+₆₄◌ ◌-₆₄◌ ◌+ℤ◌ ◌-ℤ◌ wrap
last_byte offset len h = ground arith

header_text : (a b : ℕ) → Text
header_text a b = format_nat a ++ (b'-' ∷ format_nat b)

not_negative : (n : ℕ) → ltb_ℤ (pos n) (pos 0) ≡ false
not_negative n = ground arith

range_header_closed :
    (offset len : ℕ)
    → offset + suc len < half_64
    → range_header (pos offset) (pos (suc len)) ≡ text "bytes=" ++ header_text offset (offset + len)
unfolding range_header header_text
range_header_closed offset len h =
    rw
      (
        not_negative (suc len),
        last_byte offset len h,
        format_int-pos offset,
        format_int-pos (offset + len),
      )
      (ap (λ t. text "bytes=" ++ t)
        (append_assoc (format_nat offset) (text "-") (format_nat (offset + len))))

solid-header_text : (a b : ℕ) → solid (text "bytes=" ++ header_text a b) ≡ true
unfolding header_text solid
solid-header_text a b =
    let first = numeric-solid (format_nat a) (numeric-format_nat a) in
    let second = numeric-solid (format_nat b) (numeric-format_nat b) in
    rw (solid-append (format_nat a) (b'-' ∷ format_nat b), first, second) refl

has_char-header_text : (a b : ℕ) → has_char (header_text a b) b',' ≡ false
unfolding header_text has_char
has_char-header_text a b =
    let first = numeric-has_char (format_nat a) b',' (omega arith) (numeric-format_nat a) in
    let second = numeric-has_char (format_nat b) b',' (omega arith) (numeric-format_nat b) in
    rw (has_char-append (format_nat a) (b'-' ∷ format_nat b) b',', first, second) refl

cut-header_text : (a b : ℕ) → cut (header_text a b) b'-' ≡ some (format_nat a, format_nat b)
unfolding header_text
cut-header_text a b =
    cut-append (format_nat a) (format_nat b) b'-'
      (numeric-has_char (format_nat a) b'-' (omega arith) (numeric-format_nat a))

read_back : (n : ℕ) → n < half_64 → parse_int half_64 (trim_space (format_nat n)) ≡ some (pos n)
read_back n h =
    ap (parse_int half_64) (
      trim_space-solid (format_nat n) (numeric-solid (format_nat n) (numeric-format_nat n))
      ∙ sym (format_int-pos n))
    ∙ parse_int-format_int half_64 (pos n) h

to_last :
    (a len size : ℕ)
    → a + len < size
    → closed_end (pos a) (pos size -ℤ pos 1) (some (pos (a + len))) ≡ span (pos a) (pos (suc len))
unfolding closed_end clip ◌+ℤ◌ ◌-ℤ◌
to_last a len size h = ground arith

-- What is written of a span is read as it.
reads_end :
    (a len size : ℕ)
    → a + len < size
    → size < half_64
    → range_end (format_nat (a + len)) (pos a) (pos size) ≡ span (pos a) (pos (suc len))
unfolding range_end
reads_end a len size h k =
    let some_end =
      trim_space-solid (format_nat (a + len))
        (numeric-solid (format_nat (a + len)) (numeric-format_nat (a + len))) in
    rw (some_end, format_nat_nonempty (a + len), sym some_end, read_back (a + len) (omega arith))
      (to_last a len size h)

reads_start :
    (a len size : ℕ)
    → a + len < size
    → size < half_64
    → range_parts (pos size) (some (format_nat a, format_nat (a + len)))
      ≡ span (pos a) (pos (suc len))
unfolding range_parts range_start
reads_start a len size h k =
    let inside : (ltb_ℤ (pos a) (pos 0) || leb_ℤ (pos size) (pos a)) ≡ false = ground arith in
    rw (range_parts, read_back a (omega arith), inside) (reads_end a len size h k)

-- For a range of at least one byte that lies in an object of less than 2^63 bytes, the header that
-- `GetRange` sends is read by `ParseRangeHeader` as that range.
pub parse_range_header-range_header :
    (offset len size : ℕ)
    → offset + suc len ≤ size
    → size < half_64
    → parse_range_header (range_header (pos offset) (pos (suc len))) (pos size)
      ≡ span (pos offset) (pos (suc len))
unfolding parse_range_header
parse_range_header-range_header offset len size h k =
    let spec = header_text offset (offset + len) in
    rw
      (
        range_header_closed offset len (omega arith),
        trim_space-solid (text "bytes=" ++ spec) (solid-header_text offset (offset + len)),
        has_prefix-append (text "bytes=") spec,
        trim_prefix-append (text "bytes=") spec,
        has_char-header_text offset (offset + len),
        cut-header_text offset (offset + len),
      )
      (reads_start offset len size (omega arith) k)
