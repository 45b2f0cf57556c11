-- ===== src/Base/Text.antt =====
-- Go's strings, as their code points, and the functions of the package `strings` that the program
-- calls. The program's strings are valid UTF-8 and none is indexed or measured, so the bytes are
-- not seen.
use Prim.Native.Char.{code}
use Prim.Native.Nat.{ℕ, ◌+◌}
use Prim.Native.String.{String}
use mathlib.Core.Path.{◌≡◌, refl, ap, ◌∙◌}
use mathlib.Core.Logic.{◌↔◌}
use mathlib.Core.Bool.{Bool, true, false, not, ◌&&◌, ◌||◌}
use mathlib.Core.Option.{Option, none, some}
use mathlib.Core.List.{List, [], ◌∷◌, ◌++◌}
use native.Mathlib.Omega.{arith}
use ponta_drive_api.Base.Tests.{leb, ◌==◌, if◌then◌else◌, and_split, or_neither}

abbrev pub Text : Type 0
Text = List ℕ

-- A literal.
abbrev pub text : String → Text
text String.[] = []
text (String.◌∷◌ c s) = code c ∷ text s

-- `s == t`
unfoldable pub same : Text → Text → Bool
same [] [] = true
same [] (d ∷ t) = false
same (c ∷ s) [] = false
same (c ∷ s) (d ∷ t) = c == d && same s t

pub same_refl : (s : Text) → same s s ≡ true
unfolding same
same_refl [] = refl
same_refl (c ∷ s) = ground (arith, same_refl s)

pub same_iff : (s t : Text) → (same s t ≡ true) ↔ (s ≡ t)
unfolding same
same_iff [] [] = (λ _. refl, λ _. refl)
same_iff [] (d ∷ t) = (λ h. cc, λ h. cc)
same_iff (c ∷ s) [] = (λ h. cc, λ h. cc)
same_iff (c ∷ s) (d ∷ t) = ground (arith, same_iff s t)

-- `s == ""`
abbrev pub is_empty : Text → Bool
is_empty [] = true
is_empty (c ∷ s) = false

-- `unicode.IsSpace`
abbrev pub is_space : ℕ → Bool
is_space c =
    (leb 9 c && leb c 13)
    || c == 32
    || c == 0x85
    || c == 0xA0
    || c == 0x1680
    || (leb 0x2000 c && leb c 0x200A)
    || c == 0x2028
    || c == 0x2029
    || c == 0x202F
    || c == 0x205F
    || c == 0x3000

-- `strings.TrimLeft`, by the test of a character
unfoldable pub trim_left : (ℕ → Bool) → Text → Text
trim_left p [] = []
trim_left p (c ∷ s) = if p c then trim_left p s else c ∷ s

-- `strings.TrimRight`: a character stays when it fails the test or one after it does.
unfoldable pub trim_right : (ℕ → Bool) → Text → Text
trim_right p [] = []
trim_right p (c ∷ s) = let rest = trim_right p s in if is_empty rest && p c then [] else c ∷ rest

-- `strings.TrimSpace`
unfoldable pub trim_space : Text → Text
unfolding trim_left trim_right
trim_space s = trim_right is_space (trim_left is_space s)

-- `strings.HasPrefix`
unfoldable pub has_prefix : Text → Text → Bool
has_prefix s [] = true
has_prefix [] (d ∷ t) = false
has_prefix (c ∷ s) (d ∷ t) = c == d && has_prefix s t

-- What follows a prefix, where it stands; `strings.TrimPrefix`, which else returns the text.
strip : Text → Text → Option Text
strip s [] = some s
strip [] (d ∷ t) = none
strip (c ∷ s) (d ∷ t) = if c == d then strip s t else none

unfoldable pub trim_prefix : Text → Text → Text
unfolding strip
trim_prefix s t = elim (strip s t) [ none ↦ s | some rest ↦ rest ]

-- `strings.Contains` of a one-character text
unfoldable pub has_char : Text → ℕ → Bool
has_char [] d = false
has_char (c ∷ s) d = c == d || has_char s d

-- `strings.Cut` at a one-character separator
unfoldable pub cut : Text → ℕ → Option (Text × Text)
cut [] d = none
cut (c ∷ s) d =
    let rest = cut s d in
    if c == d then some ([], s) else elim rest [ none ↦ none | some (a, b) ↦ some (c ∷ a, b) ]

-- `strings.Split` at a one-character separator, which never returns an empty slice
abbrev push_head : ℕ → List Text → List Text
push_head c [] = (c ∷ []) ∷ []
push_head c (w ∷ ws) = (c ∷ w) ∷ ws

unfoldable pub split : Text → ℕ → List Text
split [] d = [] ∷ []
split (c ∷ s) d = let rest = split s d in if c == d then [] ∷ rest else push_head c rest

-- `strings.HasSuffix` of a one-character text
unfoldable pub ends_with : Text → ℕ → Bool
ends_with [] d = false
ends_with (c ∷ s) d = let rest = ends_with s d in if is_empty s then c == d else rest

-- `filepath.Ext`: from the last full stop on, unless a slash follows it
unfoldable pub file_ext : Text → Text
file_ext [] = []
file_ext (c ∷ s) =
    let rest = file_ext s in
    if is_empty rest && c == b'.' && not (has_char s b'/') then c ∷ s else rest

-- `strings.ToLower` on ASCII. Outside ASCII only U+0130 and U+212A have an ASCII letter as their
-- lower case; the other letters beyond ASCII, which Go lowers too, are left alone here.
abbrev pub lower_code : ℕ → ℕ
lower_code c =
    if leb b'A' c && leb c b'Z'
    then c + 32
    else if c == 0x130
    then b'i'
    else if c == 0x212A
    then b'k'
    else c

unfoldable pub to_lower : Text → Text
to_lower [] = []
to_lower (c ∷ s) = lower_code c ∷ to_lower s

-- A text without white space.
unfoldable pub solid : Text → Bool
solid [] = true
solid (c ∷ s) = not (is_space c) && solid s

pub solid-append : (s t : Text) → solid (s ++ t) ≡ (solid s && solid t)
unfolding solid
solid-append [] t = refl
solid-append (c ∷ s) t = ground (arith, solid-append s t)

pub keep_last :
    (p : ℕ → Bool) (c : ℕ) (s rest : Text)
    → p c ≡ false
    → rest ≡ s
    → (if is_empty rest && p c then [] else c ∷ rest) ≡ c ∷ s
keep_last p c [] rest h e = ground arith
keep_last p c (d ∷ s) rest h e = ground arith

pub trim_right_cons :
    (p : ℕ → Bool) (c : ℕ) (s : Text)
    → p c ≡ false
    → trim_right p s ≡ s
    → trim_right p (c ∷ s) ≡ c ∷ s
unfolding trim_right
trim_right_cons p c s h e = keep_last p c s (trim_right p s) h e

pub trim_left_cons : (p : ℕ → Bool) (c : ℕ) (s : Text) → p c ≡ false → trim_left p (c ∷ s) ≡ c ∷ s
unfolding trim_left
trim_left_cons p c s h = rw h refl

not_space : (c : ℕ) (s : Text) → solid (c ∷ s) ≡ true → (is_space c ≡ false) × (solid s ≡ true)
unfolding solid
not_space c s h =
    let (head_solid, rest_solid) = and_split (not (is_space c)) (solid s) h in
    (of_not (is_space c) head_solid, rest_solid)
  where
    of_not : (b : Bool) → not b ≡ true → b ≡ false
    of_not b e = ground arith

trim_right-solid : (s : Text) → solid s ≡ true → trim_right is_space s ≡ s
unfolding trim_right
trim_right-solid [] h = refl
trim_right-solid (c ∷ s) h =
    let (head_solid, rest_solid) = not_space c s h in
    trim_right_cons is_space c s head_solid (trim_right-solid s rest_solid)

pub trim_space-solid : (s : Text) → solid s ≡ true → trim_space s ≡ s
unfolding trim_space trim_left trim_right
trim_space-solid [] h = refl
trim_space-solid (c ∷ s) h =
    ap (trim_right is_space) (trim_left_cons is_space c s ((not_space c s h).0))
    ∙ trim_right-solid (c ∷ s) h

strip-append : (t s : Text) → strip (t ++ s) t ≡ some s
unfolding strip
strip-append [] s = refl
strip-append (d ∷ t) s = ground (arith, strip-append t s)

pub trim_prefix-append : (t s : Text) → trim_prefix (t ++ s) t ≡ s
unfolding trim_prefix
trim_prefix-append t s = rw (trim_prefix, strip-append t s) refl

pub has_prefix-append : (t s : Text) → has_prefix (t ++ s) t ≡ true
unfolding has_prefix
has_prefix-append [] s = refl
has_prefix-append (d ∷ t) s = ground (arith, has_prefix-append t s)

pub has_char-append : (s t : Text) (d : ℕ) → has_char (s ++ t) d ≡ (has_char s d || has_char t d)
unfolding has_char
has_char-append [] t d = refl
has_char-append (c ∷ s) t d = ground (arith, has_char-append s t d)

-- A text is cut at the first separator.
pub cut-append : (s t : Text) (d : ℕ) → has_char s d ≡ false → cut (s ++ (d ∷ t)) d ≡ some (s, t)
unfolding cut has_char
cut-append [] t d h = ground arith
cut-append (c ∷ s) t d h =
    let (other, none_left) = or_neither (c == d) (has_char s d) h in
    rw (other, cut-append s t d none_left) refl

trims : trim_space (text "  a b ") ≡ text "a b"
unfolding trim_space
trims = refl

splits : split (text "a/b//") b'/' ≡ text "a" ∷ text "b" ∷ [] ∷ [] ∷ []
unfolding split
splits = refl

extensions : (file_ext (text "a.b/c.tar.gz") ≡ text ".gz") × (file_ext (text "a.b/c") ≡ [])
unfolding file_ext has_char
extensions = (refl, refl)
