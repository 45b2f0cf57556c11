-- ===== src/Upload/PartLaws.antt =====
-- The recorded parts behave as a map from part numbers to parts.
use ponta_drive_api.Base.{
  ◌≡◌, refl, sym, ap, ◌∙◌, true, false, Option, none, some, List, [], ◌∷◌, arith, if◌then◌else◌,
  Bool-cases, inl, inr,
}
use ponta_drive_api.Base.Int.{ℤ, eqb_ℤ}
use ponta_drive_api.Base.Text.{text, same, same_iff, is_empty}
use ponta_drive_api.Models.{CompletedPart, UploadSession}
use ponta_drive_api.Base.Order.Sort.{All}
use ponta_drive_api.Upload.Parts.{
  Writable, PartsCodec, PartsCodecLaws, get_uploaded_parts, put_part, parts_or_none,
  add_uploaded_part,
}

-- The part that is recorded under a number.
unfoldable pub find_part : ℤ → List CompletedPart → Option CompletedPart
find_part n [] = none
find_part n (p ∷ ps) = if eqb_ℤ p.part_number n then some p else find_part n ps

-- No number is recorded twice.
abbrev pub UniqueParts : List CompletedPart → Type 0
UniqueParts [] = Unit
UniqueParts (p ∷ ps) = (find_part p.part_number ps ≡ none) × UniqueParts ps

pub find_part-put_part :
    (n : ℤ) (new : CompletedPart) (ps : List CompletedPart)
    → find_part n (put_part new ps) ≡ (if eqb_ℤ new.part_number n then some new else find_part n ps)
unfolding find_part put_part
find_part-put_part n new [] = refl
find_part-put_part n new (p ∷ ps) = ground (arith, find_part-put_part n new ps)

find_part_same :
    (m n : ℤ) (ps : List CompletedPart) → eqb_ℤ m n ≡ true → find_part m ps ≡ find_part n ps
find_part_same m n ps h = ap (λ k. find_part k ps) (same_number m n h)
  where
    same_number : (m n : ℤ) → eqb_ℤ m n ≡ true → m ≡ n
    same_number m n h = ground arith

put_part-UniqueParts :
    (new : CompletedPart) (ps : List CompletedPart) → UniqueParts ps → UniqueParts (put_part new ps)
unfolding put_part find_part
put_part-UniqueParts new [] h = (refl, tt)
put_part-UniqueParts new (p ∷ ps) h = elim (Bool-cases (eqb_ℤ p.part_number new.part_number)) [
  | inl same_part ↦
      rw same_part (sym (find_part_same p.part_number new.part_number ps same_part) ∙ h.0, h.1)
  | inr other ↦
      rw other
        (find_part-put_part p.part_number new ps ∙ ground arith, put_part-UniqueParts new ps h.1)
]

-- What a codec that keeps its laws reads back from a session that it has written.
get-written :
    (codec : PartsCodec)
    → PartsCodecLaws codec
    → (u : UploadSession) (parts : List CompletedPart)
    → codec.unmarshal u.uploaded_parts ≡ some parts
    → is_empty u.uploaded_parts ≡ false
    → get_uploaded_parts codec u ≡ some parts
unfolding get_uploaded_parts
get-written codec laws u parts r filled = elim (Bool-cases (same u.uploaded_parts (text "[]"))) [
  | inl bare ↦
      let e : u.uploaded_parts ≡ text "[]" = (same_iff _ _).0 bare in
      rw (filled, bare) (cc (laws.reads_empty, r, e))
  | inr other ↦ rw (filled, other) r
]

put_part-Writable :
    (new : CompletedPart) (ps : List CompletedPart)
    → Writable new
    → All Writable ps
    → All Writable (put_part new ps)
unfolding put_part
put_part-Writable new [] h k = (h, tt)
put_part-Writable new (p ∷ ps) h (first, rest) =
    elim (Bool-cases (eqb_ℤ p.part_number new.part_number)) [
      | inl same_part ↦ rw same_part (h, rest)
      | inr other ↦ rw other (first, put_part-Writable new ps h rest)
    ]

-- Where encoding/json writes a list of parts with ASCII tags and int32 numbers and reads it back as it
-- was written: for such a part and a session that holds only such parts, and no number twice (a record
-- that cannot be read counts as holding nothing), recording the part succeeds, and the session then
-- holds the new part under its number, what it held before under every other number, and no number
-- twice.
pub add_uploaded_part_lem :
    (codec : PartsCodec) (new : CompletedPart) (u : UploadSession)
    → PartsCodecLaws codec
    → UniqueParts (parts_or_none (get_uploaded_parts codec u))
    → All Writable (parts_or_none (get_uploaded_parts codec u))
    → Writable new
    → (u' : UploadSession) × (parts' : List CompletedPart) × (add_uploaded_part codec new u
        ≡ some u')
      × (get_uploaded_parts codec u' ≡ some parts')
      × UniqueParts parts'
      × ((n : ℤ)
          → find_part n parts' ≡ (
              if eqb_ℤ new.part_number n
              then some new
              else find_part n (parts_or_none (get_uploaded_parts codec u))))
unfolding add_uploaded_part
add_uploaded_part_lem codec new u laws unique plain own =
    let parts = parts_or_none (get_uploaded_parts codec u) in
    let (t, written, read, filled) =
      laws.round_trip (put_part new parts) (put_part-Writable new parts own plain) in
    let u' : UploadSession = record u { uploaded_parts = t } in
    (
      u',
      put_part new parts,
      rw written refl,
      get-written codec laws u' (put_part new parts) read filled,
      put_part-UniqueParts new parts unique,
      λ n. find_part-put_part n new parts,
    )
