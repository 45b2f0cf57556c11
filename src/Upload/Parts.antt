-- ===== src/Upload/Parts.antt =====
-- `GetUploadedParts`, `SetUploadedParts` and `AddUploadedPart` of app/models/upload_session.go.
use ponta_drive_api.Base.Decimal.{Fits}
use ponta_drive_api.Base.Order.Sort.{All}
use ponta_drive_api.Base.{
  Bool, true, ltb, ◌&&◌, ◌^◌, false, ◌||◌, ◌≡◌, Option, none, some, List, [], ◌∷◌, if◌then◌else◌,
}
use ponta_drive_api.Base.Int.{eqb_ℤ}
use ponta_drive_api.Base.Text.{Text, text, same, is_empty}
use ponta_drive_api.Models.{CompletedPart, UploadSession}

-- encoding/json on a slice of parts; `none` is an error.
pub record PartsCodec : Type 0 where
  pub marshal : List CompletedPart → Option Text
  pub unmarshal : Text → Option (List CompletedPart)

-- Every byte is ASCII: such a text is read back as it was written, while of others encoding/json
-- replaces what is not UTF-8.
unfoldable pub is_ascii : Text → Bool
is_ascii [] = true
is_ascii (c ∷ t) = ltb c 128 && is_ascii t

-- A tag in ASCII and a number that is an int32.
abbrev pub Writable : CompletedPart → Type 0
Writable p = (is_ascii p.etag ≡ true) × Fits (2 ^ 31) p.part_number

-- A slice of such parts is written, and read back as it was written; the empty array reads as no
-- parts.
pub record PartsCodecLaws (codec : PartsCodec) : Type 0 where
  pub round_trip :
      (parts : List CompletedPart)
      → All Writable parts
      → (t : Text) × (codec.marshal parts ≡ some t)
        × (codec.unmarshal t ≡ some parts)
        × (is_empty t ≡ false)
  pub reads_empty : codec.unmarshal (text "[]") ≡ some []

-- The loop that replaces the entry of the same number, and the append where there is none.
unfoldable pub put_part : CompletedPart → List CompletedPart → List CompletedPart
put_part new [] = new ∷ []
put_part new (p ∷ ps) =
    if eqb_ℤ p.part_number new.part_number then new ∷ ps else p ∷ put_part new ps

-- An unreadable record counts as no parts.
abbrev pub parts_or_none : Option (List CompletedPart) → List CompletedPart
parts_or_none none = []
parts_or_none (some parts) = parts

module _ (codec : PartsCodec) where
  unfoldable pub get_uploaded_parts : UploadSession → Option (List CompletedPart)
  get_uploaded_parts u =
      if is_empty u.uploaded_parts || same u.uploaded_parts (text "[]")
      then some []
      else codec.unmarshal u.uploaded_parts

  abbrev with_parts : UploadSession → Option Text → Option UploadSession
  with_parts u none = none
  with_parts u (some t) = some (record u { uploaded_parts = t })

  unfoldable pub set_uploaded_parts : List CompletedPart → UploadSession → Option UploadSession
  set_uploaded_parts parts u = with_parts u (codec.marshal parts)

  unfoldable pub add_uploaded_part : CompletedPart → UploadSession → Option UploadSession
  unfolding set_uploaded_parts
  add_uploaded_part new u =
      set_uploaded_parts (put_part new (parts_or_none (get_uploaded_parts u))) u
