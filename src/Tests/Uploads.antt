-- ===== src/Tests/Uploads.antt =====
-- Runs of the uploads and of the previews.
use ponta_drive_api.Base.{
  ℕ, suc, ◌*◌, ◌<◌, ◌≤◌, ◌≡◌, ◌⊎◌, ◌↔◌, ◌++◌, refl, true, false, none, some, List, [], ◌∷◌, arith,
  if◌then◌else◌,
}
use ponta_drive_api.Base.Int.{ℤ, pos, eqb_ℤ, ◌≤ℤ◌}
use ponta_drive_api.Base.Text.{text, same, trim_space}
use ponta_drive_api.Models.{CompletedPart, UploadSession}
use ponta_drive_api.Upload.Parts.{is_ascii, get_uploaded_parts, add_uploaded_part, parts_or_none}
use ponta_drive_api.Upload.PartLaws.{find_part, UniqueParts, add_uploaded_part_lem}
use ponta_drive_api.Upload.Chunks.{total_parts, total_parts_covers}
use ponta_drive_api.Preview.{
  fetch_based, direct, proxy, fallback, media, unsupported, decide_preview_strategy,
  max_preview_proxy_bytes,
}
use ponta_drive_api.Preview.Cors.{any_covers, preview_rule, merge_cors_rules, merge_cors_rules_idem}
use ponta_drive_api.Preview.Policy.{decide_preview_strategy_exact}
use ponta_drive_api.Preview.Range.{parse_range_header, InObject, parse_range_header-InObject}
use ponta_drive_api.Tests.Codecs.{small_parts, small_parts-PartsCodecLaws}

abbrev fresh_session : UploadSession
fresh_session = record {
  id = 1;
  session_id = text "s";
  upload_id = text "u";
  user_id = 1;
  cloud_account_id = 1;
  parent_id = none;
  file_name = text "f";
  mime_type = [];
  total_size = pos 9;
  chunk_size = pos 5;
  total_parts = pos 2;
  uploaded_parts = text "[]";
  storage_path = text "k";
  expires_at = none;
}

abbrev second_part : CompletedPart
second_part = record { part_number = pos 2; etag = text "e" }

add_uploaded_part_lem_example :
    (u' : UploadSession) × (parts' : List CompletedPart) × (add_uploaded_part small_parts
        second_part fresh_session
      ≡ some u')
    × (get_uploaded_parts small_parts u' ≡ some parts')
    × UniqueParts parts'
    × ((n : ℤ)
        → find_part n parts' ≡ (
            if eqb_ℤ (pos 2) n
            then some second_part
            else find_part n (parts_or_none (get_uploaded_parts small_parts fresh_session))))
unfolding get_uploaded_parts same is_ascii
add_uploaded_part_lem_example =
    add_uploaded_part_lem small_parts second_part fresh_session small_parts-PartsCodecLaws tt tt
      (refl, ground arith)

total_parts_covers_example :
    (n : ℕ) × (total_parts (pos 11) (pos 5) ≡ pos (suc n)) × (n * 5 < 11) × (11 ≤ suc n * 5)
total_parts_covers_example =
    total_parts_covers 11 5 (omega arith) (omega arith) (omega arith) (omega arith)

parse_range_header-InObject_example :
    InObject (pos 10) (parse_range_header (text "bytes=2-99") (pos 10))
unfolding trim_space
parse_range_header-InObject_example = parse_range_header-InObject (text "bytes=2-99") (pos 10) refl

merge_cors_rules_idem_example :
    let (merged, changed) = merge_cors_rules [] (text "https://a") in
    (any_covers (text "https://a") merged ≡ true)
    × (merge_cors_rules merged (text "https://a") ≡ (merged, false))
    × (merged ≡ [] ++ (if changed then preview_rule (text "https://a") ∷ [] else []))
merge_cors_rules_idem_example = merge_cors_rules_idem [] (text "https://a")

decide_preview_strategy_exact_example :
    let (strategy, _) = decide_preview_strategy fetch_based (pos 100) false in
    ((strategy ≡ proxy) ↔ ((fetch_based ≡ fetch_based) × (pos 100 ≤ℤ max_preview_proxy_bytes)))
    × ((strategy ≡ direct) ↔ (
        (fetch_based ≡ media)
        ⊎ ((fetch_based ≡ fetch_based) × ¬ (pos 100 ≤ℤ max_preview_proxy_bytes) × (false ≡ true))))
    × ((strategy ≡ fallback) ↔ (
        (fetch_based ≡ unsupported)
        ⊎ ((fetch_based ≡ fetch_based)
            × ¬ (pos 100 ≤ℤ max_preview_proxy_bytes)
            × ¬ (false ≡ true))))
decide_preview_strategy_exact_example = decide_preview_strategy_exact fetch_based (pos 100) false
