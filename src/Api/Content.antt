-- ===== src/Api/Content.antt =====
-- `Content` of app/http/controllers/drive_item_controller.go: the bytes of an item for its preview,
-- whole or in part.
use ponta_drive_api.Base.{◌≡◌, ℕ, false, not, none, some, ◌++◌, if◌then◌else◌, arith}
use ponta_drive_api.Base.Int.{ℤ, pos, ltb_ℤ, leb_ℤ, ◌+₆₄◌, ◌-₆₄◌, ◌≤ℤ◌}
use ponta_drive_api.Base.Text.{Text, text, is_empty}
use ponta_drive_api.Base.Decimal.{format_int}
use ponta_drive_api.Models.{DriveItem, is_folder}
use ponta_drive_api.Preview.{max_preview_proxy_bytes}
use ponta_drive_api.Preview.Range.{RangeResult, span, bad_range, parse_range_header, InObject}
use ponta_drive_api.Service.{Outcome, ok, err, State}
use ponta_drive_api.Service.Items.{get_item_by_uuid}
use ponta_drive_api.Service.Downloads.{get_item_range, get_item_stream}
use ponta_drive_api.Web.{Response, payload, failed, Step, go, stop}
use ponta_drive_api.Auth.{User}
use ponta_drive_api.Api.{ApiWorld, Caller}
use ponta_drive_api.Api.Items.{
  StreamHeaders, ItemData, stream, mime_or_default, length_header, resolve_user,
}

-- `bytes first-last/total`
unfoldable pub content_range : ℤ → ℤ → ℤ → Text
content_range offset length total =
    text "bytes "
    ++ format_int offset
    ++ text "-"
    ++ format_int (offset +₆₄ length -₆₄ pos 1)
    ++ text "/"
    ++ format_int total

-- The total that the driver reports, or the size of the row.
unfoldable pub total_or_size : ℤ → ℤ → ℤ
total_or_size total size = if leb_ℤ total (pos 0) then size else total

unfoldable pub partial_headers : DriveItem → ℤ → ℤ → ℤ → StreamHeaders
unfolding mime_or_default content_range total_or_size
partial_headers item offset length total = record {
  content_type = mime_or_default item.mime_type;
  content_disposition = text "inline";
  content_length = some (format_int length);
  content_range = some (content_range offset length (total_or_size total item.size));
}

unfoldable pub inline_headers : DriveItem → StreamHeaders
unfolding mime_or_default length_header
inline_headers item = record {
  content_type = mime_or_default item.mime_type;
  content_disposition = text "inline";
  content_length = length_header item.size;
  content_range = none;
}

abbrev pub Answer : Type 0 → Type 0
Answer S = Response ItemData × State S

abbrev preview_failed : Response ItemData
preview_failed = failed 400 (text "drive.preview_failed")

module _ {S : Type 0} (w : ApiWorld S) where
  -- The answers to what the service returns.
  unfoldable pub partial_answer : DriveItem → ℤ → ℤ → Outcome (Text × ℤ) × State S → Answer S
  unfolding partial_headers
  partial_answer item offset length (err e, s) = (preview_failed, s)
  partial_answer item offset length (ok (body, total), s) =
      (payload 206 (stream (partial_headers item offset length total) body), s)

  unfoldable pub whole_answer : Outcome (Text × DriveItem) × State S → Answer S
  unfolding inline_headers
  whole_answer (err e, s) = (preview_failed, s)
  whole_answer (ok (body, item), s) = (payload 200 (stream (inline_headers item) body), s)

  -- From the span that the Range header asks for.
  unfoldable pub ranged_answer : ℕ → Text → DriveItem → RangeResult → State S → Answer S
  unfolding partial_answer
  ranged_answer user_id item_uuid item (bad_range e) s =
      (failed 416 (text "drive.preview_failed"), s)
  ranged_answer user_id item_uuid item (span offset length) s =
      partial_answer item offset length (get_item_range w.outside user_id item_uuid offset length s)

  -- From the item on; the text is the Range header, which is empty where there is none.
  unfoldable pub content_of : ℕ → Text → Text → Outcome DriveItem × State S → Answer S
  unfolding ranged_answer whole_answer
  content_of user_id item_uuid range (err e, s) = (failed 404 (text "drive.item_not_found"), s)
  content_of user_id item_uuid range (ok item, s) =
      if is_folder item
      then (preview_failed, s)
      else if ltb_ℤ max_preview_proxy_bytes item.size
      then (failed 413 (text "drive.preview_too_large"), s)
      else if not (is_empty range)
      then ranged_answer user_id item_uuid item (parse_range_header range item.size) s
      else whole_answer (get_item_stream w.outside user_id item_uuid s)

  abbrev content_for : Text → Text → Step ItemData User × State S → Answer S
  content_for item_uuid range (stop r, s) = (r, s)
  content_for item_uuid range (go user, s) =
      content_of user.id item_uuid range (get_item_by_uuid w.outside user.id item_uuid s)

  -- `Content`
  unfoldable pub content : Caller → Text → Text → State S → Answer S
  unfolding resolve_user content_of
  content caller item_uuid range s = content_for item_uuid range (resolve_user w caller item_uuid s)

  -- The headers of a span that lies in a file within the size cap.
  abbrev pub Bounded : DriveItem → StreamHeaders → Type 0
  Bounded item h =
      (offset : ℤ) × (length : ℤ) × (total : ℤ) × (h ≡ partial_headers item offset length total)
      × (is_folder item ≡ false)
      × (item.size ≤ℤ max_preview_proxy_bytes)
      × InObject item.size (span offset length)

  whole_not_partial :
      (out : Outcome (Text × DriveItem) × State S) (h : StreamHeaders) (body : Text)
      → (whole_answer out).0 ≡ payload 206 (stream h body)
      → ⊥
  unfolding whole_answer
  whole_not_partial (err e, s) h body k = absurd cc
  whole_not_partial (ok (bytes, item), s) h body k = absurd (ground arith)
