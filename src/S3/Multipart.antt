-- ===== src/S3/Multipart.antt =====
-- `InitiateMultipart`, `UploadPart`, `CompleteMultipart` and `AbortMultipart`.
use ponta_drive_api.Base.{Bool, Option, none, some, List, [], ◌∷◌, ◌++◌, map, if◌then◌else◌}
use ponta_drive_api.Base.Int.{ℤ}
use ponta_drive_api.Base.Text.{Text, has_prefix}
use ponta_drive_api.Models.{CompletedPart}
use ponta_drive_api.S3.{Reply, output, failure, Client, succeeded, trim_quotes}
use ponta_drive_api.S3.Objects.{some_text}

-- An etag between quotes, as S3 wants it.
unfoldable pub quoted : Text → Text
quoted etag = if has_prefix etag (34 ∷ []) then etag else 34 ∷ (etag ++ 34 ∷ [])

unfoldable pub quoted_part : CompletedPart → CompletedPart
unfolding quoted
quoted_part p = record p { etag = quoted p.etag }

-- A missing upload id, or a missing etag, is an error.
unfoldable pub upload_id_of : Reply (Option Text) → Option Text
upload_id_of (output upload_id) = upload_id
upload_id_of (failure e) = none

unfoldable pub etag_of : Reply (Option Text) → Option Text
unfolding trim_quotes
etag_of (output none) = none
etag_of (output (some etag)) = some (trim_quotes etag)
etag_of (failure e) = none

module _ {S : Type 0} (client : Client S) (bucket : Text) where
  -- `InitiateMultipart`
  unfoldable pub initiate_multipart : Text → Text → S → Option Text × S
  unfolding some_text upload_id_of
  initiate_multipart key mime_type s =
      let (reply, s') = client.create_multipart bucket key (some_text mime_type) s in
      (upload_id_of reply, s')

  -- `UploadPart`
  unfoldable pub upload_part : Text → Text → ℤ → Text → ℤ → S → Option Text × S
  unfolding etag_of
  upload_part key upload_id part_number body size s =
      let (reply, s') =
        client.upload_part
          (record {
            bucket = bucket;
            key = key;
            upload_id = upload_id;
            part_number = part_number;
            body = body;
            content_length = size;
          })
          s in
      (etag_of reply, s')

  -- `CompleteMultipart`
  unfoldable pub complete_multipart : Text → Text → List CompletedPart → S → Bool × S
  unfolding quoted_part succeeded
  complete_multipart key upload_id parts s =
      let (reply, s') = client.complete_multipart bucket key upload_id (map quoted_part parts) s in
      (succeeded reply, s')

  -- `AbortMultipart`
  unfoldable pub abort_multipart : Text → Text → S → Bool × S
  unfolding succeeded
  abort_multipart key upload_id s =
      let (reply, s') = client.abort_multipart bucket key upload_id s in (succeeded reply, s')
