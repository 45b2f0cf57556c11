-- ===== src/S3/Objects.antt =====
-- Objects: `Put`, `Get`, `GetRange`, `Exists`, `GetMetadata`, `ListObjects`, and the presigned URLs.
use ponta_drive_api.Base.{
  ℕ, ◌+◌, Bool, true, false, ◌||◌, Option, none, some, List, [], ◌∷◌, ◌++◌, ltb, if◌then◌else◌,
}
use ponta_drive_api.Base.Int.{ℤ, pos, ltb_ℤ, eqb_ℤ, ◌+₆₄◌, ◌-₆₄◌}
use ponta_drive_api.Base.Text.{Text, text, same, is_empty, trim_space, cut}
use ponta_drive_api.Base.Decimal.{format_int, parse_int, half_64}
use ponta_drive_api.Models.{ObjectMetadata, ListObjectsResult}
use ponta_drive_api.Service.{PresignedUrl}
use ponta_drive_api.S3.{
  SdkError, Reply, output, failure, GetObjectOutput, HeadObjectOutput, SignedRequest, ListedObject,
  ListOutput, Client, succeeded, or_zero, trim_quotes,
}

-- `if s != "" { p = aws.String(s) }`
unfoldable pub some_text : Text → Option Text
some_text t = if is_empty t then none else some t

-- The Range header of `GetRange`.
unfoldable pub range_header : ℤ → ℤ → Text
range_header offset length =
    if ltb_ℤ length (pos 0)
    then text "bytes=" ++ format_int offset ++ text "-"
    else text "bytes=" ++ format_int offset ++ text "-" ++ format_int (offset +₆₄ length -₆₄ pos 1)

-- The number behind the slash of a Content-Range header; 0 where there is none.
abbrev int_or_zero : Option ℤ → ℤ
int_or_zero none = pos 0
int_or_zero (some n) = n

abbrev behind_slash : Option (Text × Text) → ℤ
behind_slash none = pos 0
behind_slash (some (before, after)) = int_or_zero (parse_int half_64 (trim_space after))

unfoldable pub announced_total : Option Text → ℤ
announced_total none = pos 0
announced_total (some header) = behind_slash (cut header b'/')

unfoldable pub total_of : GetObjectOutput → ℤ
unfolding announced_total or_zero
total_of out =
    let announced = announced_total out.content_range in
    if eqb_ℤ announced (pos 0) then or_zero (pos 0) out.content_length else announced

unfoldable pub missing_code : Option Text → Bool
missing_code none = false
missing_code (some code) =
    same code (text "NotFound") || same code (text "NoSuchKey") || same code (text "404")

-- The errors that mean that there is no object.
unfoldable pub is_missing : SdkError → Bool
unfolding missing_code
is_missing e = e.not_found || e.no_such_key || missing_code e.code

-- `none` is an error.
unfoldable pub existence : Reply HeadObjectOutput → Option Bool
unfolding is_missing
existence (output out) = some true
existence (failure e) = if is_missing e then some false else none

unfoldable pub metadata_of : Text → HeadObjectOutput → ObjectMetadata
unfolding or_zero trim_quotes
metadata_of key out = record {
  key = key;
  size = or_zero (pos 0) out.content_length;
  mime_type = or_zero [] out.content_type;
  etag = trim_quotes (or_zero [] out.etag);
  last_modified = out.last_modified;
}

unfoldable pub listed_metadata : ListedObject → ObjectMetadata
unfolding or_zero trim_quotes
listed_metadata item = record {
  key = or_zero [] item.key;
  size = or_zero (pos 0) item.size;
  mime_type = [];
  etag = trim_quotes (or_zero [] item.etag);
  last_modified = item.last_modified;
}

unfoldable pub listed : List ListedObject → List ObjectMetadata
listed [] = []
listed (item ∷ items) = listed_metadata item ∷ listed items

unfoldable pub prefixes : List (Option Text) → List Text
prefixes [] = []
prefixes (none ∷ rest) = prefixes rest
prefixes (some p ∷ rest) = p ∷ prefixes rest

unfoldable pub list_result : ListOutput → ListObjectsResult
unfolding listed prefixes or_zero
list_result out = record {
  objects = listed out.contents;
  common_prefixes = prefixes out.common_prefixes;
  next_continuation = or_zero [] out.next_continuation_token;
  is_truncated = or_zero false out.is_truncated;
}

-- `strings.Join(v, ", ")`
unfoldable pub join : List Text → Text
join [] = []
join (v ∷ []) = v
join (v ∷ w ∷ vs) = v ++ text ", " ++ join (w ∷ vs)

-- The headers that have a value.
unfoldable pub joined_headers : List (Text × List Text) → List (Text × Text)
unfolding join
joined_headers [] = []
joined_headers ((k, []) ∷ rest) = joined_headers rest
joined_headers ((k, v ∷ vs) ∷ rest) = (k, join (v ∷ vs)) ∷ joined_headers rest

unfoldable pub presigned : ℕ → SignedRequest → PresignedUrl
unfolding joined_headers
presigned expires req = record {
  url = req.url;
  method = req.method;
  headers = joined_headers req.signed_header;
  expires = expires;
}

-- A result with a function applied to it.
abbrev pub on_result : {S A B : Type 0} → (A → B) → Reply A × S → Option B × S
on_result f (output a, s) = (some (f a), s)
on_result f (failure e, s) = (none, s)

module _ {S : Type 0} (client : Client S) (bucket : Text) where
  -- `Put`
  unfoldable pub put : Text → Text → ℤ → Text → S → Bool × S
  unfolding some_text succeeded
  put key body size mime_type s =
      let (reply, s') =
        client.put_object
          (record {
            bucket = bucket;
            key = key;
            body = body;
            content_length = if ltb_ℤ (pos 0) size then some size else none;
            content_type = some_text mime_type;
          })
          s in
      (succeeded reply, s')

  -- `Get`
  unfoldable pub get : Text → S → Option Text × S
  get key s =
      on_result (λ (out : GetObjectOutput). out.body)
        (client.get_object
          (record { bucket = bucket; key = key; range = none; response_content_disposition = none })
          s)

  -- `GetRange`
  unfoldable pub get_range : Text → ℤ → ℤ → S → Option (Text × ℤ) × S
  unfolding range_header total_of
  get_range key offset length s =
      on_result (λ (out : GetObjectOutput). (out.body, total_of out))
        (client.get_object
          (record {
            bucket = bucket;
            key = key;
            range = some (range_header offset length);
            response_content_disposition = none;
          })
          s)

  -- `Exists`
  unfoldable pub exists : Text → S → Option Bool × S
  unfolding existence
  exists key s = let (reply, s') = client.head_object bucket key s in (existence reply, s')

  -- `GetMetadata`
  unfoldable pub get_metadata : Text → S → Option ObjectMetadata × S
  unfolding metadata_of
  get_metadata key s = on_result (metadata_of key) (client.head_object bucket key s)

  -- `GetPresignedUploadURL`
  unfoldable pub presign_upload : Text → Text → ℕ → S → Option PresignedUrl × S
  unfolding some_text presigned
  presign_upload key mime_type expire s = on_result (presigned (client.now s + expire)) (
      client.presign_put
        (record {
          bucket = bucket;
          key = key;
          body = [];
          content_length = none;
          content_type = some_text mime_type;
        })
        expire s)

  -- `attachment; filename="%s"`
  unfoldable pub disposition : Text → Option Text
  disposition file_name =
      if is_empty (trim_space file_name)
      then none
      else some (text "attachment; filename=" ++ 34 ∷ (file_name ++ 34 ∷ []))

  -- `GetPresignedDownloadURL`
  unfoldable pub presign_download : Text → Text → ℕ → S → Option Text × S
  unfolding disposition
  presign_download key file_name expire s =
      on_result (λ (req : SignedRequest). req.url)
        (client.presign_get
          (record {
            bucket = bucket;
            key = key;
            range = none;
            response_content_disposition = disposition file_name;
          })
          expire s)

  -- `ListObjects`
  unfoldable pub list_objects : Text → Text → ℕ → S → Option ListObjectsResult × S
  unfolding some_text list_result
  list_objects prefix continuation_token max_keys s = on_result list_result (
      client.list_objects
        (record {
          bucket = bucket;
          prefix = some_text prefix;
          continuation_token = some_text continuation_token;
          max_keys = if ltb 0 max_keys then some max_keys else none;
        })
        s)
