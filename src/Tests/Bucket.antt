-- ===== src/Tests/Bucket.antt =====
-- A bucket that knows which keys were deleted and which CORS rules were put, for the driver of
-- app/services/storage/s3_driver.go.
use ponta_drive_api.Base.{
  ◌≡◌, refl, Bool, true, false, not, ◌&&◌, ◌||◌, none, some, List, [], ◌∷◌, ◌++◌, select, arith,
}
use ponta_drive_api.Base.Int.{pos}
use ponta_drive_api.Base.Text.{Text, text, has_char}
use ponta_drive_api.Preview.Cors.{CorsRule}
use ponta_drive_api.Preview.Range.{span, parse_range_header}
use ponta_drive_api.S3.{Reply, output, failure, SdkCorsRule, Client, trim_quotes}
use ponta_drive_api.S3.Objects.{range_header}
use ponta_drive_api.S3.Deletes.{has_text, delete_objects}
use ponta_drive_api.Base.{ap, sym}
use ponta_drive_api.Base.Int.{pos}
use ponta_drive_api.S3.{succeeded}
use ponta_drive_api.S3.Cors.{to_sdk, get_bucket_cors, put_bucket_cors}
use ponta_drive_api.S3.Multipart.{quoted}
use ponta_drive_api.S3.Batches.{among, among-append, removed, delete_objects-removes}
use ponta_drive_api.S3.Ranges.{parse_range_header-range_header}
use ponta_drive_api.S3.RoundTrips.{get_bucket_cors-put_bucket_cors, quoted-trim_quotes}

record Bucket : Type 0 where
  gone : List Text
  rules : List SdkCorsRule

abbrev missing : {A : Type 0} → Reply A
missing = failure (record { not_found = true; no_such_key = false; code = none })

abbrev bucket_client : Client Bucket
bucket_client = record {
  put_object = λ i s. (output tt, s);
  get_object = λ i s. (missing, s);
  head_object = λ b k s. (missing, s);
  delete_object = λ b k s. (output tt, record s { gone = k ∷ s.gone });
  delete_objects = λ b keys s. (output 0, record s { gone = keys ++ s.gone });
  list_objects = λ i s. (missing, s);
  create_multipart = λ b k m s. (output (some (text "up")), s);
  upload_part = λ i s. (output (some (text "tag")), s);
  complete_multipart = λ b k u parts s. (output tt, s);
  abort_multipart = λ b k u s. (output tt, s);
  get_cors = λ b s. (output s.rules, s);
  put_cors = λ b rules s. (output tt, record s { rules = rules });
  presign_put = λ i n s. (missing, s);
  presign_get = λ i n s. (missing, s);
  now = λ s. 0;
}

abbrev stored : Bucket → Text → Bool
stored s key = not (among key s.gone)

gone_twice : (b c d : Bool) → b ≡ (c || d) → not b ≡ (not d && not c)
gone_twice b c d h = ground arith

abbrev fresh : Bucket
fresh = record { gone = []; rules = [] }

delete_objects-removes_example :
    ((delete_objects bucket_client [] (text "a" ∷ text " " ∷ text "b" ∷ []) fresh).0 ≡ true)
    × ((key : Text)
        → stored
            ((delete_objects bucket_client [] (text "a" ∷ text " " ∷ text "b" ∷ []) fresh).1)
            key
          ≡ removed (stored fresh) (select has_text (text "a" ∷ text " " ∷ text "b" ∷ [])) key)
delete_objects-removes_example =
    delete_objects-removes bucket_client [] stored (λ keys s h k. refl)
      (λ keys s h k key.
        gone_twice (among key (keys ++ s.gone)) (among key keys) (among key s.gone)
          (among-append key keys s.gone))
      (text "a" ∷ text " " ∷ text "b" ∷ []) fresh

parse_range_header-range_header_example :
    parse_range_header (range_header (pos 100) (pos 50)) (pos 1000) ≡ span (pos 100) (pos 50)
parse_range_header-range_header_example =
    parse_range_header-range_header 100 49 1000 (omega arith) (omega arith)

abbrev some_rule : CorsRule
some_rule = record {
  id = [];
  allowed_origins = text "*" ∷ [];
  allowed_methods = text "GET" ∷ [];
  allowed_headers = [];
  expose_headers = [];
  max_age_seconds = pos 600;
}

abbrev ruled : Bucket
ruled = record { gone = []; rules = to_sdk some_rule ∷ [] }

puts_rule : put_bucket_cors bucket_client [] (some_rule ∷ []) fresh ≡ (true, ruled)
unfolding put_bucket_cors succeeded
puts_rule = refl

get_bucket_cors-put_bucket_cors_example :
    (get_bucket_cors bucket_client [] ruled).0 ≡ some (some_rule ∷ [])
get_bucket_cors-put_bucket_cors_example =
    get_bucket_cors-put_bucket_cors bucket_client []
      (λ rules s s' e. ap (λ r. output r.1.rules) (sym e)) (some_rule ∷ []) fresh ruled
      (ground arith, tt) puts_rule

no_quote : has_char (text "9f") 34 ≡ false
unfolding has_char
no_quote = refl

quoted-trim_quotes_example :
    (quoted (trim_quotes (34 ∷ (text "9f" ++ (34 ∷ [])))) ≡ 34 ∷ (text "9f" ++ (34 ∷ [])))
    × (quoted (trim_quotes (text "9f")) ≡ 34 ∷ (text "9f" ++ (34 ∷ [])))
quoted-trim_quotes_example = quoted-trim_quotes (text "9f") no_quote
