-- ===== src/S3/RoundTrips.antt =====
-- What the driver of app/services/storage/s3_driver.go writes to S3 and reads back: the CORS rules
-- of `PutBucketCors` and `GetBucketCors`, and the ETags of `UploadPart` and `CompleteMultipart`.
use ponta_drive_api.Base.{
  ◌≡◌, refl, ap, ◌∙◌, false, none, some, List, [], ◌∷◌, ◌++◌, map, arith, if◌then◌else◌, ◌==◌,
  or_neither,
}
use ponta_drive_api.Base.Text.{
  Text, is_empty, has_char, trim_left, trim_right, trim_left_cons, trim_right_cons, keep_last,
  has_prefix,
}
use ponta_drive_api.Preview.Cors.{CorsRule}
use ponta_drive_api.Base.{true}
use ponta_drive_api.Base.Int.{ℤ, pos, ltb_ℤ, ◌≤ℤ◌}
use ponta_drive_api.Base.Order.Sort.{All}
use ponta_drive_api.S3.{
  Reply, failure, succeeded, SdkCorsRule, output, Client, or_zero, trim_quotes, is_quote,
}
use ponta_drive_api.S3.Objects.{some_text}
use ponta_drive_api.S3.Cors.{from_sdk, to_sdk, rules_of, get_bucket_cors, put_bucket_cors}
use ponta_drive_api.S3.Multipart.{quoted}

or_zero-some_text : (t : Text) → or_zero [] (some_text t) ≡ t
unfolding or_zero some_text
or_zero-some_text [] = refl
or_zero-some_text (c ∷ t) = refl

or_zero-max_age :
    (z : ℤ) → pos 0 ≤ℤ z → or_zero (pos 0) (if ltb_ℤ (pos 0) z then some z else none) ≡ z
unfolding or_zero
or_zero-max_age z h = ground arith

from_sdk-to_sdk : (r : CorsRule) → pos 0 ≤ℤ r.max_age_seconds → from_sdk (to_sdk r) ≡ r
unfolding from_sdk to_sdk
from_sdk-to_sdk r h = rw (or_zero-some_text r.id, or_zero-max_age r.max_age_seconds h) refl

map_back :
    (rules : List CorsRule)
    → All (λ r. pos 0 ≤ℤ r.max_age_seconds) rules
    → map from_sdk (map to_sdk rules) ≡ rules
map_back [] h = refl
map_back (r ∷ rules) h = rw (from_sdk-to_sdk r h.0, map_back rules h.1) refl

accepted_put :
    {S : Type 0} (client : Client S) (bucket : Text) (rules : List CorsRule) (s s' : S)
    → put_bucket_cors client bucket rules s ≡ (true, s')
    → (client.put_cors bucket (map to_sdk rules) s) ≡ (output tt, s')
unfolding put_bucket_cors succeeded
accepted_put {S} client bucket rules s s' h =
    by_reply (client.put_cors bucket (map to_sdk rules) s) (ap (λ r. r.0) h) (ap (λ r. r.1) h)
  where
    by_reply : (r : Reply (Unit {0}) × S) → succeeded r.0 ≡ true → r.1 ≡ s' → r ≡ (output tt, s')
    by_reply (output tt, s) fine e = ap (λ x. (output tt, x)) e
    by_reply (failure k, s) fine e = absurd cc

-- Where S3 answers a request for the CORS rules of the bucket with those of the last update that it
-- has accepted: after a PutBucketCors that has succeeded, with rules none of which has a negative
-- MaxAgeSeconds, `GetBucketCors` returns the rules that it was given, one by one.
pub get_bucket_cors-put_bucket_cors :
    {S : Type 0} (client : Client S) (bucket : Text)
    → ((rules : List SdkCorsRule) (s s' : S)
        → client.put_cors bucket rules s ≡ (output tt, s')
        → (client.get_cors bucket s').0 ≡ output rules)
    → (rules : List CorsRule) (s s' : S) → All (λ r. pos 0 ≤ℤ r.max_age_seconds) rules
    → put_bucket_cors client bucket rules s ≡ (true, s')
    → (get_bucket_cors client bucket s').0 ≡ some rules
unfolding get_bucket_cors rules_of
get_bucket_cors-put_bucket_cors client bucket keeps rules s s' ages put =
    rw (keeps (map to_sdk rules) s s' (accepted_put client bucket rules s s' put))
      (ap some (map_back rules ages))

-- The closing quote is cut off, and nothing else.
trim_closing : (e : Text) → has_char e 34 ≡ false → trim_right is_quote (e ++ (34 ∷ [])) ≡ e
unfolding trim_right has_char
trim_closing [] h = refl
trim_closing (c ∷ e) h =
    let (other, none_left) = or_neither (c == 34) (has_char e 34) h in
    keep_last is_quote c e (trim_right is_quote (e ++ (34 ∷ []))) other (trim_closing e none_left)

trim_unquoted : (e : Text) → has_char e 34 ≡ false → trim_right is_quote e ≡ e
unfolding trim_right has_char
trim_unquoted [] h = refl
trim_unquoted (c ∷ e) h =
    let (other, none_left) = or_neither (c == 34) (has_char e 34) h in
    trim_right_cons is_quote c e other (trim_unquoted e none_left)

trim_opening :
    (e rest : Text)
    → has_char e 34 ≡ false
    → trim_left is_quote rest ≡ []
    → trim_left is_quote (e ++ rest) ≡ (if is_empty e then [] else e ++ rest)
unfolding has_char
trim_opening [] rest h k = k
trim_opening (c ∷ e) rest h k =
    trim_left_cons is_quote c (e ++ rest) ((or_neither (c == 34) (has_char e 34) h).0)

trim_quotes-quotes : (e : Text) → has_char e 34 ≡ false → trim_quotes (34 ∷ (e ++ (34 ∷ []))) ≡ e
unfolding trim_quotes trim_left trim_right
trim_quotes-quotes [] h = refl
trim_quotes-quotes (c ∷ e) h = rw (trim_opening (c ∷ e) (34 ∷ []) h refl) (trim_closing (c ∷ e) h)

trim_quotes-unquoted : (e : Text) → has_char e 34 ≡ false → trim_quotes e ≡ e
unfolding trim_quotes trim_left trim_right has_char
trim_quotes-unquoted [] h = refl
trim_quotes-unquoted (c ∷ e) h =
    ap (trim_right is_quote)
      (trim_left_cons is_quote c e ((or_neither (c == 34) (has_char e 34) h).0))
    ∙ trim_unquoted (c ∷ e) h

quoted_plain : (e : Text) → has_char e 34 ≡ false → quoted e ≡ 34 ∷ (e ++ (34 ∷ []))
unfolding quoted has_char has_prefix
quoted_plain [] h = refl
quoted_plain (c ∷ e) h = rw ((or_neither (c == 34) (has_char e 34) h).0) refl

-- The tag that `CompleteMultipart` sends is the quoted one that S3 gave to `UploadPart`, for every
-- tag without a quote in it, also where S3 gave it without the quotes.
pub quoted-trim_quotes :
    (etag : Text)
    → has_char etag 34 ≡ false
    → (quoted (trim_quotes (34 ∷ (etag ++ (34 ∷ [])))) ≡ 34 ∷ (etag ++ (34 ∷ [])))
      × (quoted (trim_quotes etag) ≡ 34 ∷ (etag ++ (34 ∷ [])))
quoted-trim_quotes etag h = (
  ap quoted (trim_quotes-quotes etag h) ∙ quoted_plain etag h,
  ap quoted (trim_quotes-unquoted etag h) ∙ quoted_plain etag h,
)
