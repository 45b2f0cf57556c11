-- ===== src/S3/Cors.antt =====
-- `GetBucketCors` and `PutBucketCors`.
use ponta_drive_api.Base.{Bool, false, Option, none, some, List, [], if◌then◌else◌, map}
use ponta_drive_api.Base.Int.{pos, ltb_ℤ}
use ponta_drive_api.Base.Text.{Text, text, same}
use ponta_drive_api.Preview.Cors.{CorsRule}
use ponta_drive_api.S3.{Reply, output, failure, SdkCorsRule, Client, succeeded, or_zero}
use ponta_drive_api.S3.Objects.{some_text}

unfoldable pub from_sdk : SdkCorsRule → CorsRule
unfolding or_zero
from_sdk r = record {
  id = or_zero [] r.id;
  allowed_origins = r.allowed_origins;
  allowed_methods = r.allowed_methods;
  allowed_headers = r.allowed_headers;
  expose_headers = r.expose_headers;
  max_age_seconds = or_zero (pos 0) r.max_age_seconds;
}

unfoldable pub to_sdk : CorsRule → SdkCorsRule
unfolding some_text
to_sdk r = record {
  id = some_text r.id;
  allowed_origins = r.allowed_origins;
  allowed_methods = r.allowed_methods;
  allowed_headers = r.allowed_headers;
  expose_headers = r.expose_headers;
  max_age_seconds = if ltb_ℤ (pos 0) r.max_age_seconds then some r.max_age_seconds else none;
}

unfoldable pub no_configuration : Option Text → Bool
no_configuration none = false
no_configuration (some code) = same code (text "NoSuchCORSConfiguration")

-- A missing configuration is no rules.
unfoldable pub rules_of : Reply (List SdkCorsRule) → Option (List CorsRule)
unfolding from_sdk no_configuration
rules_of (output rules) = some (map from_sdk rules)
rules_of (failure e) = if no_configuration e.code then some [] else none

module _ {S : Type 0} (client : Client S) (bucket : Text) where
  -- `GetBucketCors`
  unfoldable pub get_bucket_cors : S → Option (List CorsRule) × S
  unfolding rules_of
  get_bucket_cors s = let (reply, s') = client.get_cors bucket s in (rules_of reply, s')

  -- `PutBucketCors`
  unfoldable pub put_bucket_cors : List CorsRule → S → Bool × S
  unfolding to_sdk succeeded
  put_bucket_cors rules s =
      let (reply, s') = client.put_cors bucket (map to_sdk rules) s in (succeeded reply, s')
