-- ===== src/S3.antt =====
-- The S3 driver, app/services/storage/s3_driver.go, over the calls of the AWS SDK.
--
-- `S` is the state of the storage. A call of the SDK takes its input and answers with an output or
-- an error; a pointer that may be nil is an `Option`. Nothing is assumed of the calls here.
pub mod Objects
pub mod Deletes
pub mod Cors
pub mod Multipart
pub mod Create
pub mod Batches
pub mod Ranges
pub mod RoundTrips
use ponta_drive_api.Base.{ℕ, Bool, Option, List, ◌==◌}
use ponta_drive_api.Base.Int.{ℤ}
use ponta_drive_api.Base.Text.{Text, trim_left, trim_right}
use ponta_drive_api.Models.{CompletedPart}

-- What `errors.As` finds of an error: whether it is a NotFound or a NoSuchKey, and the code of an
-- API error.
pub record SdkError : Type 0 where
  pub not_found : Bool
  pub no_such_key : Bool
  pub code : Option Text

pub data Reply (A : Type 0) : Type 0 where
  output : A → Reply A
  failure : SdkError → Reply A

pub record PutObjectInput : Type 0 where
  pub bucket : Text
  pub key : Text
  pub body : Text
  pub content_length : Option ℤ
  pub content_type : Option Text

pub record GetObjectInput : Type 0 where
  pub bucket : Text
  pub key : Text
  pub range : Option Text
  pub response_content_disposition : Option Text

pub record GetObjectOutput : Type 0 where
  pub body : Text
  pub content_range : Option Text
  pub content_length : Option ℤ

pub record HeadObjectOutput : Type 0 where
  pub content_length : Option ℤ
  pub content_type : Option Text
  pub etag : Option Text
  pub last_modified : Option ℕ

pub record SignedRequest : Type 0 where
  pub url : Text
  pub method : Text
  pub signed_header : List (Text × List Text)

pub record UploadPartInput : Type 0 where
  pub bucket : Text
  pub key : Text
  pub upload_id : Text
  pub part_number : ℤ
  pub body : Text
  pub content_length : ℤ

pub record ListInput : Type 0 where
  pub bucket : Text
  pub prefix : Option Text
  pub continuation_token : Option Text
  pub max_keys : Option ℕ

pub record ListedObject : Type 0 where
  pub key : Option Text
  pub size : Option ℤ
  pub etag : Option Text
  pub last_modified : Option ℕ

pub record ListOutput : Type 0 where
  pub is_truncated : Option Bool
  pub next_continuation_token : Option Text
  pub contents : List ListedObject
  pub common_prefixes : List (Option Text)

-- `types.CORSRule`
pub record SdkCorsRule : Type 0 where
  pub id : Option Text
  pub allowed_origins : List Text
  pub allowed_methods : List Text
  pub allowed_headers : List Text
  pub expose_headers : List Text
  pub max_age_seconds : Option ℤ

-- The calls of the client and of the presigning client, and `time.Now`. The output of `delete` is
-- the number of the keys that it reports as not deleted.
pub record Client (S : Type 0) : Type 0 where
  pub put_object : PutObjectInput → S → Reply (Unit {0}) × S
  pub get_object : GetObjectInput → S → Reply GetObjectOutput × S
  pub head_object : Text → Text → S → Reply HeadObjectOutput × S
  pub delete_object : Text → Text → S → Reply (Unit {0}) × S
  pub delete_objects : Text → List Text → S → Reply ℕ × S
  pub list_objects : ListInput → S → Reply ListOutput × S
  pub create_multipart : Text → Text → Option Text → S → Reply (Option Text) × S
  pub upload_part : UploadPartInput → S → Reply (Option Text) × S
  pub complete_multipart : Text → Text → Text → List CompletedPart → S → Reply (Unit {0}) × S
  pub abort_multipart : Text → Text → Text → S → Reply (Unit {0}) × S
  pub get_cors : Text → S → Reply (List SdkCorsRule) × S
  pub put_cors : Text → List SdkCorsRule → S → Reply (Unit {0}) × S
  pub presign_put : PutObjectInput → ℕ → S → Reply SignedRequest × S
  pub presign_get : GetObjectInput → ℕ → S → Reply SignedRequest × S
  pub now : S → ℕ

-- An output, or `none` for an error; and whether there is one.
unfoldable pub result : {A : Type 0} → Reply A → Option A
result (output a) = Option.some a
result (failure e) = Option.none

unfoldable pub succeeded : {A : Type 0} → Reply A → Bool
succeeded (output a) = Bool.true
succeeded (failure e) = Bool.false

-- The value behind a pointer, or the zero value.
unfoldable pub or_zero : {A : Type 0} → A → Option A → A
or_zero zero_value Option.none = zero_value
or_zero zero_value (Option.some a) = a

abbrev pub is_quote : ℕ → Bool
is_quote c = c == 34

-- `strings.Trim(etag, "\"")`
unfoldable pub trim_quotes : Text → Text
unfolding trim_left trim_right
trim_quotes etag = trim_right is_quote (trim_left is_quote etag)
