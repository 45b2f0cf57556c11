-- ===== src/Service.antt =====
-- The drive service, app/services/cloud_drive_service.go, method by method: the interface to what
-- stands outside the repository, and the actions that the methods are written in.
--
-- `S` is the state of the outside world (the database, the buckets, the clock, the random source),
-- of which nothing is assumed here. A method is an action: it takes the state and returns its
-- result, or its error, and the new state; what was written before an error stays written. The
-- service's own state is the cache of its driver factory.
pub mod Factory
pub mod Items
pub mod Deletion
pub mod Erasure
pub mod Uploads
pub mod Multipart
pub mod Downloads
pub mod Scan
pub mod Database
pub mod Folders
pub mod Runs
pub mod Post
pub mod Calls
pub mod Isolation
pub mod Storage
pub mod Reading
pub mod Drivers
use ponta_drive_api.Base.{
  ℕ, Bool, true, false, Option, none, some, List, [], ◌∷◌, ◌==◌, if◌then◌else◌,
}
use ponta_drive_api.Base.Int.{ℤ}
use ponta_drive_api.Base.Text.{Text}
use ponta_drive_api.Models.{
  DriveItem, CloudAccount, UploadSession, S3Credentials, CompletedPart, ObjectMetadata,
  ListObjectsResult,
}
use ponta_drive_api.Upload.Parts.{PartsCodec}
use ponta_drive_api.Preview.Cors.{CorsRule}

-- A table of the database behind the ORM. A query is given by its WHERE conditions, as a test of a
-- row. `first` and `get` return `none` when the query fails; `first` returns the zero value, whose
-- id is 0, when it finds no row. A write returns whether it succeeded; `create` returns the row
-- with its new id.
pub record Table (S A : Type 0) : Type 0 where
  pub first : (A → Bool) → S → Option A
  pub get : (A → Bool) → S → Option (List A)
  pub create : A → S → Option A × S
  pub save : A → S → Bool × S
  pub delete : (A → Bool) → S → Bool × S
  pub force_delete : (A → Bool) → S → Bool × S

-- `PresignedURLResponse`
pub record PresignedUrl : Type 0 where
  pub url : Text
  pub method : Text
  pub headers : List (Text × Text)
  pub expires : ℕ

-- `CloudDriver` of app/contracts/storage.go. `none` and `false` are errors; a stream of bytes is
-- what the reader will yield.
pub record Driver (S : Type 0) : Type 0 where
  pub get_object : Text → S → Option Text × S
  pub delete_object : Text → S → Bool × S
  pub get_metadata : Text → S → Option ObjectMetadata × S
  pub presign_upload : Text → Text → ℕ → S → Option PresignedUrl × S
  pub presign_download : Text → Text → ℕ → S → Option Text × S
  pub initiate_multipart : Text → Text → S → Option Text × S
  pub upload_part : Text → Text → ℤ → Text → ℤ → S → Option Text × S
  pub complete_multipart : Text → Text → List CompletedPart → S → Bool × S
  pub abort_multipart : Text → Text → S → Bool × S
  pub list_objects : Text → Text → ℕ → S → Option ListObjectsResult × S
  pub delete_objects : List Text → S → Bool × S
  pub get_range : Text → ℤ → ℤ → S → Option (Text × ℤ) × S
  pub get_bucket_cors : S → Option (List CorsRule) × S
  pub put_bucket_cors : List CorsRule → S → Bool × S
  pub public_url : Text

-- `S3Config` of app/services/storage/config.go
pub record S3Config : Type 0 where
  pub bucket : Text
  pub region : Text
  pub access_key_id : Text
  pub secret_access_key : Text
  pub endpoint : Text
  pub use_path_style : Bool
  pub public_url : Text

-- What the service calls. `decrypt` is `Crypt().DecryptString`, `read_credentials` the JSON decoder
-- on credentials, `new_s3_driver` is `NewS3Driver`, `sum_sizes` is the query for
-- COALESCE(SUM(size), 0), `head_status` the status of a HEAD request, `in_a_day` the time in a day,
-- and `is_past` says that a time has passed.
pub record Outside (S : Type 0) : Type 0 where
  pub items : Table S DriveItem
  pub accounts : Table S CloudAccount
  pub sessions : Table S UploadSession
  pub sum_sizes : (DriveItem → Bool) → S → Option ℤ
  pub new_uuid : S → Text × S
  pub in_a_day : S → ℕ
  pub is_past : ℕ → S → Bool
  pub decrypt : Text → Option Text
  pub read_credentials : Text → Option S3Credentials
  pub new_s3_driver : S3Config → Option (Driver S)
  pub head_status : Text → S → Option ℕ
  pub parts_codec : PartsCodec

-- The errors of the service, one for each text.
pub data Error : Type 0 where
  account_denied driver_failed account_id_required item_uuid_required item_not_found : Error
  invalid_cloud_account parent_not_found parent_not_folder create_failed : Error
  own_parent destination_not_found destination_not_folder would_cycle save_failed : Error
  delete_failed root_not_found query_failed : Error
  presign_failed object_missing finalize_failed multipart_failed session_not_saved : Error
  session_not_found session_expired part_failed part_not_recorded no_parts : Error
  complete_failed folder_download folder_stream folder_read get_failed : Error
  folder_preview list_failed out_of_fuel : Error
  invalid_account_id account_not_found encrypt_failed account_not_saved cors_failed : Error

pub data Outcome (A : Type 0) : Type 0 where
  ok : A → Outcome A
  err : Error → Outcome A

pub record State (S : Type 0) : Type 0 where
  pub outside : S
  pub drivers : List (ℕ × Driver S)

abbrev pub Action : Type 0 → Type 0 → Type 0
Action S A = State S → Outcome A × State S

module _ {S A : Type 0} where
  abbrev pub pure : A → Action S A
  pure a s = (ok a, s)

  abbrev pub raise : Error → Action S A
  raise e s = (err e, s)

  -- A read of the outside world.
  abbrev pub ask : (S → A) → Action S A
  ask f s = (ok (f s.outside), s)

  -- A call of the outside world.
  abbrev pub perform : (S → A × S) → Action S A
  perform f s = let (a, outside') = f s.outside in (ok a, record s { outside = outside' })

  abbrev pub or_raise : Option A → Error → Action S A
  or_raise none e = raise e
  or_raise (some a) e = pure a

infixl 5 ◌>>=◌ ◌>>◌
abbrev pub ◌>>=◌ : {S A B : Type 0} → Action S A → (A → Action S B) → Action S B
◌>>=◌ m f s = let (r, s') = m s in elim r [ ok a ↦ f a s' | err e ↦ (err e, s') ]

abbrev pub ◌>>◌ : {S A B : Type 0} → Action S A → Action S B → Action S B
m >> k = m >>= λ _. k

-- `if c { return err }`
abbrev pub raise_if : {S : Type 0} → Bool → Error → Action S (Unit {0})
raise_if true e = raise e
raise_if false e = pure tt

-- An error that the caller keeps to itself.
abbrev pub attempt : {S A : Type 0} → Action S A → Action S (Option A)
attempt m s = let (r, s') = m s in elim r [ ok a ↦ (ok (some a), s') | err e ↦ (ok none, s') ]

-- A row that a query found: `err != nil || row.ID == 0` is none.
abbrev pub found : {A : Type 0} → (A → ℕ) → Option A → Option A
found id_of none = none
found id_of (some a) = if id_of a == 0 then none else some a

abbrev pub found_item : Option DriveItem → Option DriveItem
found_item = found (λ i. i.id)

abbrev pub found_account : Option CloudAccount → Option CloudAccount
found_account = found (λ a. a.id)

abbrev pub found_session : Option UploadSession → Option UploadSession
found_session = found (λ u. u.id)
