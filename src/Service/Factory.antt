-- ===== src/Service/Factory.antt =====
-- The driver factory (app/services/storage/factory.go, config.go), the credentials of an account
-- (app/models/cloud_account.go), and `GetDriver`.
use ponta_drive_api.Base.{
  ℕ, Bool, ◌&&◌, ◌||◌, Option, none, some, List, [], ◌∷◌, ltb, ◌==◌, if◌then◌else◌,
}
use ponta_drive_api.Base.Text.{Text, same, is_empty}
use ponta_drive_api.Models.{
  CloudAccount, S3Credentials, provider_s3, provider_cloudflare_r2, provider_minio,
}
use ponta_drive_api.Service.{
  Driver, S3Config, Outside, account_denied, driver_failed, account_id_required, ok, err, Action,
  pure, ask, or_raise, ◌>>=◌, ◌>>◌, raise_if, found_account,
}

-- `ConfigFromS3Credentials`
unfoldable pub config_from_s3_credentials : S3Credentials → S3Config
config_from_s3_credentials creds = record {
  bucket = creds.bucket;
  region = creds.region;
  access_key_id = creds.access_key_id;
  secret_access_key = creds.secret_access_key;
  endpoint = creds.endpoint;
  use_path_style = creds.use_path_style;
  public_url = creds.public_url;
}

-- The providers that `BuildDriver` has a driver for.
unfoldable pub has_driver : Text → Bool
has_driver provider =
    same provider provider_s3
    || same provider provider_cloudflare_r2
    || same provider provider_minio

-- The cache of `DriverFactory`, a map from account ids.
unfoldable pub cached : {D : Type 0} → ℕ → List (ℕ × D) → Option D
cached id [] = none
cached id ((k, d) ∷ rest) = if k == id then some d else cached id rest

-- `InvalidateCache`
unfoldable pub invalidate : {D : Type 0} → ℕ → List (ℕ × D) → List (ℕ × D)
invalidate id [] = []
invalidate id ((k, d) ∷ rest) =
    let kept = invalidate id rest in if k == id then kept else (k, d) ∷ kept

-- The condition of the queries for an account.
abbrev pub owned_account : ℕ → ℕ → CloudAccount → Bool
owned_account user_id account_id a = a.id == account_id && a.user_id == user_id

module _ {S : Type 0} (o : Outside S) where
  abbrev decoded : Option Text → Option S3Credentials
  decoded none = none
  decoded (some plain) = o.read_credentials plain

  -- `GetCredentials`
  unfoldable pub get_credentials : CloudAccount → Option S3Credentials
  get_credentials account =
      if is_empty account.credentials then none else decoded (o.decrypt account.credentials)

  -- `BuildDriver`; every other provider is refused.
  unfoldable pub build_driver : Text → Option S3Credentials → Option (Driver S)
  unfolding has_driver config_from_s3_credentials
  build_driver provider none = none
  build_driver provider (some creds) =
      if has_driver provider then o.new_s3_driver (config_from_s3_credentials creds) else none

  -- What follows a miss in the cache.
  unfoldable pub cache_driver : CloudAccount → Option (Driver S) → Action S (Driver S)
  cache_driver account none s = (err driver_failed, s)
  cache_driver account (some driver) s = (
    ok driver,
    (if ltb 0 account.id then record s { drivers = (account.id, driver) ∷ s.drivers } else s),
  )

  abbrev or_build : CloudAccount → Option (Driver S) → Action S (Driver S)
  or_build account (some driver) = pure driver
  or_build account none =
      cache_driver account (build_driver account.provider (get_credentials account))

  -- `DriverForAccount`
  unfoldable pub driver_for_account : CloudAccount → Action S (Driver S)
  unfolding cache_driver
  driver_for_account account s =
      or_build account (if ltb 0 account.id then cached account.id s.drivers else none) s

  -- `GetDriver`
  unfoldable pub get_driver : ℕ → ℕ → Action S (Driver S × CloudAccount)
  get_driver user_id account_id = do
    row ← ask (o.accounts.first (owned_account user_id account_id))
    account ← or_raise (found_account row) account_denied
    driver ← driver_for_account account
    pure (driver, account)

  -- `EnsureCloudAccountOwnership`
  unfoldable pub ensure_cloud_account_ownership : ℕ → ℕ → Action S (Unit {0})
  ensure_cloud_account_ownership user_id account_id = do
    raise_if (account_id == 0) account_id_required
    row ← ask (o.accounts.first (owned_account user_id account_id))
    or_raise (found_account row) account_denied
    pure tt
