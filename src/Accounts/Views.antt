-- ===== src/Accounts/Views.antt =====
-- What a client sees of an account: `ToResponse` of app/models/cloud_account.go.
use ponta_drive_api.Base.{◌≡◌, refl, ℕ, Bool, Option, none, some}
use ponta_drive_api.Base.Int.{ℤ}
use ponta_drive_api.Base.Text.{Text}
use ponta_drive_api.Models.{CloudAccount, S3Credentials}
use ponta_drive_api.Service.{Outside}
use ponta_drive_api.Service.Factory.{get_credentials}

-- `safeCreds`
pub record SafeCredentials : Type 0 where
  pub endpoint : Text
  pub bucket : Text
  pub region : Text
  pub access_key_id : Text
  pub use_path_style : Bool
  pub public_url : Text

pub record AccountView : Type 0 where
  pub id : ℕ
  pub name : Text
  pub provider : Text
  pub credentials : Option SafeCredentials
  pub is_default : Bool
  pub is_active : Bool
  pub sync_status : Text
  pub last_synced_at : Option ℕ
  pub total_storage : ℤ
  pub used_storage : ℤ

unfoldable pub safe_credentials : Option S3Credentials → Option SafeCredentials
safe_credentials none = none
safe_credentials (some creds) = some (record {
  endpoint = creds.endpoint;
  bucket = creds.bucket;
  region = creds.region;
  access_key_id = creds.access_key_id;
  use_path_style = creds.use_path_style;
  public_url = creds.public_url;
})

-- `ToResponse`, but for the timestamps of the row; `last_synced_at` is formatted for the client.
unfoldable pub account_view : {S : Type 0} → Outside S → CloudAccount → AccountView
unfolding safe_credentials
account_view o account = record {
  id = account.id;
  name = account.name;
  provider = account.provider;
  credentials = safe_credentials (get_credentials o account);
  is_default = account.is_default;
  is_active = account.is_active;
  sync_status = account.sync_status;
  last_synced_at = account.last_synced_at;
  total_storage = account.total_storage;
  used_storage = account.used_storage;
}

same_safe :
    (creds : S3Credentials) (secret : Text)
    → safe_credentials (some creds)
      ≡ safe_credentials (some (record creds { secret_access_key = secret }))
unfolding safe_credentials
same_safe creds secret = refl

-- The answer does not depend on the secret key: an account whose stored credentials read as the
-- same ones with another secret key, and whose other fields are the same, is answered alike.
pub account_view_hides_secret :
    {S : Type 0} (o : Outside S) (account : CloudAccount) (creds : S3Credentials)
    (cipher secret : Text)
    → get_credentials o account ≡ some creds
    → get_credentials o (record account { credentials = cipher })
      ≡ some (record creds { secret_access_key = secret })
    → account_view o account ≡ account_view o (record account { credentials = cipher })
unfolding account_view
account_view_hides_secret o account creds cipher secret h k = rw (h, k, same_safe creds secret) refl
