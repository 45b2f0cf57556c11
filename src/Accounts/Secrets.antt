-- ===== src/Accounts/Secrets.antt =====
-- The credential service: app/services/storage/credential_service.go.
use ponta_drive_api.Base.{◌≡◌, refl, Option, none, some, if◌then◌else◌}
use ponta_drive_api.Base.Text.{Text, is_empty}
use ponta_drive_api.Models.{S3Credentials}
use ponta_drive_api.Service.{Outside}
use ponta_drive_api.Accounts.{AccountTools}
use ponta_drive_api.Accounts.Laws.{CryptLaws}
use ponta_drive_api.Accounts.Views.{SafeCredentials}

module _ {S : Type 0} (tools : AccountTools S) where
  abbrev encrypted : Option Text → Option Text
  encrypted none = none
  encrypted (some plain) = tools.encrypt plain

  -- `EncryptCredentials`; `none` as an argument is nil, as a result an error
  unfoldable pub encrypt_credentials : Option S3Credentials → Option Text
  encrypt_credentials none = none
  encrypt_credentials (some creds) = encrypted (tools.write_credentials creds)

module _ {S : Type 0} (o : Outside S) (tools : AccountTools S) where
  abbrev read_plain : Option Text → Option S3Credentials
  read_plain none = none
  read_plain (some plain) = o.read_credentials plain

  -- `DecryptCredentials`
  unfoldable pub decrypt_credentials : Text → Option S3Credentials
  decrypt_credentials cipher = if is_empty cipher then none else read_plain (o.decrypt cipher)

  -- Encrypted credentials are read back.
  decrypt_credentials-encrypt_credentials :
      (creds : S3Credentials)
      → CryptLaws o tools
      → (cipher : Text) × (encrypt_credentials tools (some creds) ≡ some cipher)
        × (decrypt_credentials cipher ≡ some creds)
  unfolding encrypt_credentials decrypt_credentials
  decrypt_credentials-encrypt_credentials creds laws =
      let (plain, cipher, written, hidden, filled, shown, read) = laws.round_trip creds in
      (cipher, rw written hidden, rw filled (rw shown read))

-- `MaskCredentials`; `none` is the empty map
unfoldable pub mask_credentials : Option S3Credentials → Option SafeCredentials
mask_credentials none = none
mask_credentials (some creds) = some (record {
  endpoint = creds.endpoint;
  bucket = creds.bucket;
  region = creds.region;
  access_key_id = creds.access_key_id;
  use_path_style = creds.use_path_style;
  public_url = creds.public_url;
})

mask_credentials_hides_secret :
    (creds : S3Credentials) (secret : Text)
    → mask_credentials (some (record creds { secret_access_key = secret }))
      ≡ mask_credentials (some creds)
unfolding mask_credentials
mask_credentials_hides_secret creds secret = refl
