-- ===== src/Tests/Accounts.antt =====
-- Runs of an update of an account.
use ponta_drive_api.Base.{◌≡◌, true, none, some, []}
use ponta_drive_api.Base.Text.{text}
use ponta_drive_api.Models.{CloudAccount}
use ponta_drive_api.Service.Factory.{get_credentials}
use ponta_drive_api.Accounts.{
  UpdateRequest, no_credentials, set_or, merge_account, update_credentials,
}
use ponta_drive_api.Accounts.Laws.{Merged, Mentioned, Silent, update_credentials_lem}
use ponta_drive_api.Base.{◌⊎◌}
use ponta_drive_api.Models.{S3Credentials}
use ponta_drive_api.Tests.World.{world, tools, tools-CryptLaws, home}

abbrev new_key : UpdateRequest
new_key = record {
  name = text "work";
  endpoint = [];
  bucket = [];
  region = [];
  access_key_id = [];
  secret_access_key = text "s";
  use_path_style = none;
  public_url = [];
  is_default = some true;
  is_active = none;
  total_storage = none;
}

update_credentials_lem_example :
    (changed : CloudAccount) × (update_credentials world tools new_key (merge_account new_key home)
      ≡ some changed)
    × (changed.id ≡ home.id)
    × (changed.user_id ≡ home.user_id)
    × (changed.provider ≡ home.provider)
    × (changed.used_storage ≡ home.used_storage)
    × ((Mentioned new_key
          × (creds : S3Credentials) × (get_credentials world changed ≡ some creds)
          × Merged new_key (set_or (get_credentials world home) no_credentials) creds)
        ⊎ (Silent new_key × (get_credentials world changed ≡ get_credentials world home)))
update_credentials_lem_example = update_credentials_lem world tools new_key home tools-CryptLaws
