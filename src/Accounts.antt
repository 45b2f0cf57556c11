-- ===== src/Accounts.antt =====
-- What `findAccountByID`, `Update`, `Destroy` and `ensureBucketCors` of
-- app/http/controllers/cloud_account_controller.go do to the accounts; the handlers themselves are in
-- Accounts/Handlers.
--
-- The controller has a driver factory of its own. The state that its actions take holds the cache
-- of that factory, which is not the cache of the drive service.
pub mod Laws
pub mod Views
pub mod Secrets
pub mod Handlers
use ponta_drive_api.Base.{
  ℕ, Bool, true, false, not, ◌||◌, Option, none, some, [], ◌==◌, if◌then◌else◌,
}
use ponta_drive_api.Base.Int.{ℤ}
use ponta_drive_api.Base.Text.{Text, is_empty}
use ponta_drive_api.Models.{CloudAccount, S3Credentials}
use ponta_drive_api.Preview.Cors.{merge_cors_rules}
use ponta_drive_api.Service.{
  Driver, Outside, Error, invalid_account_id, account_not_found, encrypt_failed, account_not_saved,
  cors_failed, delete_failed, ok, Action, pure, raise, ask, perform, or_raise, ◌>>=◌, ◌>>◌,
  raise_if, attempt, found_account,
}
use ponta_drive_api.Service.Factory.{owned_account, invalidate, get_credentials, driver_for_account}

-- `UpdateCloudAccountRequest`; the empty text is a field that is not given.
pub record UpdateRequest : Type 0 where
  pub name : Text
  pub endpoint : Text
  pub bucket : Text
  pub region : Text
  pub access_key_id : Text
  pub secret_access_key : Text
  pub use_path_style : Option Bool
  pub public_url : Text
  pub is_default : Option Bool
  pub is_active : Option Bool
  pub total_storage : Option ℤ

-- What the controller calls beyond the service's world: an update of `is_default` for the user's rows,
-- and the encoding of credentials. The update names neither a model nor a table, and its error is
-- ignored: what it does to the state is left open.
pub record AccountTools (S : Type 0) : Type 0 where
  pub unset_default : ℕ → S → S
  pub write_credentials : S3Credentials → Option Text
  pub encrypt : Text → Option Text
  pub frontend_url : Text

-- `if req.X != "" { old = req.X }`, and `if req.X != nil { old = *req.X }`
unfoldable pub given : Text → Text → Text
given new old = if is_empty new then old else new

unfoldable pub set_or : {A : Type 0} → Option A → A → A
set_or none old = old
set_or (some new) old = new

unfoldable pub mentions_credentials : UpdateRequest → Bool
mentions_credentials req =
    not (is_empty req.access_key_id)
    || not (is_empty req.secret_access_key)
    || not (is_empty req.bucket)
    || not (is_empty req.endpoint)

-- `&models.S3Credentials{}`
abbrev pub no_credentials : S3Credentials
no_credentials = record {
  endpoint = [];
  bucket = [];
  region = [];
  access_key_id = [];
  secret_access_key = [];
  use_path_style = false;
  public_url = [];
}

unfoldable pub merge_credentials : UpdateRequest → S3Credentials → S3Credentials
unfolding given set_or
merge_credentials req old = record {
  endpoint = given req.endpoint old.endpoint;
  bucket = given req.bucket old.bucket;
  region = given req.region old.region;
  access_key_id = given req.access_key_id old.access_key_id;
  secret_access_key = given req.secret_access_key old.secret_access_key;
  use_path_style = set_or req.use_path_style old.use_path_style;
  public_url = given req.public_url old.public_url;
}

-- The fields of the account that the request gives.
unfoldable pub merge_account : UpdateRequest → CloudAccount → CloudAccount
unfolding given set_or
merge_account req account = record account {
  name = given req.name account.name;
  is_default = set_or req.is_default account.is_default;
  is_active = set_or req.is_active account.is_active;
  total_storage = set_or req.total_storage account.total_storage;
}

module _ {S : Type 0} (o : Outside S) (tools : AccountTools S) where
  abbrev encrypted : Option Text → Option Text
  encrypted none = none
  encrypted (some plain) = tools.encrypt plain

  abbrev with_credentials : CloudAccount → Option Text → Option CloudAccount
  with_credentials account none = none
  with_credentials account (some cipher) = some (record account { credentials = cipher })

  -- `SetCredentials`
  unfoldable pub set_credentials : S3Credentials → CloudAccount → Option CloudAccount
  set_credentials creds account =
      with_credentials account (encrypted (tools.write_credentials creds))

  -- The account with its new credentials, where the request mentions any; credentials that cannot
  -- be read count as empty.
  unfoldable pub update_credentials : UpdateRequest → CloudAccount → Option CloudAccount
  unfolding set_credentials merge_credentials mentions_credentials
  update_credentials req account =
      if mentions_credentials req
      then set_credentials
          (merge_credentials req (set_or (get_credentials o account) no_credentials)) account
      else some account

  -- `findAccountByID`, at a number
  unfoldable pub find_account_by_id : ℕ → ℕ → Action S CloudAccount
  find_account_by_id user_id account_id = do
    raise_if (account_id == 0) invalid_account_id
    row ← ask (o.accounts.first (owned_account user_id account_id))
    or_raise (found_account row) account_not_found

  unfoldable pub unset_default_if : Option Bool → ℕ → Action S (Unit {0})
  unset_default_if (some true) user_id s =
      (ok tt, record s { outside = tools.unset_default user_id s.outside })
  unset_default_if (some false) user_id s = pure tt s
  unset_default_if none user_id s = pure tt s

  -- `c.factory.InvalidateCache`
  unfoldable pub invalidate_cache : ℕ → Action S (Unit {0})
  invalidate_cache account_id s = (ok tt, record s { drivers = invalidate account_id s.drivers })

  -- `ensureBucketCors`
  unfoldable pub ensure_bucket_cors : CloudAccount → Action S (Unit {0})
  ensure_bucket_cors account = do
    driver ← driver_for_account o account
    read ← perform driver.get_bucket_cors
    existing ← or_raise read cors_failed
    let (merged, changed) = merge_cors_rules existing tools.frontend_url
    if not changed
        then pure tt
        else do done ← perform (driver.put_bucket_cors merged); raise_if (not done) cors_failed

  -- The part of `Update` from its last check on.
  unfoldable pub save_account : CloudAccount → Action S CloudAccount
  unfolding invalidate_cache
  save_account account = do
    saved ← perform (o.accounts.save account)
    raise_if (not saved) account_not_saved
    invalidate_cache account.id
    attempt (ensure_bucket_cors account)
    pure account

  -- `Update`, from the account that it has found
  unfoldable pub update_found : ℕ → UpdateRequest → CloudAccount → Action S CloudAccount
  unfolding unset_default_if update_credentials merge_account save_account
  update_found user_id req account = do
    unset_default_if req.is_default user_id
    changed ← or_raise (update_credentials req (merge_account req account)) encrypt_failed
    save_account changed

  -- `Destroy`, from the account that it has found
  unfoldable pub destroy_found : CloudAccount → Action S (Unit {0})
  unfolding invalidate_cache
  destroy_found account = do
    done ← perform (o.accounts.delete (λ a. a.id == account.id))
    raise_if (not done) delete_failed
    invalidate_cache account.id
