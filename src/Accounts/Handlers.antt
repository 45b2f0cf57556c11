-- ===== src/Accounts/Handlers.antt =====
-- The handlers of app/http/controllers/cloud_account_controller.go, and the queueing of a scan.
use ponta_drive_api.Base.{
  ℕ, ◌^◌, Bool, true, false, Option, none, some, List, [], map, ◌==◌, if◌then◌else◌,
}
use Prim.Native.Nat.{compare, Ordering}
use ponta_drive_api.Base.Int.{ℤ, pos}
use ponta_drive_api.Base.Text.{Text, text, is_empty}
use ponta_drive_api.Base.Decimal.{parse_uint}
use ponta_drive_api.Base.Order.{flip, then_by}
use ponta_drive_api.Base.Order.Sort.{sort}
use ponta_drive_api.Models.{CloudAccount, S3Credentials, DriveItem, ListObjectsResult}
use ponta_drive_api.Service.{Driver, Error, invalid_account_id, encrypt_failed, State, found_item}
use ponta_drive_api.Service.Factory.{build_driver}
use ponta_drive_api.Service.Items.{with_uuid}
use ponta_drive_api.Web.{
  Response, payload, notice, failed, Form, go, Handler, pure, ask, or_answer, validated_as, ◌>>=◌,
  ◌>>◌,
}
use ponta_drive_api.Auth.{User}
use ponta_drive_api.Api.{ApiWorld, Caller, call, fail_with, signed_in, log_safe}
use ponta_drive_api.Accounts.{
  UpdateRequest, AccountTools, find_account_by_id, update_found, destroy_found, ensure_bucket_cors,
}
use ponta_drive_api.Accounts.Secrets.{encrypt_credentials}
use ponta_drive_api.Accounts.Views.{AccountView, account_view}

-- `TestCloudAccountRequest`
pub record TestRequest : Type 0 where
  pub provider : Text
  pub credentials : S3Credentials

-- `StoreCloudAccountRequest`
pub record StoreRequest : Type 0 where
  pub name : Text
  pub provider : Text
  pub credentials : S3Credentials
  pub is_default : Bool
  pub total_storage : ℤ

pub data AccountData : Type 0 where
  one_account : AccountView → AccountData
  accounts : List AccountView → AccountData

abbrev pub AccountHandler : Type 0 → Type 0 → Type 0
AccountHandler S A = Handler (State S) AccountData A

-- `is_default desc, id desc`
abbrev rank : Bool → ℕ
rank true = 1
rank false = 0

unfoldable pub compare_accounts : CloudAccount → CloudAccount → Ordering
compare_accounts a b =
    then_by (flip (compare (rank a.is_default) (rank b.is_default))) (flip (compare a.id b.id))

-- The status of the answer to an error of `findAccountByID`.
unfoldable pub find_failed : Error → Response AccountData
find_failed invalid_account_id = failed 400 (text "common.invalid_account_id")
find_failed e = failed 404 (text "cloud.not_found")

unfoldable pub update_failed : Error → Response AccountData
update_failed encrypt_failed = failed 500 (text "cloud.encrypt_failed")
update_failed e = failed 500 (text "cloud.update_failed")

-- `dispatch` hands the job to the queue, which runs it at once or stores it, and says whether the
-- queue has taken it.
pub record Queue (S : Type 0) : Type 0 where
  pub dispatch : ℕ → ℕ → Option ℕ → State S → Bool × State S

module _ {S : Type 0} (w : ApiWorld S) (tools : AccountTools S) (queue : Queue S)
    (caller : Caller) where
  -- The account of the route; a number from 1 on below 2^64.
  unfoldable pub route_account : ℕ → Text → AccountHandler S CloudAccount
  unfolding find_failed
  route_account user_id raw_id = do
    account_id ←
        or_answer (parse_uint (2 ^ 64) raw_id) (failed 400 (text "common.invalid_account_id"))
    call (find_account_by_id w.outside tools user_id account_id) find_failed

  unfoldable pub set_status : ℕ → Text → AccountHandler S (Unit {0})
  set_status account_id status s =
      (go tt, record s { outside = w.set_sync_status account_id status false s.outside })

  unfoldable pub enqueue : ℕ → ℕ → Option ℕ → AccountHandler S Bool
  enqueue user_id account_id parent s =
      let (taken, s') = queue.dispatch user_id account_id parent s in (go taken, s')

  -- `dispatchSync`
  unfoldable pub dispatch_sync : ℕ → CloudAccount → Option ℕ → AccountHandler S (Unit {0})
  unfolding set_status enqueue log_safe
  dispatch_sync user_id account parent = do
    set_status account.id (text "syncing")
    log_safe w (record {
      user_id = user_id;
      cloud_account_id = account.id;
      action = text "sync_started";
      target_name = account.name;
      target_uuid = none;
      ip_address = caller.ip;
      user_agent = caller.agent;
      metadata = none;
    })
    taken ← enqueue user_id account.id parent
    if taken then pure tt else set_status account.id (text "error")

  -- `Index`
  unfoldable pub index : AccountHandler S (Response AccountData)
  unfolding signed_in compare_accounts account_view
  index = do
    user ← signed_in caller
    rows ← ask (λ (s : State S). (w.outside).accounts.get (λ a. a.user_id == user.id) s.outside)
    found_rows ← or_answer rows (failed 500 (text "cloud.fetch_failed"))
    pure (payload 200 (accounts (map (account_view w.outside) (sort compare_accounts found_rows))))

  unfoldable pub probe : Driver S → AccountHandler S (Option ListObjectsResult)
  probe driver s =
      let (page, outside') = driver.list_objects [] [] 1 s.outside in
      (go page, record s { outside = outside' })

  -- `Test`
  unfoldable pub test : Form TestRequest → AccountHandler S (Response AccountData)
  unfolding probe
  test form = do
    req ← validated_as (text "common.invalid_request") form
    driver ←
        or_answer (build_driver w.outside req.provider (some req.credentials))
          (failed 400 (text "cloud.driver_init_failed"))
    page ← probe driver
    or_answer page (failed 400 (text "cloud.connection_test_failed"))
    pure (notice (text "cloud.connection_success"))

  -- The row that `Store` creates; `BeforeCreate` gives it the identifier.
  unfoldable pub new_account : User → StoreRequest → Text → Text → CloudAccount
  new_account user req cipher uuid = record {
    id = 0;
    user_id = user.id;
    name = req.name;
    provider = req.provider;
    credentials = cipher;
    is_default = req.is_default;
    is_active = true;
    sync_status = [];
    last_synced_at = none;
    total_storage = req.total_storage;
    used_storage = pos 0;
    uuid = uuid;
  }

  unfoldable pub unset_default_when : Bool → ℕ → AccountHandler S (Unit {0})
  unset_default_when false user_id s = (go tt, s)
  unset_default_when true user_id s =
      (go tt, record s { outside = tools.unset_default user_id s.outside })

  unfoldable pub create_account :
      User → StoreRequest → Text → AccountHandler S (Option CloudAccount)
  unfolding new_account
  create_account user req cipher s =
      let (uuid, s1) = (w.outside).new_uuid s.outside in
      let (row, s2) = (w.outside).accounts.create (new_account user req cipher uuid) s1 in
      (go row, record s { outside = s2 })

  -- The account as it is after the dispatch, where it can be read.
  abbrev reloaded : CloudAccount → Option CloudAccount → CloudAccount
  reloaded account none = account
  reloaded account (some fresh) = fresh

  unfoldable pub configure_cors : CloudAccount → AccountHandler S (Unit {0})
  configure_cors account s = (go tt, (ensure_bucket_cors w.outside tools account s).1)

  -- `Store`
  unfoldable pub store : Form StoreRequest → AccountHandler S (Response AccountData)
  unfolding signed_in encrypt_credentials unset_default_when create_account dispatch_sync
      configure_cors account_view
  store form = do
    user ← signed_in caller
    req ← validated_as (text "common.invalid_request") form
    cipher ←
        or_answer (encrypt_credentials tools (some req.credentials))
          (failed 500 (text "cloud.encrypt_failed"))
    unset_default_when req.is_default user.id
    row ← create_account user req cipher
    account ← or_answer row (failed 500 (text "cloud.save_failed"))
    dispatch_sync user.id account none
    again ← ask (λ (s : State S). (w.outside).accounts.first (λ a. a.id == account.id) s.outside)
    configure_cors (reloaded account again)
    pure (payload 201 (one_account (account_view w.outside (reloaded account again))))

  -- `Show`
  unfoldable pub show : Text → AccountHandler S (Response AccountData)
  unfolding signed_in route_account account_view
  show raw_id = do
    user ← signed_in caller
    account ← route_account user.id raw_id
    pure (payload 200 (one_account (account_view w.outside account)))

  -- `Update`
  unfoldable pub update : Text → Form UpdateRequest → AccountHandler S (Response AccountData)
  unfolding signed_in route_account update_failed account_view
  update raw_id form = do
    user ← signed_in caller
    account ← route_account user.id raw_id
    req ← validated_as (text "common.invalid_request") form
    changed ← call (update_found w.outside tools user.id req account) update_failed
    pure (payload 200 (one_account (account_view w.outside changed)))

  -- `Destroy`
  unfoldable pub destroy : Text → AccountHandler S (Response AccountData)
  unfolding signed_in route_account fail_with
  destroy raw_id = do
    user ← signed_in caller
    account ← route_account user.id raw_id
    call (destroy_found w.outside tools account) (fail_with 500 (text "cloud.delete_failed"))
    pure (notice (text "cloud.deleted"))

  -- The id of the parent folder of a scan, where the row is found.
  abbrev parent_id_of : Option DriveItem → Option ℕ
  parent_id_of none = none
  parent_id_of (some item) = some item.id

  abbrev scan_parent : ℕ → Text → AccountHandler S (Option ℕ)
  scan_parent user_id parent_uuid s = (
    go (
        if is_empty parent_uuid
        then none
        else parent_id_of
            (found_item ((w.outside).items.first (with_uuid user_id parent_uuid) s.outside))),
    s,
  )

  -- `Sync`
  unfoldable pub sync : Text → Text → AccountHandler S (Response AccountData)
  unfolding signed_in route_account dispatch_sync
  sync raw_id parent_uuid = do
    user ← signed_in caller
    account ← route_account user.id raw_id
    parent ← scan_parent user.id parent_uuid
    dispatch_sync user.id account parent
    pure (notice (text "cloud.sync_started"))

  -- `Cors`
  unfoldable pub cors : Text → AccountHandler S (Response AccountData)
  unfolding signed_in route_account fail_with
  cors raw_id = do
    user ← signed_in caller
    account ← route_account user.id raw_id
    call (ensure_bucket_cors w.outside tools account) (fail_with 400 (text "cloud.cors_failed"))
    pure (notice (text "cloud.cors_enabled"))
