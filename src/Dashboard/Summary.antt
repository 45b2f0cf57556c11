-- ===== src/Dashboard/Summary.antt =====
-- `GetSummary` of app/services/dashboard_service.go, `GetRecent` and `GetByIP` of
-- app/services/activity_service.go, and `Summary` of app/http/controllers/dashboard_controller.go.
use Prim.Native.Nat.{compare, Ordering}
use ponta_drive_api.Base.{ℕ, Bool, Option, none, some, List, map, take, ◌==◌, if◌then◌else◌}
use ponta_drive_api.Base.Text.{Text, text, same, is_empty}
use ponta_drive_api.Base.Order.{flip, then_by}
use ponta_drive_api.Base.Order.Sort.{sort}
use ponta_drive_api.Service.{Outside, found}
use ponta_drive_api.Web.{Response, payload, failed}
use ponta_drive_api.Auth.{User}
use ponta_drive_api.Api.{ActivityLog, ItemView, item_view}
use ponta_drive_api.Accounts.Views.{AccountView, account_view}
use ponta_drive_api.Accounts.Handlers.{compare_accounts}
use ponta_drive_api.Dashboard.{StorageSummary, storage_summary, get_suggested_files}

infixl 5 ◌>>=◌
abbrev ◌>>=◌ : {A B : Type 0} → Option A → (A → Option B) → Option B
none >>= f = none
some x >>= f = f x

-- A row of the activity log with the time of its creation.
pub record Logged : Type 0 where
  pub entry : ActivityLog
  pub created_at : ℕ

-- `ToResponse` of app/models/activity_log.go, with the metadata as the decoder reads it.
pub record ActivityView (M : Type 0) : Type 0 where
  pub id : ℕ
  pub action : Text
  pub target_name : Text
  pub target_uuid : Option Text
  pub cloud_account_id : Option ℕ
  pub ip_address : Text
  pub user_agent : Text
  pub metadata : Option M
  pub created_at : ℕ

-- What the summary reads: `logged` is the query for the activity log before its ORDER BY and LIMIT,
-- `read_metadata` the JSON decoder, `a_week_ago` the time seven days ago, and `one_decimal` prints a
-- quotient.
pub record Inputs (S M : Type 0) : Type 0 where
  pub outside : Outside S
  pub logged : (ActivityLog → Bool) → S → Option (List Logged)
  pub read_metadata : Text → Option M
  pub a_week_ago : S → ℕ
  pub one_decimal : ℕ → ℕ → Text

pub record DashboardSummary (M : Type 0) : Type 0 where
  pub clouds : List AccountView
  pub suggested_files : List ItemView
  pub recent_activities : List (ActivityView M)
  pub total_storage : StorageSummary

-- `created_at desc, id desc`
unfoldable pub compare_logged : Logged → Logged → Ordering
compare_logged a b =
    then_by (flip (compare a.created_at b.created_at)) (flip (compare a.entry.id b.entry.id))

abbrev pub logged_by : ℕ → ActivityLog → Bool
logged_by user_id a = a.user_id == user_id

abbrev pub logged_from : Text → ActivityLog → Bool
logged_from ip a = same a.ip_address ip

unfoldable pub newest : ℕ → Option (List Logged) → Option (List Logged)
unfolding compare_logged
newest limit none = none
newest limit (some rows) = some (take limit (sort compare_logged rows))

module _ {S M : Type 0} (d : Inputs S M) where
  -- `GetRecent`
  unfoldable pub get_recent : ℕ → ℕ → S → Option (List Logged)
  unfolding newest
  get_recent user_id limit s = newest limit (d.logged (logged_by user_id) s)

  -- `GetByIP`
  unfoldable pub get_by_ip : Text → ℕ → S → Option (List Logged)
  unfolding newest
  get_by_ip ip limit s = newest limit (d.logged (logged_from ip) s)

  -- `decodedMetadata`
  unfoldable pub decoded_metadata : Option Text → Option M
  decoded_metadata none = none
  decoded_metadata (some t) = if is_empty t then none else d.read_metadata t

  unfoldable pub activity_view : Logged → ActivityView M
  unfolding decoded_metadata
  activity_view l = record {
    id = l.entry.id;
    action = l.entry.action;
    target_name = l.entry.target_name;
    target_uuid = l.entry.target_uuid;
    cloud_account_id = l.entry.cloud_account_id;
    ip_address = l.entry.ip_address;
    user_agent = l.entry.user_agent;
    metadata = decoded_metadata l.entry.metadata;
    created_at = l.created_at;
  }

  -- `GetSummary`; `none` is an error of one of its queries. The accounts are added up in the order of
  -- the query.
  unfoldable pub get_summary : ℕ → S → Option (DashboardSummary M)
  unfolding get_recent activity_view item_view account_view compare_accounts storage_summary
      get_suggested_files
  get_summary user_id s = do
    rows ← d.outside.accounts.get (λ a. a.user_id == user_id) s
    files ← get_suggested_files d.outside user_id (d.a_week_ago s) s
    activities ← get_recent user_id 8 s
    let accounts = sort compare_accounts rows
    some (record {
      clouds = map (account_view d.outside) accounts;
      suggested_files = map item_view files;
      recent_activities = map activity_view activities;
      total_storage = storage_summary d.one_decimal accounts;
    })

  abbrev summarised : Option (DashboardSummary M) → Response (DashboardSummary M)
  summarised none = failed 500 (text "common.fetch_failed")
  summarised (some summary) = payload 200 summary

  abbrev summary_for : Option User → S → Response (DashboardSummary M)
  summary_for none s = failed 401 (text "common.unauthorized")
  summary_for (some user) s = summarised (get_summary user.id s)

  -- `Summary`, for the user that the middleware left in the context
  unfoldable pub summary : Option User → S → Response (DashboardSummary M)
  unfolding get_summary
  summary user s = summary_for (found (λ u. u.id) user) s
