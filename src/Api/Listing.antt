-- ===== src/Api/Listing.antt =====
-- `Index` of app/http/controllers/drive_item_controller.go: what stands before and behind its page
-- (Listing/Query).
use ponta_drive_api.Base.{ℕ, Bool, true, ◌&&◌, Option, none, some, List, map, ◌==◌, if◌then◌else◌}
use ponta_drive_api.Base.Int.{ℤ}
use ponta_drive_api.Base.Text.{Text, text, is_empty}
use ponta_drive_api.Models.{CloudAccount}
use ponta_drive_api.Service.{Outside, State, found_account}
use ponta_drive_api.Service.Factory.{ensure_cloud_account_ownership}
use ponta_drive_api.Service.Items.{resolve_drive_item_id}
use ponta_drive_api.Listing.{Server, normalize_sort_field, normalize_sort_order}
use ponta_drive_api.Listing.Query.{
  Filter, CursorCodec, IndexResult, page, invalid_cursor, list_failed, index_page,
}
use ponta_drive_api.Web.{Response, payload, failed, Handler, pure, ask, or_answer, ◌>>=◌, ◌>>◌}
use ponta_drive_api.Api.{Caller, ItemView, item_view, call, fail_with, signed_in}
use ponta_drive_api.Api.Sync.{to_uint}

-- The parameters of the query string, with their defaults.
pub record IndexQuery : Type 0 where
  pub cloud_account_id : ℤ
  pub parent_uuid : Text
  pub search : Text
  pub item_type : Text
  pub sort : Text
  pub order : Text
  pub limit : ℤ
  pub cursor : Text

pub record ItemPage : Type 0 where
  pub items : List ItemView
  pub has_more : Bool
  pub next_cursor : Text

abbrev pub default_of : ℕ → CloudAccount → Bool
default_of user_id a = a.user_id == user_id && a.is_default

-- The answer for a page.
unfoldable pub listed_page : IndexResult → Response ItemPage
unfolding item_view
listed_page (page p) =
    payload 200
      (record { items = map item_view p.items; has_more = p.has_more; next_cursor = p.next_cursor })
listed_page invalid_cursor = failed 400 (text "drive.invalid_cursor")
listed_page list_failed = failed 500 (text "drive.list_failed")

module _ {S : Type 0} (o : Outside S) (server : Server) (codec : CursorCodec)
    (caller : Caller) where
  abbrev pub IndexHandler : Type 0 → Type 0
  IndexHandler A = Handler (State S) ItemPage A

  -- The account of the query, or else the user's default account.
  unfoldable pub listed_account : ℕ → ℕ → IndexHandler ℕ
  listed_account user_id account_id =
      if account_id == 0
      then (do
        row ← ask (λ (s : State S). o.accounts.first (default_of user_id) s.outside)
        account ← or_answer (found_account row) (failed 400 (text "drive.cloud_account_required"))
        pure account.id)
      else pure account_id

  unfoldable pub listed_folder : ℕ → Text → IndexHandler (Option ℕ)
  unfolding fail_with
  listed_folder user_id parent_uuid = if is_empty parent_uuid then pure none else (do
    id ←
        call (resolve_drive_item_id o user_id parent_uuid)
          (fail_with 404 (text "drive.item_not_found"))
    pure (some id))

  -- The page of an account; the rows are those of the whole table, on which the conditions of the
  -- query stand.
  unfoldable pub account_page : IndexQuery → ℕ → ℕ → Option ℕ → IndexHandler (Response ItemPage)
  unfolding listed_page
  account_page q user_id account_id parent_id = do
    rows ← ask (λ (s : State S). o.items.get (λ _. true) s.outside)
    let filter : Filter = record {
      user_id = user_id;
      cloud_account_id = account_id;
      parent_id = parent_id;
      search = q.search;
      item_type = q.item_type;
    }
    pure (
        listed_page (
          index_page server codec rows filter (normalize_sort_field q.sort)
            (normalize_sort_order q.order) q.limit q.cursor))

  -- `Index`
  unfoldable pub index : IndexQuery → IndexHandler (Response ItemPage)
  unfolding signed_in listed_account listed_folder fail_with to_uint account_page
  index q = do
    user ← signed_in caller
    account_id ← listed_account user.id (to_uint q.cloud_account_id)
    call (ensure_cloud_account_ownership o user.id account_id)
        (fail_with 404 (text "drive.cloud_account_required"))
    parent_id ← listed_folder user.id q.parent_uuid
    account_page q user.id account_id parent_id
