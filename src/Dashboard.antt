-- ===== src/Dashboard.antt =====
-- The dashboard of app/services/dashboard_service.go and app/http/controllers/dashboard_controller.go.
--
-- The rows are those that the queries answer with, before their ORDER BY and LIMIT, which stand here.
pub mod Sizes
pub mod Suggestions
pub mod Summary
pub mod Recent
use Prim.Native.Nat.{compare, Ordering}
use ponta_drive_api.Base.{
  ℕ, ◌-◌, Bool, true, false, not, ◌&&◌, Option, none, some, List, [], ◌∷◌, ◌++◌, map, length, take,
  ltb, ◌==◌, if◌then◌else◌,
}
use ponta_drive_api.Base.Int.{ℤ, pos, ltb_ℤ, ◌+₆₄◌}
use ponta_drive_api.Base.Text.{Text, text, same}
use ponta_drive_api.Base.Order.{flip, then_by, compare_null}
use ponta_drive_api.Base.Order.Sort.{sort}
use ponta_drive_api.Models.{DriveItem, CloudAccount, status_ready}
use ponta_drive_api.Service.{Outside}
use ponta_drive_api.Dashboard.Sizes.{humanize_bytes}

-- `updated_at desc, id desc`
unfoldable pub compare_recent : DriveItem → DriveItem → Ordering
compare_recent a b =
    then_by (flip (compare_null a.updated_at b.updated_at)) (flip (compare a.id b.id))

abbrev pub starred_by : ℕ → DriveItem → Bool
starred_by user_id i = i.user_id == user_id && i.is_starred && same i.status status_ready

-- `updated_at > ?`, which no NULL meets
abbrev pub later : ℕ → Option ℕ → Bool
later since none = false
later since (some t) = ltb since t

abbrev pub recent_of : ℕ → ℕ → DriveItem → Bool
recent_of user_id since i =
    i.user_id == user_id
    && not i.is_starred
    && same i.status status_ready
    && later since i.updated_at

unfoldable pub topped_up : List DriveItem → Option (List DriveItem) → Option (List DriveItem)
unfolding compare_recent
topped_up items none = none
topped_up items (some rows) = some (items ++ take (8 - length items) (sort compare_recent rows))

-- `getSuggestedFiles`, from the answers of the two queries, up to the loop that calls `ToResponse`
unfoldable pub suggested_files :
    Option (List DriveItem) → Option (List DriveItem) → Option (List DriveItem)
unfolding topped_up compare_recent
suggested_files none recent = none
suggested_files (some starred) recent =
    let items = take 4 (sort compare_recent starred) in
    if ltb (length items) 8 then topped_up items recent else some items

-- `getSuggestedFiles`; `since` is the time seven days ago.
unfoldable pub get_suggested_files : {S : Type 0} → Outside S → ℕ → ℕ → S → Option (List DriveItem)
unfolding suggested_files
get_suggested_files o user_id since s =
    suggested_files (o.items.get (starred_by user_id) s) (o.items.get (recent_of user_id since) s)

-- The storage of all accounts of a user. The share is the used bytes and the capacity, of which the
-- quotient is taken, where the capacity is positive.
pub record StorageSummary : Type 0 where
  pub used_bytes : ℤ
  pub total_bytes : ℤ
  pub used_human : Option Text
  pub total_human : Option Text
  pub share : Option (ℤ × ℤ)

unfoldable pub total_used : ℤ → List CloudAccount → ℤ
total_used sum [] = sum
total_used sum (a ∷ accounts) = total_used (sum +₆₄ a.used_storage) accounts

unfoldable pub total_capacity : ℤ → List CloudAccount → ℤ
total_capacity sum [] = sum
total_capacity sum (a ∷ accounts) = total_capacity (sum +₆₄ a.total_storage) accounts

unfoldable pub storage_summary : (ℕ → ℕ → Text) → List CloudAccount → StorageSummary
unfolding total_used total_capacity
storage_summary one_decimal accounts =
    let used = total_used (pos 0) accounts in
    let capacity = total_capacity (pos 0) accounts in
    record {
      used_bytes = used;
      total_bytes = capacity;
      used_human = humanize_bytes one_decimal used;
      total_human = humanize_bytes one_decimal capacity;
      share = if ltb_ℤ (pos 0) capacity then some (used, capacity) else none;
    }
