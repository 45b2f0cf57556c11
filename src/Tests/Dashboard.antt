-- ===== src/Tests/Dashboard.antt =====
-- Runs of the dashboard of app/services/dashboard_service.go.
use ponta_drive_api.Base.{
  none, ◌≡◌, refl, ℕ, suc, ◌≤◌, ◌<◌, true, some, List, [], ◌∷◌, ◌++◌, ◌/◌, length, arith,
}
use ponta_drive_api.Base.Int.{pos}
use ponta_drive_api.Base.Text.{Text, text}
use ponta_drive_api.Base.Decimal.{format_nat}
use ponta_drive_api.Base.Order.Sort.{All, sort}
use ponta_drive_api.Models.{DriveItem}
use ponta_drive_api.Web.{failed}
use ponta_drive_api.Dashboard.{get_suggested_files, suggested_files, topped_up}
use ponta_drive_api.Api.{ActivityLog}
use ponta_drive_api.Dashboard.Summary.{Logged, Inputs, compare_logged, get_recent, newest, summary}
use ponta_drive_api.Dashboard.Recent.{AllDiffer, NewestOf, get_recent-NewestOf}
use ponta_drive_api.Dashboard.Sizes.{char_at, power, humanize_bytes, humanize_bytes_lem}
use ponta_drive_api.Dashboard.Suggestions.{Own, get_suggested_files-Own}
use ponta_drive_api.Base.{inr, subst, select}
use ponta_drive_api.Base.Text.{same}
use ponta_drive_api.Dashboard.{compare_recent}
use ponta_drive_api.Listing.Shown.{select_holds}
use ponta_drive_api.Tests.Server.{file_at}
use ponta_drive_api.Tests.Erasure.{list_world}
use ponta_drive_api.Tests.World.{world}

-- The quotient without its decimal.
abbrev rounded : ℕ → ℕ → Text
rounded b div = format_nat (b / div)

humanize_bytes_lem_example :
    (exp : ℕ) × (letter : ℕ) × (char_at exp (text "KMGTPE") ≡ some letter)
    × (power (suc exp) ≤ 1536)
    × (1536 < power (suc (suc exp)))
    × (humanize_bytes rounded (pos 1536)
        ≡ some (rounded 1536 (power (suc exp)) ++ 32 ∷ letter ∷ b'B' ∷ []))
humanize_bytes_lem_example = humanize_bytes_lem rounded 1536 (omega arith) (omega arith)

abbrev letters : List DriveItem
letters =
    record (file_at 1 none (text "a") 9 (some 4)) { is_starred = true }
    ∷ (file_at 2 none (text "b") 9 (some 7) ∷ [])

abbrev first_letters : List DriveItem
first_letters = letters

suggests_letters : get_suggested_files list_world 1 0 letters ≡ some first_letters
unfolding get_suggested_files suggested_files topped_up sort compare_recent same
suggests_letters = refl

get_suggested_files-Own_example : All (Own 1) first_letters × (length first_letters ≤ 8)
get_suggested_files-Own_example =
    get_suggested_files-Own list_world 1 0 letters first_letters
      (λ q rows e.
        let own : select q letters ≡ rows = cc in
        subst (All (λ i. q i ≡ true)) own (select_holds q letters))
      suggests_letters

abbrev entry : ℕ → ActivityLog
entry id = record {
  id = id;
  user_id = 1;
  action = text "upload";
  target_name = text "a.txt";
  target_uuid = none;
  cloud_account_id = none;
  ip_address = text "::1";
  user_agent = [];
  metadata = none;
}

abbrev first_log : Logged
first_log = record { entry = entry 4; created_at = 100 }

abbrev second_log : Logged
second_log = record { entry = entry 5; created_at = 100 }

abbrev two_logs : List Logged
two_logs = first_log ∷ second_log ∷ []

abbrev inputs : Inputs (List DriveItem) Text
inputs = record {
  outside = world;
  logged = λ q s. some two_logs;
  read_metadata = λ t. some t;
  a_week_ago = λ s. 0;
  one_decimal = rounded;
}

recalls_second : get_recent inputs 1 1 [] ≡ some (second_log ∷ [])
unfolding get_recent newest compare_logged sort
recalls_second = refl

two_logs_differ : AllDiffer two_logs
two_logs_differ = ((inr (λ e. absurd (omega arith)), tt), (tt, tt))

get_recent-NewestOf_example : NewestOf 1 two_logs (second_log ∷ [])
get_recent-NewestOf_example =
    get_recent-NewestOf inputs 1 1 [] two_logs (second_log ∷ []) refl two_logs_differ recalls_second

-- Nobody signed in is given a summary.
nobody : summary inputs none [] ≡ failed 401 (text "common.unauthorized")
unfolding summary
nobody = refl
