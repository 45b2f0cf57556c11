-- ===== src/Tests/Api.antt =====
-- Runs of the handlers of the controllers and of the synchronisation job.
use ponta_drive_api.Base.{◌≡◌, refl, ℕ, true, false, none, some, List, [], ◌∷◌, ◌⊎◌}
use ponta_drive_api.Base.Int.{pos, ◌+ℤ◌}
use ponta_drive_api.Base.Text.{Text, text, same, trim_space}
use ponta_drive_api.Models.{DriveItem, S3Credentials}
use ponta_drive_api.Service.{Error, Driver, State}
use ponta_drive_api.Service.Factory.{get_credentials}
use ponta_drive_api.Web.{payload, unreadable, ended}
use ponta_drive_api.Auth.{User}
use ponta_drive_api.Accounts.{no_credentials}
use ponta_drive_api.Accounts.Views.{account_view, account_view_hides_secret}
use ponta_drive_api.Api.{ApiWorld, Caller}
use ponta_drive_api.Api.Items.{
  store_folder, show, breadcrumb_handler, update, star, destroy, download, preview,
}
use ponta_drive_api.Api.Content.{content}
use ponta_drive_api.Api.Uploads.{
  PartRequest, initiate_presigned, complete_presigned, init_multipart, upload_part_handler,
  complete_multipart_handler, abort_multipart_handler,
}
use ponta_drive_api.Api.Sync.{uint_arg, id_arg, scanned, scan_failed, handle, handle_releases}
use ponta_drive_api.Api.Guard.{Refused, item_handlers_refuse, upload_handlers_refuse}
use ponta_drive_api.Tests.Server.{item_at, file_at}
use ponta_drive_api.Tests.Codecs.{write_credentials, read-write_credentials}
use ponta_drive_api.Tests.World.{world, world_over, items_table, home, no_objects}
use ponta_drive_api.Tests.Server.{small_server}
use ponta_drive_api.Tests.Codecs.{small_codec}
use ponta_drive_api.Base.{select, Bool-cases, inl, inr, sym, ap, subst, if◌then◌else◌}
use ponta_drive_api.Base.Order.Sort.{sort}
use ponta_drive_api.Models.{CloudAccount}
use ponta_drive_api.Service.{Outside}
use ponta_drive_api.Service.Factory.{ensure_cloud_account_ownership}
use ponta_drive_api.Service.Drivers.{Answers}
use ponta_drive_api.Listing.Query.{
  index_page, page_at, page_of, page_with, next_token, page_limit, list_items, filter_holds,
  past_cursor, decode_drive_cursor,
}
use ponta_drive_api.Api.{item_view, signed_in}
use ponta_drive_api.Api.Sync.{to_uint}
use ponta_drive_api.Api.Listing.{
  IndexQuery, index, listed_account, listed_folder, account_page, listed_page,
}
use ponta_drive_api.Api.Pages.{OwnPage, index-OwnPage}

-- The status of an account stands as the name of a row in front of the others.
abbrev api_world : ApiWorld (List DriveItem)
api_world = record {
  outside = world;
  activities = record {
    first = λ q s. none;
    get = λ q s. some [];
    create = λ x s. (some x, s);
    save = λ x s. (false, s);
    delete = λ q s. (false, s);
    force_delete = λ q s. (false, s);
  };
  encode_metadata = λ m. some (text "{}");
  set_sync_status = λ account_id status now s. item_at 0 none status [] 0 none ∷ s;
}

abbrev status_of : List DriveItem → ℕ → Text
status_of [] n = []
status_of (x ∷ xs) n = x.name

abbrev song : DriveItem
song = file_at 3 none (text "song") 9 none

abbrev three_bytes : Driver (List DriveItem)
three_bytes = record no_objects { get_range = λ k a b s. (some (text "ong", pos 9), s) }

abbrev server : State (List DriveItem)
server = record { outside = song ∷ []; drivers = (1, three_bytes) ∷ [] }

handle_releases_example :
    (((count : ℕ) × ((handle api_world 3 (uint_arg 1 ∷ uint_arg 1 ∷ []) server).0 ≡ scanned count))
      × (status_of
            ((handle api_world 3 (uint_arg 1 ∷ uint_arg 1 ∷ []) server).1).outside
            (id_arg (uint_arg 1))
          ≡ text "idle"))
    ⊎ (((e : Error) × ((handle api_world 3 (uint_arg 1 ∷ uint_arg 1 ∷ []) server).0
            ≡ scan_failed e))
        × (status_of
              ((handle api_world 3 (uint_arg 1 ∷ uint_arg 1 ∷ []) server).1).outside
              (id_arg (uint_arg 1))
            ≡ text "error"))
handle_releases_example =
    handle_releases api_world status_of (λ a t now s. refl) (λ row s n. refl) 3 (uint_arg 1)
      (uint_arg 1) [] server

abbrev user_one : User
user_one = record {
  id = 1;
  created_at = none;
  updated_at = none;
  uuid = [];
  name = [];
  username = [];
  email = [];
  password = [];
  avatar = [];
}

abbrev caller_one : Caller
caller_one = record { user = some user_one; ip = []; agent = [] }

abbrev nobody : Caller
nobody = record { user = none; ip = []; agent = [] }

abbrev home_page : IndexQuery
home_page = record {
  cloud_account_id = pos 0;
  parent_uuid = [];
  search = [];
  item_type = text "all";
  sort = text "name";
  order = text "asc";
  limit = pos 50;
  cursor = [];
}

-- The world, with a query for several items that answers with the rows that meet its condition.
abbrev listing_world : Outside (List DriveItem)
listing_world = world_over (record items_table { get = λ q s. some (select q s) })

account_answers : Answers (λ (a : CloudAccount). a.id) listing_world.accounts
account_answers q s a h = elim (Bool-cases (q home)) [
  | inl hit ↦
      let there : some home ≡ some a =
        subst (λ b. some (if b then home else record home { id = 0 }) ≡ some a) hit h in
      let same : home ≡ a = cc in inr (subst (λ x. q x ≡ true) same hit)
  | inr miss ↦
      let there : some (record home { id = 0 }) ≡ some a =
        subst (λ b. some (if b then home else record home { id = 0 }) ≡ some a) miss h in
      let same : record home { id = 0 } ≡ a = cc in inl (sym (ap (λ (x : CloudAccount). x.id) same))
]

lists_song : ended (index listing_world small_server small_codec caller_one home_page server) ≡ (
  payload 200 (record { items = item_view song ∷ []; has_more = false; next_cursor = [] }),
  server,
)
unfolding index listed_account to_uint ensure_cloud_account_ownership listed_folder account_page
    signed_in listed_page index_page page_at page_of page_with next_token page_limit list_items
    filter_holds past_cursor decode_drive_cursor same trim_space sort ◌+ℤ◌
lists_song = refl

index-OwnPage_example :
    OwnPage listing_world small_server small_codec caller_one account_answers home_page server
      (record { items = item_view song ∷ []; has_more = false; next_cursor = [] })
    × (server ≡ server)
index-OwnPage_example =
    index-OwnPage listing_world small_server small_codec caller_one account_answers home_page server
      server (record { items = item_view song ∷ []; has_more = false; next_cursor = [] }) lists_song

item_handlers_refuse_example :
    Refused (ended (index world small_server small_codec nobody home_page server)) server
    × Refused (ended (store_folder api_world nobody unreadable server)) server
    × Refused (ended (show api_world nobody (3 ∷ []) server)) server
    × Refused (ended (breadcrumb_handler api_world nobody (3 ∷ []) server)) server
    × Refused (ended (update api_world nobody (3 ∷ []) unreadable (text "a") server)) server
    × Refused (ended (star api_world nobody (3 ∷ []) server)) server
    × Refused (ended (destroy api_world nobody 5 (3 ∷ []) true server)) server
    × Refused (ended (download api_world nobody (3 ∷ []) (text "json") server)) server
    × Refused (ended (preview api_world nobody (3 ∷ []) server)) server
    × Refused (content api_world nobody (3 ∷ []) (text "bytes=1-3") server) server
item_handlers_refuse_example =
    item_handlers_refuse api_world nobody server refl unreadable unreadable (3 ∷ []) (text "a")
      (text "json") (text "bytes=1-3") 5 true small_server small_codec home_page

abbrev part : PartRequest
part = record {
  session_input = text "s";
  session_query = [];
  number_input = text "1";
  number_query = [];
  form_file = none;
  request_body = some (text "ong", pos 3);
}

upload_handlers_refuse_example :
    Refused (ended (initiate_presigned api_world nobody unreadable server)) server
    × Refused (ended (complete_presigned api_world nobody unreadable server)) server
    × Refused (ended (init_multipart api_world nobody unreadable server)) server
    × Refused (ended (upload_part_handler api_world nobody part server)) server
    × Refused (ended (complete_multipart_handler api_world nobody unreadable server)) server
    × Refused (ended (abort_multipart_handler api_world nobody (text "s") [] server)) server
upload_handlers_refuse_example =
    upload_handlers_refuse api_world nobody server refl unreadable unreadable unreadable part
      (text "s") []

home_credentials : get_credentials world home ≡ some no_credentials
unfolding get_credentials
home_credentials = read-write_credentials no_credentials

abbrev keyed : S3Credentials
keyed = record no_credentials { secret_access_key = text "key" }

keyed_credentials :
    get_credentials world (record home { credentials = 1 ∷ write_credentials keyed }) ≡ some keyed
unfolding get_credentials
keyed_credentials = read-write_credentials keyed

account_view_hides_secret_example :
    account_view world home
    ≡ account_view world (record home { credentials = 1 ∷ write_credentials keyed })
account_view_hides_secret_example =
    account_view_hides_secret world home no_credentials (1 ∷ write_credentials keyed) (text "key")
      home_credentials keyed_credentials
