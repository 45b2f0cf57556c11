-- ===== src/Api.antt =====
-- What the controllers of app/http/controllers share beyond Web: the caller, the activity log of
-- app/services/activity_service.go, and the calls of the drive service.
pub mod Items
pub mod Content
pub mod Uploads
pub mod Sync
pub mod Guard
pub mod Listing
pub mod Pages
pub mod Origin
use ponta_drive_api.Base.{
  ◌≡◌, refl, ap, ◌∙◌, ℕ, Bool, true, false, Option, none, some, List, ◌++◌, ◌||◌, ◌==◌, not,
  if◌then◌else◌,
}
use ponta_drive_api.Base.Int.{ℤ}
use ponta_drive_api.Base.Text.{Text, text}
use ponta_drive_api.Models.{DriveItem}
use ponta_drive_api.Service.{Table, Outside, Error, Outcome, ok, err, State, Action, found}
use ponta_drive_api.Web.{Response, failed, Step, go, stop, Handler, or_answer}
use ponta_drive_api.Auth.{User}

pub record ActivityLog : Type 0 where
  pub id : ℕ
  pub user_id : ℕ
  pub action : Text
  pub target_name : Text
  pub target_uuid : Option Text
  pub cloud_account_id : Option ℕ
  pub ip_address : Text
  pub user_agent : Text
  pub metadata : Option Text

-- The maps that the program passes as metadata.
pub data Metadata : Type 0 where
  permanent_flag : Bool → Metadata
  size_and_mime : ℤ → Text → Metadata
  items_count : ℕ → Metadata

-- `encode_metadata` is the JSON encoder; `set_sync_status` is the update of the columns sync_status
-- and, where it is given, last_synced_at of an account, whose error is ignored.
pub record ApiWorld (S : Type 0) : Type 0 where
  pub outside : Outside S
  pub activities : Table S ActivityLog
  pub encode_metadata : Metadata → Option Text
  pub set_sync_status : ℕ → Text → Bool → S → S

-- What `Log` is told.
pub record Activity : Type 0 where
  pub user_id : ℕ
  pub cloud_account_id : ℕ
  pub action : Text
  pub target_name : Text
  pub target_uuid : Option Text
  pub ip_address : Text
  pub user_agent : Text
  pub metadata : Option Metadata

-- The user that the middleware left in the context, the IP address and the user agent.
pub record Caller : Type 0 where
  pub user : Option User
  pub ip : Text
  pub agent : Text

-- `ToResponse` of app/models/drive_item.go
pub record ItemView : Type 0 where
  pub uuid : Text
  pub cloud_account_id : ℕ
  pub name : Text
  pub item_type : Text
  pub mime_type : Text
  pub size : ℤ
  pub extension : Text
  pub storage_path : Text
  pub etag : Text
  pub is_starred : Bool
  pub status : Text
  pub created_at : Option ℕ
  pub updated_at : Option ℕ

unfoldable pub item_view : DriveItem → ItemView
item_view d = record {
  uuid = d.uuid;
  cloud_account_id = d.cloud_account_id;
  name = d.name;
  item_type = d.item_type;
  mime_type = d.mime_type;
  size = d.size;
  extension = d.extension;
  storage_path = d.storage_path;
  etag = d.etag;
  is_starred = d.is_starred;
  status = d.status;
  created_at = d.created_at;
  updated_at = d.updated_at;
}

-- `failResponse`, which keeps the error to itself
unfoldable pub fail_with : {D : Type 0} → ℕ → Text → Error → Response D
fail_with status key e = failed status key

module _ {S D : Type 0} where
  -- A call of the service, with the answer that its error gets.
  abbrev pub call : {A : Type 0} → Action S A → (Error → Response D) → Handler (State S) D A
  call m on_error s =
      let (r, s') = m s in elim r [ ok a ↦ (go a, s') | err e ↦ (stop (on_error e), s') ]

  -- `user, ok := ctx.Value("user").(models.User); !ok || user.ID == 0`
  unfoldable pub signed_in : Caller → Handler (State S) D User
  signed_in caller =
      or_answer (found (λ u. u.id) caller.user) (failed 401 (text "common.unauthorized"))

module _ {S : Type 0} (w : ApiWorld S) where
  unfoldable pub log_row : Activity → Option Text → ActivityLog
  log_row a metadata = record {
    id = 0;
    user_id = a.user_id;
    action = a.action;
    target_name = a.target_name;
    target_uuid = a.target_uuid;
    cloud_account_id = some a.cloud_account_id;
    ip_address = a.ip_address;
    user_agent = a.user_agent;
    metadata = metadata;
  }

  abbrev created : Option ActivityLog × S → Bool × S
  created (none, s) = (false, s)
  created (some row, s) = (true, s)

  abbrev log_encoded : Activity → Option Text → S → Bool × S
  log_encoded a none s = (false, s)
  log_encoded a (some metadata) s = created (w.activities.create (log_row a (some metadata)) s)

  -- `Log`
  abbrev log_with : Activity → Option Metadata → S → Bool × S
  log_with a none s = created (w.activities.create (log_row a none) s)
  log_with a (some m) s = log_encoded a (w.encode_metadata m) s

  unfoldable pub log : Activity → S → Bool × S
  unfolding log_row
  log a s = log_with a a.metadata s

  created-state : (r : Option ActivityLog × S) → (created r).1 ≡ r.1
  created-state (none, s) = refl
  created-state (some row, s) = refl

  -- The log changes nothing but what the creation of a row changes.
  pub log_keeps :
      {B : Type 0} (view : S → ℕ → B)
      → ((row : ActivityLog) (s : S) (n : ℕ) → view ((w.activities.create row s).1) n ≡ view s n)
      → (a : Activity) (s : S) (n : ℕ) → view ((log a s).1) n ≡ view s n
  unfolding log
  log_keeps view keeps a s n = with_metadata a.metadata
    where
      encoded : (m : Option Text) → view ((log_encoded a m s).1) n ≡ view s n
      encoded none = refl
      encoded (some m) =
          ap (λ t. view t n) (created-state (w.activities.create (log_row a (some m)) s))
          ∙ keeps (log_row a (some m)) s n

      with_metadata : (m : Option Metadata) → view ((log_with a m s).1) n ≡ view s n
      with_metadata none =
          ap (λ t. view t n) (created-state (w.activities.create (log_row a none) s))
          ∙ keeps (log_row a none) s n
      with_metadata (some m) = encoded (w.encode_metadata m)

  -- `LogSafe`
  unfoldable pub log_safe : {D : Type 0} → Activity → Handler (State S) D (Unit {0})
  unfolding log
  log_safe a s = (go tt, record s { outside = (log a s.outside).1 })

-- An activity of a user on an item.
unfoldable pub on_item : Caller → User → Text → Text → DriveItem → Option Metadata → Activity
on_item caller user action target_name item metadata = record {
  user_id = user.id;
  cloud_account_id = item.cloud_account_id;
  action = action;
  target_name = target_name;
  target_uuid = some item.uuid;
  ip_address = caller.ip;
  user_agent = caller.agent;
  metadata = metadata;
}
