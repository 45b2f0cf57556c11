-- ===== src/Api/Sync.antt =====
-- `SyncS3BucketJob.Handle` of app/jobs/sync_s3_bucket_job.go.
use ponta_drive_api.Base.{
  ◌≡◌, refl, ◌∙◌, ℕ, ◌-◌, ◌%◌, ◌^◌, Bool, true, false, Option, none, some, List, [], ◌∷◌, ltb, ◌==◌,
  if◌then◌else◌, ◌⊎◌, inl, inr,
}
use ponta_drive_api.Base.Int.{ℤ, pos, negsuc}
use ponta_drive_api.Base.Text.{Text, text}
use ponta_drive_api.Models.{CloudAccount}
use ponta_drive_api.Service.{Action, Error, Outcome, ok, err, State}
use ponta_drive_api.Service.Scan.{scan_bucket}
use ponta_drive_api.Api.{items_count, ApiWorld, Activity, log, log_keeps, ActivityLog}

-- An argument of a job: a `uint`, an `int` or `int64`, a `float64` with a whole value from 0 on, a
-- `*uint`, `nil`, or anything else.
pub data JobArg : Type 0 where
  uint_arg : ℕ → JobArg
  int_arg : ℤ → JobArg
  float_arg : ℕ → JobArg
  pointer_arg : Option ℕ → JobArg
  nil_arg : JobArg
  other_arg : JobArg

-- `uint(v)` of an int64
unfoldable pub to_uint : ℤ → ℕ
to_uint (pos n) = n % 2 ^ 64
to_uint (negsuc n) = 2 ^ 64 - 1 - n % 2 ^ 64

-- The first two arguments; 0 where the type is none of the listed.
unfoldable pub id_arg : JobArg → ℕ
unfolding to_uint
id_arg (uint_arg n) = n
id_arg (int_arg z) = to_uint z
id_arg (float_arg n) = n
id_arg (pointer_arg p) = 0
id_arg nil_arg = 0
id_arg other_arg = 0

-- The third argument.
unfoldable pub parent_arg : JobArg → Option ℕ
parent_arg (uint_arg n) = if ltb 0 n then some n else none
parent_arg (int_arg z) = none
parent_arg (float_arg n) = if ltb 0 n then some n else none
parent_arg (pointer_arg p) = p
parent_arg nil_arg = none
parent_arg other_arg = none

abbrev pub parent_among : List JobArg → Option ℕ
parent_among [] = none
parent_among (arg ∷ rest) = parent_arg arg

-- `Handle` of too few arguments does nothing.
pub data JobResult : Type 0 where
  insufficient : JobResult
  scanned : ℕ → JobResult
  scan_failed : Error → JobResult

module _ {S : Type 0} (w : ApiWorld S) where
  abbrev name_or_empty : Option CloudAccount → Text
  name_or_empty none = []
  name_or_empty (some account) = account.name

  unfoldable pub synced_activity : ℕ → ℕ → Text → ℕ → Activity
  synced_activity user_id account_id name count = record {
    user_id = user_id;
    cloud_account_id = account_id;
    action = text "synced";
    target_name = name;
    target_uuid = none;
    ip_address = text "system";
    user_agent = text "Queue Worker";
    metadata = some (items_count count);
  }

  -- The deferred function, behind a scan.
  unfoldable pub finish_sync : ℕ → ℕ → Outcome ℕ × State S → JobResult × State S
  unfolding synced_activity log
  finish_sync user_id account_id (err e, s) = (
    scan_failed e,
    record s { outside = w.set_sync_status account_id (text "error") false s.outside },
  )
  finish_sync user_id account_id (ok count, s) =
      let released = w.set_sync_status account_id (text "idle") true s.outside in
      let name = name_or_empty ((w.outside).accounts.first (λ a. a.id == account_id) released) in
      (
        scanned count,
        record s { outside = (log w (synced_activity user_id account_id name count) released).1 },
      )

  -- `ScanBucket` of a service that has just been made, whose cache of drivers is empty. The caches of
  -- the other services stay as they are.
  unfoldable pub scan_anew : ℕ → ℕ → ℕ → Option ℕ → Action S ℕ
  scan_anew user_id account_id fuel parent s =
      let (out, s') =
        scan_bucket w.outside user_id account_id fuel parent (record s { drivers = [] }) in
      (out, record s { outside = s'.outside })

  -- `Handle`, with the fuel of `ScanBucket`
  unfoldable pub handle : ℕ → List JobArg → State S → JobResult × State S
  unfolding id_arg parent_arg finish_sync scan_anew
  handle fuel [] s = (insufficient, s)
  handle fuel (user ∷ []) s = (insufficient, s)
  handle fuel (user ∷ account ∷ rest) s =
      finish_sync (id_arg user) (id_arg account)
        (scan_anew (id_arg user) (id_arg account) fuel (parent_among rest) s)

  finish_sync_lem :
      (status : S → ℕ → Text)
      → ((account_id : ℕ) (t : Text) (now : Bool) (s : S)
          → status (w.set_sync_status account_id t now s) account_id ≡ t)
      → ((row : ActivityLog) (s : S) (n : ℕ)
          → status ((w.activities.create row s).1) n ≡ status s n)
      → (user_id account_id : ℕ) (out : Outcome ℕ × State S)
      → (((count : ℕ) × ((finish_sync user_id account_id out).0 ≡ scanned count))
          × (status ((finish_sync user_id account_id out).1).outside account_id ≡ text "idle"))
        ⊎ (((e : Error) × ((finish_sync user_id account_id out).0 ≡ scan_failed e))
            × (status ((finish_sync user_id account_id out).1).outside account_id ≡ text "error"))
  unfolding finish_sync
  finish_sync_lem status sets keeps user_id account_id (err e, s) =
      inr ((e, refl), sets account_id (text "error") false s.outside)
  finish_sync_lem status sets keeps user_id account_id (ok count, s) =
      let released = w.set_sync_status account_id (text "idle") true s.outside in
      let name = name_or_empty ((w.outside).accounts.first (λ a. a.id == account_id) released) in
      inl (
        (count, refl),
        log_keeps w status keeps (synced_activity user_id account_id name count) released account_id
            ∙ sets account_id (text "idle") true s.outside,
      )

  -- However the scan ends, an error included: where the update of the status of an account takes
  -- effect and the activity log does not touch it, the account is idle after a job whose scan
  -- succeeded and in error after one whose scan failed, and so never left at syncing.
  pub handle_releases :
      (status : S → ℕ → Text)
      → ((account_id : ℕ) (t : Text) (now : Bool) (s : S)
          → status (w.set_sync_status account_id t now s) account_id ≡ t)
      → ((row : ActivityLog) (s : S) (n : ℕ)
          → status ((w.activities.create row s).1) n ≡ status s n)
      → (fuel : ℕ) (user account : JobArg) (rest : List JobArg) (s : State S)
      → (((count : ℕ) × ((handle fuel (user ∷ account ∷ rest) s).0 ≡ scanned count))
          × (status ((handle fuel (user ∷ account ∷ rest) s).1).outside (id_arg account)
              ≡ text "idle"))
        ⊎ (((e : Error) × ((handle fuel (user ∷ account ∷ rest) s).0 ≡ scan_failed e))
            × (status ((handle fuel (user ∷ account ∷ rest) s).1).outside (id_arg account)
                ≡ text "error"))
  unfolding handle
  handle_releases status sets keeps fuel user account rest s =
      let out = scan_anew (id_arg user) (id_arg account) fuel (parent_among rest) s in
      finish_sync_lem status sets keeps (id_arg user) (id_arg account) out
