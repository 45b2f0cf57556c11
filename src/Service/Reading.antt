-- ===== src/Service/Reading.antt =====
-- Whose files the service reads.
use ponta_drive_api.Base.{
  ℕ, ◌≡◌, ap, subst, ◌⊎◌, inl, inr, true, false, arith, Bool-cases, Option-cases,
}
use ponta_drive_api.Base.Text.{Text, same}
use ponta_drive_api.Models.{DriveItem, is_folder}
use ponta_drive_api.Service.{
  Driver, Outside, Error, ok, State, found_item, folder_stream, folder_download,
}
use ponta_drive_api.Service.Items.{with_uuid, get_item_by_uuid}
use ponta_drive_api.Service.Factory.{get_driver}
use ponta_drive_api.Service.Runs.{Outcome-cases, found-some}
use ponta_drive_api.Service.Drivers.{Answers}
use ponta_drive_api.Service.Downloads.{open_file, get_presigned_download_url, get_item_stream}

-- A file of the user, under the identifier that was asked for.
abbrev pub IsOwnFile : ℕ → Text → DriveItem → Type 0
IsOwnFile user_id item_uuid item =
    (item.user_id ≡ user_id) × (same item.uuid item_uuid ≡ true) × (is_folder item ≡ false)

module _ {S : Type 0} (o : Outside S) where
  open_file-IsOwnFile :
      (user_id : ℕ) (item_uuid : Text) (e : Error) (s s' : State S) (item : DriveItem)
      (d : Driver S)
      → Answers (λ i. i.id) o.items
      → open_file o user_id item_uuid e s ≡ (ok (item, d), s')
      → IsOwnFile user_id item_uuid item
  unfolding open_file get_item_by_uuid
  open_file-IsOwnFile user_id item_uuid e s s' item d answers h =
      elim (Option-cases (found_item (o.items.first (with_uuid user_id item_uuid) s.outside))) [
        | inl missing ↦ absurd (ground arith)
        | inr (row, at) ↦ elim (Bool-cases (is_folder row)) [
          | inl folder ↦ absurd (ground arith)
          | inr file ↦ elim (Outcome-cases (get_driver o user_id row.cloud_account_id s).0) [
            | inl (opened, okay) ↦
                let same_row : row ≡ item = ground arith in
                let (answered, saved) = found-some (λ (i : DriveItem). i.id) _ row at in
                elim (answers _ s.outside row answered) [
                  | inl zero_id ↦ absurd (ground arith)
                  | inr owned ↦ ground arith
                ]
            | inr (e', failed) ↦ absurd (ground arith)
          ]
        ]
      ]

  opened-IsOwnFile :
      (user_id : ℕ) (item_uuid : Text) (e : Error) (s : State S) (item : DriveItem) (d : Driver S)
      → Answers (λ i. i.id) o.items
      → (open_file o user_id item_uuid e s).0 ≡ ok (item, d)
      → IsOwnFile user_id item_uuid item
  opened-IsOwnFile user_id item_uuid e s item d answers h =
      open_file-IsOwnFile user_id item_uuid e s (open_file o user_id item_uuid e s).1 item d answers
        (ap (λ r. (r, (open_file o user_id item_uuid e s).1)) h)

  stream-IsOwnFile :
      (user_id : ℕ) (item_uuid body : Text) (s s' : State S) (item : DriveItem)
      → Answers (λ i. i.id) o.items
      → get_item_stream o user_id item_uuid s ≡ (ok (body, item), s')
      → IsOwnFile user_id item_uuid item
  unfolding get_item_stream
  stream-IsOwnFile user_id item_uuid body s s' item answers h =
      elim (Outcome-cases (open_file o user_id item_uuid folder_stream s).0) [
        | inl ((row, d), okay) ↦
            let same_row : row ≡ item = ground arith in
            subst (IsOwnFile user_id item_uuid) same_row
              (opened-IsOwnFile user_id item_uuid folder_stream s row d answers okay)
        | inr (e, failed) ↦ absurd (ground arith)
      ]

  download-IsOwnFile :
      (user_id : ℕ) (item_uuid url : Text) (expire : ℕ) (s s' : State S) (item : DriveItem)
      → Answers (λ i. i.id) o.items
      → get_presigned_download_url o user_id item_uuid expire s ≡ (ok (url, item), s')
      → IsOwnFile user_id item_uuid item
  unfolding get_presigned_download_url
  download-IsOwnFile user_id item_uuid url expire s s' item answers h =
      elim (Outcome-cases (open_file o user_id item_uuid folder_download s).0) [
        | inl ((row, d), okay) ↦
            let same_row : row ≡ item = ground arith in
            subst (IsOwnFile user_id item_uuid) same_row
              (opened-IsOwnFile user_id item_uuid folder_download s row d answers okay)
        | inr (e, failed) ↦ absurd (ground arith)
      ]

  -- A download URL or a stream is only ever handed out for an item of the user that asks, with the
  -- identifier that was asked for, and never for a folder. The table of items answers a query with
  -- a row that meets its conditions, or with the zero value.
  pub reads_own_files :
      (user_id : ℕ) (item_uuid : Text) (expire : ℕ) (s s' : State S) (text : Text)
      (item : DriveItem)
      → Answers (λ i. i.id) o.items
      → (get_presigned_download_url o user_id item_uuid expire s ≡ (ok (text, item), s'))
        ⊎ (get_item_stream o user_id item_uuid s ≡ (ok (text, item), s'))
      → IsOwnFile user_id item_uuid item
  reads_own_files user_id item_uuid expire s s' text item answers (inl h) =
      download-IsOwnFile user_id item_uuid text expire s s' item answers h
  reads_own_files user_id item_uuid expire s s' text item answers (inr h) =
      stream-IsOwnFile user_id item_uuid text s s' item answers h
