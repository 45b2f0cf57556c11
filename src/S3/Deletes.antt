-- ===== src/S3/Deletes.antt =====
-- `Delete`, and `DeleteObjects` in batches of 1000 keys.
use ponta_drive_api.Base.{
  ℕ, zero, suc, Bool, true, false, not, List, [], ◌∷◌, length, take, drop, select, ltb,
}
use ponta_drive_api.Base.Text.{Text, is_empty, trim_space}
use ponta_drive_api.S3.{Reply, output, failure, Client, succeeded}

abbrev pub batch_size : ℕ
batch_size = 1000

-- `strings.TrimSpace(k) == ""` is skipped.
abbrev pub has_text : Text → Bool
has_text key = not (is_empty (trim_space key))

-- No error, and no key that was not deleted.
unfoldable pub all_deleted : Reply ℕ → Bool
all_deleted (output errors) = not (ltb 0 errors)
all_deleted (failure e) = false

module _ {S : Type 0} (client : Client S) (bucket : Text) where
  -- `Delete`
  unfoldable pub delete_object : Text → S → Bool × S
  unfolding succeeded
  delete_object key s = let (reply, s') = client.delete_object bucket key s in (succeeded reply, s')

  -- One batch; none of its keys may have a text.
  unfoldable pub delete_batch : List Text → S → Bool × S
  unfolding all_deleted
  delete_batch [] s = (true, s)
  delete_batch (key ∷ keys) s =
      let (reply, s') = client.delete_objects bucket (key ∷ keys) s in (all_deleted reply, s')

  -- The loop, with fuel for its rounds, which it leaves at the first error.
  unfoldable pub delete_batches : ℕ → List Text → S → Bool × S
  unfolding delete_batch
  delete_batches fuel [] s = (true, s)
  delete_batches zero (key ∷ keys) s = (true, s)
  delete_batches (suc fuel) (key ∷ keys) s =
      let (done, s') = delete_batch (select has_text (take batch_size (key ∷ keys))) s in
      elim done [
        | true ↦ delete_batches fuel (drop batch_size (key ∷ keys)) s'
        | false ↦ (false, s')
      ]

  -- `DeleteObjects`
  unfoldable pub delete_objects : List Text → S → Bool × S
  unfolding delete_batches
  delete_objects keys s = delete_batches (length keys) keys s
