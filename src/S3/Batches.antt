-- ===== src/S3/Batches.antt =====
-- `DeleteObjects` of app/services/storage/s3_driver.go against the keys that the bucket stores.
use ponta_drive_api.Base.{
  ◌≡◌, refl, ◌∙◌, ap, ℕ, zero, suc, ◌≤◌, ◌<◌, Bool, true, false, not, ◌&&◌, ◌||◌, List, [], ◌∷◌,
  ◌++◌, length, take, drop, select, arith, inl, inr, Bool-cases, length-drop, length-take-le,
  length-select-le, take-append-drop,
}
use ponta_drive_api.Base.Text.{Text, same}
use ponta_drive_api.S3.{output, Client}
use ponta_drive_api.S3.Deletes.{
  batch_size, has_text, all_deleted, delete_batch, delete_batches, delete_objects,
}

-- Whether a key is among some keys.
unfoldable pub among : Text → List Text → Bool
among key [] = false
among key (k ∷ ks) = same key k || among key ks

-- The keys that are left when some are removed.
abbrev pub removed : (Text → Bool) → List Text → Text → Bool
removed stored keys key = stored key && not (among key keys)

pub among-append :
    (key : Text) (ks ls : List Text) → among key (ks ++ ls) ≡ (among key ks || among key ls)
unfolding among
among-append key [] ls = refl
among-append key (k ∷ ks) ls = ground (arith, among-append key ks ls)

select-append :
    {A : Type 0} (p : A → Bool) (xs ys : List A) → select p (xs ++ ys) ≡ select p xs ++ select p ys
select-append p [] ys = refl
select-append p (x ∷ xs) ys = elim (Bool-cases (p x)) [
  | inl e ↦ rw e (ap (λ t. x ∷ t) (select-append p xs ys))
  | inr e ↦ rw e (select-append p xs ys)
]

-- The batch and what is behind it have the keys of the whole list.
among-split :
    (n : ℕ) (key : Text) (ks : List Text)
    → (among key (select has_text (take n ks)) || among key (select has_text (drop n ks)))
      ≡ among key (select has_text ks)
among-split n key ks =
    let whole = take-append-drop n ks in
    let parts = select-append has_text (take n ks) (drop n ks) in
    let both = among-append key (select has_text (take n ks)) (select has_text (drop n ks)) in
    let joined : select has_text (take n ks) ++ select has_text (drop n ks) ≡ select has_text ks =
      cc in
    cc

removed_twice : (b c d e : Bool) → (c || d) ≡ e → ((b && not c) && not d) ≡ (b && not e)
removed_twice b c d e h = ground arith

removed_none : (b : Bool) → b ≡ (b && not false)
removed_none true = refl
removed_none false = refl

module _ {S : Type 0} (client : Client S) (bucket : Text) (stored : S → Text → Bool)
    (answers : (keys : List Text) (s : S)
      → 0 < length keys
      → length keys ≤ batch_size
      → (client.delete_objects bucket keys s).0 ≡ output 0)
    (removes : (keys : List Text) (s : S)
      → 0 < length keys
      → length keys ≤ batch_size
      → (key : Text)
      → stored ((client.delete_objects bucket keys s).1) key ≡ removed (stored s) keys key) where
  batch_done :
      (keys : List Text) (s : S)
      → length keys ≤ batch_size
      → (delete_batch client bucket keys s).0 ≡ true
  unfolding delete_batch all_deleted
  batch_done [] s h = refl
  batch_done (k ∷ ks) s h = rw (answers (k ∷ ks) s (omega arith) h) refl

  batch_removes :
      (keys : List Text) (s : S)
      → length keys ≤ batch_size
      → (key : Text)
      → stored ((delete_batch client bucket keys s).1) key ≡ removed (stored s) keys key
  unfolding delete_batch among
  batch_removes [] s h key = removed_none (stored s key)
  batch_removes (k ∷ ks) s h key = removes (k ∷ ks) s (omega arith) h key

  batch_fits : (keys : List Text) → length (select has_text (take batch_size keys)) ≤ batch_size
  batch_fits keys =
      omega
        (arith, length-select-le has_text (take batch_size keys), length-take-le batch_size keys)

  rest_fits :
      (fuel : ℕ) (k : Text) (ks : List Text)
      → length (k ∷ ks) ≤ suc fuel
      → length (drop batch_size (k ∷ ks)) ≤ fuel
  rest_fits fuel k ks h = omega (arith, length-drop batch_size (k ∷ ks))

  step_done :
      (fuel : ℕ) (k : Text) (ks : List Text) (s : S)
      → delete_batches client bucket (suc fuel) (k ∷ ks) s
        ≡ delete_batches client bucket fuel
            (drop batch_size (k ∷ ks))
            ((delete_batch client bucket (select has_text (take batch_size (k ∷ ks))) s).1)
  unfolding delete_batches
  step_done fuel k ks s =
      rw
        (
          delete_batches,
          batch_done (select has_text (take batch_size (k ∷ ks))) s (batch_fits (k ∷ ks)),
        )
        refl

  batches_done :
      (fuel : ℕ) (keys : List Text) (s : S)
      → length keys ≤ fuel
      → (delete_batches client bucket fuel keys s).0 ≡ true
  unfolding delete_batches
  batches_done fuel [] s h = refl
  batches_done zero (k ∷ ks) s h = absurd (omega arith)
  batches_done (suc fuel) (k ∷ ks) s h =
      let rest = drop batch_size (k ∷ ks) in
      let s' = (delete_batch client bucket (select has_text (take batch_size (k ∷ ks))) s).1 in
      ap (λ run. run.0) (step_done fuel k ks s) ∙ batches_done fuel rest s' (rest_fits fuel k ks h)

  batches_remove :
      (fuel : ℕ) (keys : List Text) (s : S)
      → length keys ≤ fuel
      → (key : Text)
      → stored ((delete_batches client bucket fuel keys s).1) key
        ≡ removed (stored s) (select has_text keys) key
  unfolding delete_batches among
  batches_remove fuel [] s h key = removed_none (stored s key)
  batches_remove zero (k ∷ ks) s h key = absurd (omega arith)
  batches_remove (suc fuel) (k ∷ ks) s h key =
      let batch = select has_text (take batch_size (k ∷ ks)) in
      let rest = drop batch_size (k ∷ ks) in
      let s' = (delete_batch client bucket batch s).1 in
      ap (λ run. stored (run.1) key) (step_done fuel k ks s)
      ∙ batches_remove fuel rest s' (rest_fits fuel k ks h) key
      ∙ ap (λ b. b && not (among key (select has_text rest)))
          (batch_removes batch s (batch_fits (k ∷ ks)) key)
      ∙ removed_twice (stored s key) (among key batch) (among key (select has_text rest))
          (among key (select has_text (k ∷ ks))) (among-split batch_size key (k ∷ ks))

  -- When every request that names between one and 1000 keys is answered without an error, and
  -- removes just the keys that it names, `DeleteObjects` succeeds for a list of any length, and
  -- afterwards a key is stored just when it was stored before and is not among the keys of the
  -- list that have a text.
  pub delete_objects-removes :
      (keys : List Text) (s : S)
      → ((delete_objects client bucket keys s).0 ≡ true)
        × ((key : Text)
            → stored ((delete_objects client bucket keys s).1) key
              ≡ removed (stored s) (select has_text keys) key)
  unfolding delete_objects
  delete_objects-removes keys s =
      let enough : length keys ≤ length keys = omega arith in
      (batches_done (length keys) keys s enough, batches_remove (length keys) keys s enough)
