-- ===== src/Accounts/Laws.antt =====
-- What an update of an account keeps.
use ponta_drive_api.Base.{
  Bool, true, Option, none, ◌⊎◌, ◌≡◌, refl, inl, inr, false, some, arith, if◌then◌else◌, Bool-cases,
}
use ponta_drive_api.Base.Text.{Text, is_empty}
use ponta_drive_api.Models.{CloudAccount, S3Credentials}
use ponta_drive_api.Service.{Outside}
use ponta_drive_api.Service.Factory.{get_credentials}
use ponta_drive_api.Accounts.{
  UpdateRequest, AccountTools, mentions_credentials, set_credentials, update_credentials,
  merge_account, merge_credentials, no_credentials, set_or, given,
}

-- Credentials that are written and encrypted are decrypted and read back.
pub record CryptLaws {S : Type 0} (o : Outside S) (tools : AccountTools S) : Type 0 where
  pub round_trip :
      (creds : S3Credentials)
      → (plain cipher : Text) × (tools.write_credentials creds ≡ some plain)
        × (tools.encrypt plain ≡ some cipher)
        × (is_empty cipher ≡ false)
        × (o.decrypt cipher ≡ some plain)
        × (o.read_credentials plain ≡ some creds)

-- The credentials that a request makes of old ones: a field that it gives replaces the old one.
abbrev pub Merged : UpdateRequest → S3Credentials → S3Credentials → Type 0
Merged req old new =
    (new.endpoint ≡ (if is_empty req.endpoint then old.endpoint else req.endpoint))
    × (new.bucket ≡ (if is_empty req.bucket then old.bucket else req.bucket))
    × (new.region ≡ (if is_empty req.region then old.region else req.region))
    × (new.access_key_id
        ≡ (if is_empty req.access_key_id then old.access_key_id else req.access_key_id))
    × (new.secret_access_key
        ≡ (if is_empty req.secret_access_key then old.secret_access_key else req.secret_access_key))
    × (new.use_path_style ≡ elim req.use_path_style [ none ↦ old.use_path_style | some b ↦ b ])
    × (new.public_url ≡ (if is_empty req.public_url then old.public_url else req.public_url))

-- The request gives neither a key nor the bucket nor the endpoint.
abbrev pub Silent : UpdateRequest → Type 0
Silent req =
    (is_empty req.access_key_id ≡ true)
    × (is_empty req.secret_access_key ≡ true)
    × (is_empty req.bucket ≡ true)
    × (is_empty req.endpoint ≡ true)

-- The request gives one of them.
abbrev pub Mentioned : UpdateRequest → Type 0
Mentioned req =
    (is_empty req.access_key_id ≡ false)
    ⊎ ((is_empty req.secret_access_key ≡ false)
        ⊎ ((is_empty req.bucket ≡ false) ⊎ (is_empty req.endpoint ≡ false)))

merge_credentials-Merged :
    (req : UpdateRequest) (old : S3Credentials) → Merged req old (merge_credentials req old)
unfolding merge_credentials given set_or
merge_credentials-Merged req old =
    (refl, refl, refl, refl, refl, by_style req.use_path_style old.use_path_style, refl)
  where
    by_style : (o : Option Bool) (b : Bool) → set_or o b ≡ elim o [ none ↦ b | some c ↦ c ]
    by_style none b = refl
    by_style (some c) b = refl

mentions-Silent : (req : UpdateRequest) → mentions_credentials req ≡ false → Silent req
unfolding mentions_credentials
mentions-Silent req h = (ground arith, ground arith, ground arith, ground arith)

mentions-Mentioned : (req : UpdateRequest) → mentions_credentials req ≡ true → Mentioned req
unfolding mentions_credentials
mentions-Mentioned req h = elim (Bool-cases (is_empty req.access_key_id)) [
  | inr a ↦ inl a
  | inl no_id ↦ elim (Bool-cases (is_empty req.secret_access_key)) [
    | inr b ↦ inr (inl b)
    | inl no_secret ↦ elim (Bool-cases (is_empty req.bucket)) [
      | inr c ↦ inr (inr (inl c))
      | inl no_bucket ↦ inr (inr (inr (ground arith)))
    ]
  ]
]

module _ {S : Type 0} (o : Outside S) (tools : AccountTools S) where
  -- Where credentials that are written and encrypted are read back: an update of an account succeeds
  -- up to its write. It keeps the account's id, its user, its provider and the storage that it counts.
  -- With a bucket, an endpoint or a key in the request, the credentials that are read afterwards are
  -- the old ones (empty, where they cannot be read) with each field that the request gives; else
  -- they are as before.
  pub update_credentials_lem :
      (req : UpdateRequest) (account : CloudAccount)
      → CryptLaws o tools
      → (changed : CloudAccount) × (update_credentials o tools req (merge_account req account)
          ≡ some changed)
        × (changed.id ≡ account.id)
        × (changed.user_id ≡ account.user_id)
        × (changed.provider ≡ account.provider)
        × (changed.used_storage ≡ account.used_storage)
        × ((Mentioned req
              × (creds : S3Credentials) × (get_credentials o changed ≡ some creds)
              × Merged req (set_or (get_credentials o account) no_credentials) creds)
            ⊎ (Silent req × (get_credentials o changed ≡ get_credentials o account)))
  unfolding update_credentials set_credentials merge_account get_credentials
  update_credentials_lem req account laws =
      let old = set_or (get_credentials o account) no_credentials in
      let creds = merge_credentials req old in
      let (plain, cipher, written, hidden, filled, shown, read) = laws.round_trip creds in
      elim (Bool-cases (mentions_credentials req)) [
        | inl some_given ↦ (
          record (merge_account req account) { credentials = cipher },
          rw some_given (rw written (rw hidden refl)),
          refl,
          refl,
          refl,
          refl,
          inl (
            mentions-Mentioned req some_given,
            creds,
            rw filled (rw shown read),
            merge_credentials-Merged req old,
          ),
        )
        | inr none_given ↦ (
          merge_account req account,
          rw none_given refl,
          refl,
          refl,
          refl,
          refl,
          inr (mentions-Silent req none_given, refl),
        )
      ]
