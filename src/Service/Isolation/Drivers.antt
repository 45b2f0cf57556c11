-- ===== src/Service/Isolation/Drivers.antt =====
-- `GetDriver` leaves the rows of the other users alone, and its driver does not write them.
use ponta_drive_api.Base.{
  ℕ, ◌≡◌, refl, subst, inl, inr, Option, none, some, List, [], ◌∷◌, arith, ◌==◌, ltb, Bool-cases,
  Option-cases,
}
use ponta_drive_api.Base.Text.{Text}
use ponta_drive_api.Models.{DriveItem, CloudAccount}
use ponta_drive_api.Service.{Driver, State, or_raise, found_account, account_denied}
use ponta_drive_api.Service.Post.{Post, returns, raises, Post-or_raise, Post-then}
use ponta_drive_api.Service.Factory.{
  config_from_s3_credentials, cached, build_driver, get_credentials, cache_driver,
  driver_for_account, get_driver, owned_account,
}
use ponta_drive_api.Service.Isolation.{Tenant, Clear, AllClear, Isolated}

cached-Clear :
    {S : Type 0} (view : S → ℕ → Option DriveItem) (id : ℕ) (drivers : List (ℕ × Driver S))
    (d : Driver S)
    → AllClear view drivers
    → cached id drivers ≡ some d
    → Clear view d
unfolding cached
cached-Clear view id [] d h e = absurd cc
cached-Clear view id ((k, c) ∷ rest) d (clear, h) e = elim (Bool-cases (k == id)) [
  | inl hit ↦ let same : c ≡ d = ground arith in subst (Clear view) same clear
  | inr miss ↦ cached-Clear view id rest d h (ground arith)
]

module _ {S : Type 0} (w : Tenant S) where
  open w use {o, view, apart, user_id, others}

  built-Clear :
      (provider : Text) (account : CloudAccount) (d : Driver S)
      → build_driver o provider (get_credentials o account) ≡ some d
      → Clear view d
  unfolding build_driver
  built-Clear provider account d e = elim (Option-cases (get_credentials o account)) [
    | inl nothing ↦ absurd (ground arith)
    | inr (creds, at) ↦ apart.drivers (config_from_s3_credentials creds) d (ground arith)
  ]

  cache_driver-Isolated :
      (account : CloudAccount) (built : Option (Driver S)) (s : State S)
      → Isolated w s
      → ((d : Driver S) → built ≡ some d → Clear view d)
      → Post (Isolated w) (Clear view) (cache_driver o account built s)
  unfolding cache_driver
  cache_driver-Isolated account none s p h = raises _ s p
  cache_driver-Isolated account (some d) s (holds, clear) h = elim (Bool-cases (ltb 0 account.id)) [
    | inl saved ↦ rw saved (returns d _ (holds, (h d refl, clear)) (h d refl))
    | inr unsaved ↦ rw unsaved (returns d s (holds, clear) (h d refl))
  ]

  driver_for_account-Isolated :
      (account : CloudAccount) (s : State S)
      → Isolated w s
      → Post (Isolated w) (Clear view) (driver_for_account o account s)
  unfolding driver_for_account
  driver_for_account-Isolated account s p =
      let built = build_driver o account.provider (get_credentials o account) in
      let fresh =
        cache_driver-Isolated account built s p (λ d. built-Clear account.provider account d) in
      elim (Bool-cases (ltb 0 account.id)) [
        | inr unsaved ↦ rw unsaved fresh
        | inl saved ↦ elim (Option-cases (cached account.id s.drivers)) [
          | inl miss ↦ rw (saved, miss) fresh
          | inr (d, hit) ↦
              rw (saved, hit) (returns d s p (cached-Clear view account.id s.drivers d p.1 hit))
        ]
      ]

  -- The driver that `GetDriver` hands out does not write the table of items.
  pub get_driver-Isolated :
      (account_id : ℕ) (s : State S)
      → Isolated w s
      → Post (Isolated w) (λ opened. Clear view opened.0) (get_driver o user_id account_id s)
  unfolding get_driver
  get_driver-Isolated account_id s p =
      let row = found_account (o.accounts.first (owned_account user_id account_id) s.outside) in
      let owned = or_raise row account_denied s in
      Post-then (Isolated w) owned (Post-or_raise (Isolated w) row account_denied s p)
        λ account p _.
          Post-then (Isolated w) (driver_for_account o account owned.1)
            (driver_for_account-Isolated account owned.1 p)
            λ d p clear. returns (d, account) _ p clear
