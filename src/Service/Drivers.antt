-- ===== src/Service/Drivers.antt =====
-- What `GetDriver` and the cache of the driver factory guarantee.
use ponta_drive_api.Base.{ℕ, ◌<◌, ◌≡◌, ◌⊎◌, inl, inr, Bool, true, some, arith, Option-cases}
use ponta_drive_api.Models.{CloudAccount}
use ponta_drive_api.Service.{Table, Driver, Outside, ok, State, found_account}
use ponta_drive_api.Service.Runs.{Outcome-cases, found-some}
use ponta_drive_api.Service.Factory.{
  owned_account, cached, get_credentials, build_driver, cache_driver, driver_for_account,
  get_driver,
}

-- A query for one row answers with a row that meets its conditions, or with the zero value.
abbrev pub Answers : {S A : Type 0} → (A → ℕ) → Table S A → Type 0
Answers {S} {A} id_of table =
    (q : A → Bool) (s : S) (a : A) → table.first q s ≡ some a → (id_of a ≡ 0) ⊎ (q a ≡ true)

module _ {S : Type 0} (o : Outside S) where
  -- A driver that is handed out stays at hand: for a saved account, the driver that
  -- `DriverForAccount` returns is cached, the outside world is as before, and asking again returns
  -- the same driver and changes nothing.
  pub driver_for_account-cached :
      (account : CloudAccount) (s s' : State S) (d : Driver S)
      → 0 < account.id
      → driver_for_account o account s ≡ (ok d, s')
      → (cached account.id s'.drivers ≡ some d)
        × (s'.outside ≡ s.outside)
        × (driver_for_account o account s' ≡ (ok d, s'))
  unfolding driver_for_account cache_driver cached
  driver_for_account-cached account s s' d h e = elim (Option-cases (cached account.id s.drivers)) [
    | inl miss ↦ elim (Option-cases (build_driver o account.provider (get_credentials o account))) [
      | inl unbuilt ↦ absurd (ground arith)
      | inr (d', built) ↦ ground arith
    ]
    | inr (d', hit) ↦ ground arith
  ]

  -- `GetDriver` serves only the user's own account.
  pub get_driver_owned :
      (user_id account_id : ℕ) (s s' : State S) (d : Driver S) (a : CloudAccount)
      → Answers (λ a. a.id) o.accounts
      → get_driver o user_id account_id s ≡ (ok (d, a), s')
      → (a.user_id ≡ user_id) × (a.id ≡ account_id) × (0 < account_id)
  unfolding get_driver
  get_driver_owned user_id account_id s s' d a answers e =
      elim (Option-cases
        (found_account (o.accounts.first (owned_account user_id account_id) s.outside))) [
          | inl missing ↦ absurd (ground arith)
          | inr (row, at) ↦ elim (Outcome-cases (driver_for_account o row s).0) [
            | inl (d', opened) ↦
                let same : row ≡ a = ground arith in
                let (answered, saved) = found-some (λ (b : CloudAccount). b.id) _ row at in
                elim (answers _ s.outside row answered) [
                  | inl zero_id ↦ absurd (ground arith)
                  | inr owned ↦ ground arith
                ]
            | inr (e', failed) ↦ absurd (ground arith)
          ]
        ]
