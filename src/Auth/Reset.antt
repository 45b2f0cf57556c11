-- ===== src/Auth/Reset.antt =====
-- The runs of `ResetPassword` and `ForgotPassword` of app/http/controllers/auth_controller.go.
use ponta_drive_api.Base.{
  ◌≡◌, ℕ, refl, ap, sym, ◌∙◌, subst, ◌⊎◌, inl, inr, Bool, true, false, Option, none, some, arith,
  ◌==◌, Bool-cases, and_split,
}
use ponta_drive_api.Base.Text.{Text, text, same, is_empty}
use ponta_drive_api.Service.Database.{TableLaws}
use ponta_drive_api.Web.{Response, notice, failed, accepted}
use ponta_drive_api.Auth.{
  User, PasswordResetToken, ForgotPasswordRequest, ResetPasswordRequest, World,
}
use ponta_drive_api.Auth.Handlers.{
  Session, by_email, issued_to, token_expired, matches, change_password, reset_for_user,
  reset_with_token, reset_password, forgot_for_user, forgot_password, text_or_empty, hash_token,
}

abbrev reset_done : Response Session
reset_done = notice (text "auth.reset_password_success")

-- The three ways that a run of `ResetPassword` ends: it is refused and nothing is written; the
-- token has expired and is removed; or the password is changed, on a token that is stored for the
-- email and has not expired, and for a user that has the email.
data ResetRun {S : Type 0} (w : World S) (req : ResetPasswordRequest) (s : S)
    : Response Session × S → Type 0 where
  refused : (status : ℕ) (key : Text) → ResetRun w req s (failed status key, s)
  outdated :
      ResetRun w req s
        (failed 400 (text "auth.reset_token_expired"), (w.tokens.delete (issued_to req.email) s).1)
  changed :
      (t : PasswordResetToken) (user : User)
      → w.tokens.first (matches w req) s ≡ some t
      → is_empty t.token ≡ false
      → token_expired w t s ≡ false
      → w.users.first (by_email req.email) s ≡ some user
      → (user.id == 0) ≡ false
      → ResetRun w req s (reset_done, change_password w req user s)

module _ {S : Type 0} (w : World S) where
  reset_for_user-ResetRun :
      (req : ResetPasswordRequest) (s : S) (t : PasswordResetToken) (row : Option User)
      → w.tokens.first (matches w req) s ≡ some t
      → is_empty t.token ≡ false
      → token_expired w t s ≡ false
      → w.users.first (by_email req.email) s ≡ row
      → ResetRun w req s (reset_for_user w req row s)
  unfolding reset_for_user
  reset_for_user-ResetRun req s t none stored some_token timely there =
      refused 500 (text "auth.db_error")
  reset_for_user-ResetRun req s t (some user) stored some_token timely there =
      elim (Bool-cases (user.id == 0)) [
        | inl nobody ↦ rw nobody (refused 404 (text "auth.user_not_found"))
        | inr known ↦ rw known (changed t user stored some_token timely there known)
      ]

  reset_with_token-ResetRun :
      (req : ResetPasswordRequest) (s : S) (row : Option PasswordResetToken)
      → w.tokens.first (matches w req) s ≡ row
      → ResetRun w req s (reset_with_token w req row s)
  unfolding reset_with_token
  reset_with_token-ResetRun req s none stored = refused 500 (text "auth.db_error")
  reset_with_token-ResetRun req s (some t) stored = elim (Bool-cases (is_empty t.token)) [
    | inl no_row ↦ rw no_row (refused 400 (text "auth.reset_token_invalid"))
    | inr some_token ↦ elim (Bool-cases (token_expired w t s)) [
      | inl late ↦ rw (some_token, late) outdated
      | inr timely ↦
          let row = w.users.first (by_email req.email) s in
          rw (some_token, timely)
            (reset_for_user-ResetRun req s t row stored some_token timely refl)
    ]
  ]

  reset_password-ResetRun :
      (req : ResetPasswordRequest) (s : S) → ResetRun w req s (reset_password w (accepted req) s)
  unfolding reset_password
  reset_password-ResetRun req s = elim (Bool-cases (w.query_works s)) [
    | inr down ↦ rw down (refused 500 (text "auth.db_error"))
    | inl up ↦ rw up (reset_with_token-ResetRun req s (w.tokens.first (matches w req) s) refl)
  ]

-- A row that is saved gets the time of its last change.
abbrev pub touched_user : ℕ → User → User
touched_user now u = record u { updated_at = some now }

-- Two rows of a user that agree in everything but the password and the time of the last change.
abbrev pub SameButPassword : User → User → Type 0
SameButPassword u v =
    (u.id ≡ v.id)
    × (u.created_at ≡ v.created_at)
    × (u.uuid ≡ v.uuid)
    × (u.name ≡ v.name)
    × (u.username ≡ v.username)
    × (u.email ≡ v.email)
    × (u.avatar ≡ v.avatar)

-- A token that is stored for the email of the request, has not expired, and has the hash that the
-- request's token has.
abbrev pub HoldsToken : {S : Type 0} → World S → ResetPasswordRequest → S → Type 0
HoldsToken w req s =
    (t : PasswordResetToken) × (w.tokens.first (matches w req) s ≡ some t)
    × (matches w req t ≡ true)
    × (token_expired w t s ≡ false)

module _ {S : Type 0} (w : World S) (view : S → ℕ → Option User)
    (laws : TableLaws w.users (λ u. u.id) touched_user view)
    (token_meets : (q : PasswordResetToken → Bool) (s : S) (t : PasswordResetToken)
      → w.tokens.first q s ≡ some t
      → is_empty t.token ≡ false
      → q t ≡ true)
    (hash_keeps : (p : Text) (s : S) (n : ℕ) → view ((w.make_hash p s).1) n ≡ view s n)
    (delete_keeps : (q : PasswordResetToken → Bool) (s : S) (n : ℕ)
      → view ((w.tokens.delete q s).1) n ≡ view s n) where
  -- A user with the row of the query: it has the email, and its row is the one that is replaced.
  change_password-view :
      (req : ResetPasswordRequest) (s : S) (user : User) (n : ℕ)
      → w.users.first (by_email req.email) s ≡ some user
      → (user.id == 0) ≡ false
      → (view ((change_password w req user s)) n ≡ view s n)
        ⊎ ((view s n ≡ some user)
            × (same user.email req.email ≡ true)
            × (new : User) × (view ((change_password w req user s)) n ≡ some new)
            × SameButPassword user new)
  unfolding change_password
  change_password-view req s user n there known =
      let s1 = (w.make_hash req.password s).1 in
      let new = record user { password = text_or_empty (w.make_hash req.password s).0 } in
      let (saved, s2) = w.users.save new s1 in
      let last = delete_keeps (issued_to req.email) s2 n in
      let first = hash_keeps req.password s n in
      let (has_email, row) = laws.meets (by_email req.email) s user there (ground arith) in
      elim (Bool-cases saved) [
        | inr failed_save ↦ inl (last ∙ laws.refuses s1 new n failed_save ∙ first)
        | inl done ↦ elim (Bool-cases (n == user.id)) [
          | inr other ↦ inl (last ∙ laws.saves s1 new n done ∙ rw other first)
          | inl own ↦
              let at : user.id ≡ n = ground arith in
              inr (
                subst (λ m. view s m ≡ some user) at row,
                has_email,
                touched_user (laws.clock s1) new,
                last ∙ laws.saves s1 new n done ∙ rw own refl,
                (refl, refl, refl, refl, refl, refl, refl),
              )
        ]
      ]

  -- Where the table of users keeps its laws, a query for a token answers with one that it asks for or
  -- with none, and the hashing and the deletion of tokens leave the users: for every row of the table
  -- of users, a reset of a password leaves it as it is, or the row has the email of the request, a
  -- token for this email that has not expired and is the request's is stored, and nothing of the row
  -- but its password and the time of its last change has changed.
  pub reset_password-view :
      (req : ResetPasswordRequest) (s : S) (n : ℕ)
      → (view ((reset_password w (accepted req) s).1) n ≡ view s n)
        ⊎ ((user : User) × (view s n ≡ some user)
            × (same user.email req.email ≡ true)
            × HoldsToken w req s
            × (new : User) × (view ((reset_password w (accepted req) s).1) n ≡ some new)
            × SameButPassword user new)
  reset_password-view req s n = go (reset_password-ResetRun w req s)
    where
      go :
          {r : Response Session × S}
          → ResetRun w req s r
          → (view (r.1) n ≡ view s n)
            ⊎ ((user : User) × (view s n ≡ some user)
                × (same user.email req.email ≡ true)
                × HoldsToken w req s
                × (new : User) × (view (r.1) n ≡ some new)
                × SameButPassword user new)
      go (refused status key) = inl refl
      go outdated = inl (delete_keeps (issued_to req.email) s n)
      go (changed t user stored some_token timely there known) =
          elim (change_password-view req s user n there known) [
            | inl same_row ↦ inl same_row
            | inr (row, has_email, new, new_row, same_rest) ↦
                let meets = token_meets (matches w req) s t stored some_token in
                inr (user, row, has_email, (t, stored, meets, timely), new, new_row, same_rest)
          ]

-- A query that finds no row for the token refuses the reset.
refused_without_row :
    {S : Type 0} (w : World S) (req : ResetPasswordRequest) (s : S) (t : PasswordResetToken)
    → w.query_works s ≡ true
    → w.tokens.first (matches w req) s ≡ some t
    → is_empty t.token ≡ true
    → reset_password w (accepted req) s ≡ (failed 400 (text "auth.reset_token_invalid"), s)
unfolding reset_password reset_with_token
refused_without_row w req s t up row no_row = rw up (rw row (rw no_row refl))

pub issued_to-matches :
    {S : Type 0} (w : World S) (again : ResetPasswordRequest) (email : Text)
    (t : PasswordResetToken)
    → again.email ≡ email
    → matches w again t ≡ true
    → issued_to email t ≡ true
unfolding matches
issued_to-matches w again email t e h =
    subst (λ m. same t.email m ≡ true) e
      ((and_split (issued_to again.email t) (same t.token (hash_token w again.token)) h).0)

change_password_deletes :
    {S : Type 0} (w : World S) (req : ResetPasswordRequest) (user : User) (s : S)
    → (s' : S) × (change_password w req user s ≡ (w.tokens.delete (issued_to req.email) s').1)
unfolding change_password
change_password_deletes w req user s = (_, refl)

-- Where a query for tokens is answered with no row once all that it asks for have been deleted: a
-- reset of a password that has succeeded is the last one for its email. Any further request for the
-- email, while SafeQuery succeeds, is refused as having an invalid token and writes nothing, so that
-- the next one meets the same state.
pub reset_password_once :
    {S : Type 0} (w : World S)
    → ((p q : PasswordResetToken → Bool) (s : S)
        → ((t : PasswordResetToken) → q t ≡ true → p t ≡ true)
        → (t : PasswordResetToken) × (w.tokens.first q ((w.tokens.delete p s).1) ≡ some t)
          × (is_empty t.token ≡ true))
    → (req again : ResetPasswordRequest) (s s' : S)
    → reset_password w (accepted req) s ≡ (notice (text "auth.reset_password_success"), s')
    → w.query_works s' ≡ true
    → again.email ≡ req.email
    → reset_password w (accepted again) s' ≡ (failed 400 (text "auth.reset_token_invalid"), s')
reset_password_once {S} w removes req again s s' done up same_email =
    go (reset_password-ResetRun w req s) (ap (λ r. r.0) done) (ap (λ r. r.1) done)
  where
    Refused : S → Type 0
    Refused m =
        reset_password w (accepted again) m ≡ (failed 400 (text "auth.reset_token_invalid"), m)

    gone :
        (m : S)
        → w.query_works ((w.tokens.delete (issued_to req.email) m).1) ≡ true
        → Refused ((w.tokens.delete (issued_to req.email) m).1)
    gone m works =
        let deleted = (w.tokens.delete (issued_to req.email) m).1 in
        let covers = λ (t : PasswordResetToken). issued_to-matches w again req.email t same_email in
        let (t, row, no_row) = removes (issued_to req.email) (matches w again) m covers in
        refused_without_row w again deleted t works row no_row

    go :
        {r : Response Session × S}
        → ResetRun w req s r
        → r.0 ≡ notice (text "auth.reset_password_success")
        → r.1 ≡ s'
        → Refused s'
    go (refused status key) h k = absurd cc
    go outdated h k = absurd cc
    go (changed t user stored some_token timely there known) h k =
        let (m, e) = change_password_deletes w req user s in
        let at : (w.tokens.delete (issued_to req.email) m).1 ≡ s' = sym e ∙ k in
        subst Refused at (gone m (subst (λ x. w.query_works x ≡ true) (sym at) up))

forgot_for_user_lem :
    {S : Type 0} (w : World S) (req : ForgotPasswordRequest) (s : S) (row : User)
    → (forgot_for_user w req (some row) s).0 ≡ notice (text "auth.forgot_password_success")
unfolding forgot_for_user
forgot_for_user_lem w req s row = elim (Bool-cases (row.id == 0)) [
  | inl nobody ↦ rw nobody refl
  | inr known ↦ rw known refl
]

forgot_answers :
    {S : Type 0} (w : World S) (req : ForgotPasswordRequest) (s : S) (row : User)
    → w.query_works s ≡ true
    → w.users.first (by_email req.email) s ≡ some row
    → (forgot_password w (accepted req) s).0 ≡ notice (text "auth.forgot_password_success")
unfolding forgot_password
forgot_answers w req s row h k = rw h (rw k (forgot_for_user_lem w req s row))

-- In any two states in which the database answers, in one of which the email may be that of a user
-- and in the other not, `ForgotPassword` gives the same answer.
pub forgot_password_silent :
    {S : Type 0} (w : World S) (req : ForgotPasswordRequest) (s s' : S) (row row' : User)
    → w.query_works s ≡ true
    → w.query_works s' ≡ true
    → w.users.first (by_email req.email) s ≡ some row
    → w.users.first (by_email req.email) s' ≡ some row'
    → (forgot_password w (accepted req) s).0 ≡ (forgot_password w (accepted req) s').0
forgot_password_silent w req s s' row row' h h' k k' =
    forgot_answers w req s row h k ∙ sym (forgot_answers w req s' row' h' k')
