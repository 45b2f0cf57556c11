-- ===== src/Auth/Link.antt =====
-- The way from `ForgotPassword` to `ResetPassword` of app/http/controllers/auth_controller.go.
use ponta_drive_api.Base.{◌≡◌, refl, sym, ap, ◌∙◌, subst, Bool, true, false, none, some, ◌==◌, ◌++◌}
use ponta_drive_api.Base.Text.{Text, text, is_empty, same, same_refl}
use ponta_drive_api.Web.{notice, accepted}
use ponta_drive_api.Auth.{
  User, PasswordResetToken, ForgotPasswordRequest, ResetPasswordRequest, ResetMail, World,
}
use ponta_drive_api.Auth.Handlers.{
  by_email, issued_to, token_expired, matches, change_password, reset_for_user, reset_with_token,
  reset_password, forgot_for_user, forgot_password, text_or_empty, hash_token,
  generate_random_token, issue_token, reset_mail, reset_url,
}
use ponta_drive_api.Auth.Reset.{issued_to-matches}

-- The users are a table of their own: the random source, the tokens and the mail leave them.
pub record Apart {S : Type 0} (w : World S) : Type 0 where
  pub draws : (q : User → Bool) (s : S) → w.users.first q ((w.random_hex s).1) ≡ w.users.first q s
  pub deletes :
      (p : PasswordResetToken → Bool) (q : User → Bool) (s : S)
      → w.users.first q ((w.tokens.delete p s).1) ≡ w.users.first q s
  pub creates :
      (t : PasswordResetToken) (q : User → Bool) (s : S)
      → w.users.first q ((w.tokens.create t s).1) ≡ w.users.first q s
  pub mails :
      (m : ResetMail) (q : User → Bool) (s : S)
      → w.users.first q (w.send_mail m s) ≡ w.users.first q s

module _ {S : Type 0} (w : World S) where
  -- The tokens of the new one's email are removed, it is stored, and a mail is sent.
  abbrev pub stored : PasswordResetToken → ResetMail → S → S
  stored x mail s =
      w.send_mail mail ((w.tokens.create x ((w.tokens.delete (issued_to x.email) s).1)).1)

  -- A token that has just been stored without a time of its own is found by a query for tokens of its email that it meets, and
  -- is not too old.
  abbrev pub Fresh : Type 0
  Fresh =
      (q : PasswordResetToken → Bool) (x : PasswordResetToken) (mail : ResetMail) (s : S)
      → x.created_at ≡ none
      → q x ≡ true
      → ((t : PasswordResetToken) → q t ≡ true → issued_to x.email t ≡ true)
      → (t : PasswordResetToken) × (w.tokens.first q (stored x mail s) ≡ some t)
        × (t.token ≡ x.token)
        × (token_expired w t (stored x mail s) ≡ false)

  abbrev new_token : Text → Text → PasswordResetToken
  new_token email raw = record { email = email; token = hash_token w raw; created_at = none }

  issue_token_lem :
      (email raw : Text) (user : User) (s : S)
      → (w.random_hex s).0 ≡ some raw
      → issue_token w email user s
        ≡ stored (new_token email raw) (reset_mail w user raw email) ((w.random_hex s).1)
  unfolding issue_token generate_random_token text_or_empty
  issue_token_lem email raw user s drawn =
      ap
        (λ d.
          stored (new_token email (text_or_empty d)) (reset_mail w user (text_or_empty d) email)
            ((w.random_hex s).1))
        drawn

  forgot_runs :
      (req : ForgotPasswordRequest) (s : S) (user : User)
      → w.query_works s ≡ true
      → w.users.first (by_email req.email) s ≡ some user
      → (user.id == 0) ≡ false
      → (forgot_password w (accepted req) s).1 ≡ issue_token w req.email user s
  unfolding forgot_password forgot_for_user
  forgot_runs req s user up there known = rw up (rw there (rw known refl))

  reset_runs :
      (req : ResetPasswordRequest) (s : S) (t : PasswordResetToken) (user : User)
      → w.query_works s ≡ true
      → w.tokens.first (matches w req) s ≡ some t
      → is_empty t.token ≡ false
      → token_expired w t s ≡ false
      → w.users.first (by_email req.email) s ≡ some user
      → (user.id == 0) ≡ false
      → reset_password w (accepted req) s
        ≡ (notice (text "auth.reset_password_success"), change_password w req user s)
  unfolding reset_password reset_with_token reset_for_user
  reset_runs req s t user up row some_token timely there known =
      rw up (rw row (rw (some_token, timely) (rw there (rw known refl))))

  stored_keeps :
      Apart w
      → (x : PasswordResetToken) (mail : ResetMail) (q : User → Bool) (s : S)
      → w.users.first q (stored x mail ((w.random_hex s).1)) ≡ w.users.first q s
  stored_keeps apart x mail q s =
      apart.mails mail q _
      ∙ apart.creates x q _
      ∙ apart.deletes (issued_to x.email) q _
      ∙ apart.draws q s

  change_password-hashed :
      (req : ResetPasswordRequest) (user : User) (s : S) (hashed : Text)
      → (w.make_hash req.password s).0 ≡ some hashed
      → change_password w req user s
        ≡ (w.tokens.delete
            (issued_to req.email)
            (w.users.save (record user { password = hashed }) (w.make_hash req.password s).1).1).1
  unfolding change_password text_or_empty
  change_password-hashed req user s hashed h =
      let s1 = (w.make_hash req.password s).1 in
      ap
        (λ d.
          (w.tokens.delete (issued_to req.email)
            (w.users.save (record user { password = text_or_empty d }) s1).1).1)
        h

  new_token-matches :
      (email raw password : Text)
      → matches w (record { email = email; token = raw; password = password }) (new_token email raw)
        ≡ true
  unfolding matches
  new_token-matches email raw password = rw (same_refl email, same_refl (hash_token w raw)) refl

-- Where SafeQuery always succeeds, the users are a table of their own, a stored token is found and no
-- hash is empty: for a user that is there, `ForgotPassword` sends a mail to the user's address whose
-- link has the drawn token and the escaped email; and a reset with this token and the email, where the
-- password can be hashed, answers with success, saves the user's row with the hash of the new
-- password, and deletes the tokens of the email.
pub reset_password-forgot_password :
    {S : Type 0} (w : World S)
    → ((s : S) → w.query_works s ≡ true)
    → Apart w
    → Fresh w
    → ((raw : Text) → is_empty (hash_token w raw) ≡ false)
    → (req : ForgotPasswordRequest) (raw password hashed : Text) (s : S) (user : User)
    → w.users.first (by_email req.email) s ≡ some user
    → (user.id == 0) ≡ false
    → (w.random_hex s).0 ≡ some raw
    → (w.make_hash password ((forgot_password w (accepted req) s).1)).0 ≡ some hashed
    → (s' : S) × (mail : ResetMail) × ((forgot_password w (accepted req) s).1 ≡ w.send_mail mail s')
      × (mail.to ≡ user.email)
      × (mail.reset_url
          ≡ w.frontend_url
            ++ text "/reset-password?token="
            ++ raw
            ++ text "&email="
            ++ w.query_escape req.email)
      × (reset_password w
            (accepted (record { email = req.email; token = raw; password = password }))
            ((forgot_password w (accepted req) s).1)
          ≡ (
            notice (text "auth.reset_password_success"),
            (w.tokens.delete
                (λ t. same t.email req.email)
                (w.users.save
                  (record user { password = hashed })
                  (w.make_hash password ((forgot_password w (accepted req) s).1)).1).1).1,
          ))
unfolding reset_mail reset_url
reset_password-forgot_password {S} w up apart fresh solid req raw password hashed s user there known
      drawn hash_at =
    let again : ResetPasswordRequest = record {
      email = req.email;
      token = raw;
      password = password;
    } in
    let mail = reset_mail w user raw req.email in
    let x = new_token w req.email raw in
    let after = stored w x mail ((w.random_hex s).1) in
    let runs =
      forgot_runs w req s user (up s) there known ∙ issue_token_lem w req.email raw user s drawn in
    let (t, row, same_token, timely) =
      fresh (matches w again) x mail ((w.random_hex s).1) refl
        (new_token-matches w req.email raw password)
        (λ t. issued_to-matches w again req.email t refl) in
    let some_token : is_empty t.token ≡ false = ap is_empty same_token ∙ solid raw in
    let still_there = stored_keeps w apart x mail (by_email req.email) s ∙ there in
    let reset =
      subst
        (λ m.
          reset_password w (accepted again) m
          ≡ (notice (text "auth.reset_password_success"), change_password w again user m))
        (sym runs)
        (reset_runs w again after t user (up after) row some_token timely still_there known) in
    let changed =
      change_password-hashed w again user ((forgot_password w (accepted req) s).1) hashed hash_at in
    (
      _,
      mail,
      runs,
      refl,
      refl,
      reset ∙ ap (λ m. (notice (text "auth.reset_password_success"), m)) changed,
    )
