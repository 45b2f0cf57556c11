-- ===== src/Auth/Handlers.antt =====
-- The handlers of app/http/controllers/auth_controller.go and of app/http/middleware/jwt_auth.go.
use ponta_drive_api.Base.{
  ℕ, ◌*◌, Bool, false, not, ◌&&◌, Option, none, some, [], ◌++◌, ◌==◌, if◌then◌else◌,
}
use ponta_drive_api.Base.Int.{pos, ltb_ℤ}
use ponta_drive_api.Base.Text.{Text, text, same, is_empty}
use ponta_drive_api.Service.{found}
use ponta_drive_api.Web.{
  Response, payload, notice, failed, Form, Step, Handler, pure, ask, perform, or_answer, validated,
  malformed, rejected, unreadable, violated, accepted, ◌>>=◌, ◌>>◌, answer_if, ended,
}
use ponta_drive_api.Auth.{
  User, PasswordResetToken, LoginRequest, ForgotPasswordRequest, ResetPasswordRequest, ResetMail,
  World,
}
use ponta_drive_api.Auth.Users.{UserView, to_response}

-- What a handler answers with: the token, its life in seconds, and the user, where they are given.
pub record Session : Type 0 where
  pub token : Option Text
  pub expires_in : ℕ
  pub user : Option UserView

abbrev pub found_user : Option User → Option User
found_user = found (λ u. u.id)

abbrev pub by_email : Text → User → Bool
by_email email u = same u.email email

abbrev pub issued_to : Text → PasswordResetToken → Bool
issued_to email t = same t.email email

abbrev pub db_error : {D : Type 0} → Response D
db_error = failed 500 (text "auth.db_error")

-- More than 60 minutes old; a token without a time never is.
abbrev older : {S : Type 0} → World S → Option ℕ → S → Bool
older w none s = false
older w (some at) s = ltb_ℤ (pos 60) (w.minutes_since at s)

unfoldable pub token_expired : {S : Type 0} → World S → PasswordResetToken → S → Bool
token_expired w t s = older w t.created_at s

unfoldable pub text_or_empty : Option Text → Text
text_or_empty none = []
text_or_empty (some t) = t

module _ {S : Type 0} (w : World S) where
  -- `generateRandomToken`
  unfoldable pub generate_random_token : S → Option Text × S
  generate_random_token s = w.random_hex s

  -- `hashToken`
  unfoldable pub hash_token : Text → Text
  hash_token token = w.sha256_hex token

  unfoldable pub expires_in : ℕ
  expires_in = w.jwt_ttl * 60

  -- The query for a user by the email; the zero value, whose id is 0, stands for no row.
  unfoldable pub query_user : Text → Handler S Session User
  query_user email = do row ← ask (w.users.first (by_email email)); or_answer row db_error

  unfoldable pub login_handler : Form LoginRequest → Handler S Session (Response Session)
  unfolding query_user expires_in
  login_handler form = do
    req ← validated form
    works ← ask w.query_works
    answer_if (not works) db_error
    user ← query_user req.email
    answer_if (user.id == 0) (failed 401 (text "auth.invalid_credentials"))
    answer_if (not (w.check_hash req.password user.password))
        (failed 401 (text "auth.invalid_credentials"))
    issued ← perform (w.login user)
    token ← or_answer issued (failed 500 (text "auth.token_generate_failed"))
    pure (
        payload 200 (record {
          token = some token;
          expires_in = expires_in;
          user = some (to_response w.query_escape user);
        }))

  -- `Login`
  unfoldable pub login : Form LoginRequest → S → Response Session × S
  unfolding login_handler
  login form s = ended (login_handler form s)

  -- `Me`, from the user that the middleware left in the context
  abbrev me_found : Option User → Response UserView
  me_found none = failed 401 (text "auth.unauthenticated")
  me_found (some user) = payload 200 (to_response w.query_escape user)

  unfoldable pub me : Option User → S → Response UserView
  me (some user) s = payload 200 (to_response w.query_escape user)
  me none s = me_found (found_user (w.current_user s))

  abbrev refreshed : Option Text → Response Session
  refreshed none = failed 401 (text "auth.token_refresh_failed")
  refreshed (some token) =
      payload 200 (record { token = some token; expires_in = expires_in; user = none })

  -- `Refresh`
  unfoldable pub refresh : S → Response Session × S
  unfolding expires_in
  refresh s = let (issued, s') = w.refresh s in (refreshed issued, s')

  -- `Logout`
  unfoldable pub logout : S → Response Session × S
  logout s =
      let (done, s') = w.logout s in
      let response =
        if done
        then notice (text "auth.logout_success")
        else failed 400 (text "auth.logout_failed") in
      (response, s')

  unfoldable pub reset_url : Text → Text → Text
  reset_url raw_token email =
      w.frontend_url
      ++ text "/reset-password?token="
      ++ raw_token
      ++ text "&email="
      ++ w.query_escape email

  unfoldable pub reset_mail : User → Text → Text → ResetMail
  unfolding reset_url
  reset_mail user raw_token email = record {
    to = user.email;
    name = user.name;
    email = user.email;
    reset_url = reset_url raw_token email;
    expire_minutes = 60;
    logo_url = if is_empty w.logo_url then w.frontend_url ++ text "/logo.png" else w.logo_url;
  }

  -- The part of `ForgotPassword` for a user that is there; the errors of the random source, of the
  -- deletion and of the creation are ignored.
  unfoldable pub issue_token : Text → User → S → S
  unfolding generate_random_token hash_token text_or_empty reset_mail
  issue_token email user s =
      let (drawn, s1) = generate_random_token s in
      let raw_token = text_or_empty drawn in
      let (_, s2) = w.tokens.delete (issued_to email) s1 in
      let (_, s3) =
        w.tokens.create (record { email = email; token = hash_token raw_token; created_at = none })
          s2 in
      w.send_mail (reset_mail user raw_token email) s3

  -- From the row that the query for the user found.
  unfoldable pub forgot_for_user : ForgotPasswordRequest → Option User → S → Response Session × S
  unfolding issue_token
  forgot_for_user req none s = (db_error, s)
  forgot_for_user req (some user) s =
      if user.id == 0
      then (notice (text "auth.forgot_password_success"), s)
      else (notice (text "auth.forgot_password_success"), issue_token req.email user s)

  -- `ForgotPassword`
  unfoldable pub forgot_password : Form ForgotPasswordRequest → S → Response Session × S
  unfolding forgot_for_user
  forgot_password unreadable s = (malformed, s)
  forgot_password violated s = (rejected, s)
  forgot_password (accepted req) s =
      if not (w.query_works s)
      then (db_error, s)
      else forgot_for_user req (w.users.first (by_email req.email) s) s

  -- The token that `ResetPassword` looks for.
  unfoldable pub matches : ResetPasswordRequest → PasswordResetToken → Bool
  unfolding hash_token
  matches req t = issued_to req.email t && same t.token (hash_token req.token)

  -- The part of `ResetPassword` behind its checks; the errors of the hash, of the saving and of the
  -- deletion are ignored.
  unfoldable pub change_password : ResetPasswordRequest → User → S → S
  unfolding text_or_empty
  change_password req user s =
      let (hashed, s1) = w.make_hash req.password s in
      let (_, s2) = w.users.save (record user { password = text_or_empty hashed }) s1 in
      let (_, s3) = w.tokens.delete (issued_to req.email) s2 in s3

  -- From the row that the query for the user found.
  unfoldable pub reset_for_user : ResetPasswordRequest → Option User → S → Response Session × S
  unfolding change_password
  reset_for_user req none s = (db_error, s)
  reset_for_user req (some user) s =
      if user.id == 0
      then (failed 404 (text "auth.user_not_found"), s)
      else (notice (text "auth.reset_password_success"), change_password req user s)

  -- From the row that the query for the token found. A token that has expired is removed.
  unfoldable pub reset_with_token :
      ResetPasswordRequest → Option PasswordResetToken → S → Response Session × S
  unfolding token_expired reset_for_user
  reset_with_token req none s = (db_error, s)
  reset_with_token req (some t) s =
      if is_empty t.token
      then (failed 400 (text "auth.reset_token_invalid"), s)
      else if token_expired w t s
      then (
        failed 400 (text "auth.reset_token_expired"),
        (w.tokens.delete (issued_to req.email) s).1,
      )
      else reset_for_user req (w.users.first (by_email req.email) s) s

  -- `ResetPassword`
  unfoldable pub reset_password : Form ResetPasswordRequest → S → Response Session × S
  unfolding matches reset_with_token
  reset_password unreadable s = (malformed, s)
  reset_password violated s = (rejected, s)
  reset_password (accepted req) s =
      if not (w.query_works s)
      then (db_error, s)
      else reset_with_token req (w.tokens.first (matches req) s) s

  abbrev let_in : Option User → Step Session User
  let_in none = Step.stop (failed 401 (text "User not found"))
  let_in (some user) = Step.go user

  -- `JwtAuth.Handle`: the user that it leaves in the context of the next handler, or its answer.
  unfoldable pub jwt_auth : Text → S → Step Session User
  jwt_auth header s =
      if is_empty header
      then Step.stop (failed 401 (text "Authorization header is required"))
      else if not (w.parse_token header s)
      then Step.stop (failed 401 (text "Invalid or expired token"))
      else let_in (found_user (w.current_user s))
