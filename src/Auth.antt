-- ===== src/Auth.antt =====
-- Log in, log out and the reset of a password: app/http/controllers/auth_controller.go,
-- app/http/middleware/jwt_auth.go, app/models/user.go and app/models/password_reset_token.go.
--
-- The tokens of a session, the hashes of passwords, the random source, the mail and the two tables
-- are the world's; nothing is assumed of them here.
pub mod Users
pub mod Handlers
pub mod Reset
pub mod Link
pub mod Commands
pub mod Enrolment
use ponta_drive_api.Base.{ℕ, Bool, Option}
use ponta_drive_api.Base.Int.{ℤ}
use ponta_drive_api.Base.Text.{Text}
use ponta_drive_api.Service.{Table}

pub record User : Type 0 where
  pub id : ℕ
  pub created_at : Option ℕ
  pub updated_at : Option ℕ
  pub uuid : Text
  pub name : Text
  pub username : Text
  pub email : Text
  pub password : Text
  pub avatar : Text

pub record PasswordResetToken : Type 0 where
  pub email : Text
  pub token : Text
  pub created_at : Option ℕ

pub record LoginRequest : Type 0 where
  pub email : Text
  pub password : Text

pub record ForgotPasswordRequest : Type 0 where
  pub email : Text

pub record ResetPasswordRequest : Type 0 where
  pub email : Text
  pub token : Text
  pub password : Text

-- The mail that `ForgotPassword` sends, but for its subject and the year.
pub record ResetMail : Type 0 where
  pub to : Text
  pub name : Text
  pub email : Text
  pub reset_url : Text
  pub expire_minutes : ℕ
  pub logo_url : Text

-- `query_works` is `SafeQuery`; `check_hash` and `make_hash` are those of `Hash()`; `sha256_hex` is
-- the SHA-256 sum in hex; `random_hex` is 32 random bytes in hex; `parse_token`, `current_user`,
-- `login`, `refresh` and `logout` are those of `Auth(ctx)`; `minutes_since` is `DiffInMinutes` from a
-- time to now; `send_mail` starts the sending; `query_escape` is `url.QueryEscape`.
pub record World (S : Type 0) : Type 0 where
  pub users : Table S User
  pub tokens : Table S PasswordResetToken
  pub query_works : S → Bool
  pub check_hash : Text → Text → Bool
  pub make_hash : Text → S → Option Text × S
  pub sha256_hex : Text → Text
  pub random_hex : S → Option Text × S
  pub parse_token : Text → S → Bool
  pub current_user : S → Option User
  pub login : User → S → Option Text × S
  pub refresh : S → Option Text × S
  pub logout : S → Bool × S
  pub minutes_since : ℕ → S → ℤ
  pub send_mail : ResetMail → S → S
  pub query_escape : Text → Text
  pub jwt_ttl : ℕ
  pub frontend_url : Text
  pub logo_url : Text
