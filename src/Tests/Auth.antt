-- ===== src/Tests/Auth.antt =====
-- A desk with one user and at most one token, for the handlers of app/http/controllers/auth_controller.go.
use ponta_drive_api.Base.{
  ℕ, ◌≡◌, refl, Bool, true, false, Option, none, some, [], ◌∷◌, ◌++◌, arith, ◌==◌, if◌then◌else◌,
  inl, inr, Bool-cases, ◌⊎◌,
}
use ponta_drive_api.Base.Int.{pos}
use ponta_drive_api.Base.Text.{Text, text, same, is_empty}
use ponta_drive_api.Service.{Table}
use ponta_drive_api.Service.Database.{TableLaws}
use ponta_drive_api.Web.{notice, failed, accepted}
use ponta_drive_api.Auth.{
  User, PasswordResetToken, ForgotPasswordRequest, ResetPasswordRequest, ResetMail, World,
}
use ponta_drive_api.Auth.Handlers.{
  forgot_password, reset_password, by_email, hash_token, token_expired,
}
use ponta_drive_api.Auth.Link.{Apart, Fresh, reset_password-forgot_password}
use ponta_drive_api.Auth.Reset.{
  reset_password-view, reset_password_once, forgot_password_silent, HoldsToken, SameButPassword,
  touched_user,
}

pub record Desk : Type 0 where
  pub person : User
  pub token : Option PasswordResetToken

abbrev pub no_user : User
no_user = record {
  id = 0;
  created_at = none;
  updated_at = none;
  uuid = [];
  name = [];
  username = [];
  email = [];
  password = [];
  avatar = [];
}

abbrev pub no_token : PasswordResetToken
no_token = record { email = []; token = []; created_at = none }

abbrev pub user_view : Desk → ℕ → Option User
user_view s n = if n == 0 then none else if n == s.person.id then some s.person else none

abbrev pub users_table : Table Desk User
users_table = record {
  first =
      λ q s. some (if s.person.id == 0 then no_user else if q s.person then s.person else no_user);
  get = λ q s. some [];
  create = λ x s. (none, s);
  save = λ x s.
      if x.id == 0
      then (false, s)
      else if x.id == s.person.id
      then (true, record s { person = record x { updated_at = some 9 } })
      else (false, s);
  delete = λ q s. (false, s);
  force_delete = λ q s. (false, s);
}

users-TableLaws : TableLaws users_table (λ u. u.id) touched_user user_view
users-TableLaws = record {
  clock = λ s. 9;
  keyed = λ s n x h. ground arith;
  answers = λ q s. (_, refl);
  meets = λ q s a h k. ground arith;
  misses = λ q s a h k n x l. ground arith;
  saves = λ s x n h. ground arith;
  refuses = λ s x n h. ground arith;
}

abbrev pub chosen : (PasswordResetToken → Bool) → Option PasswordResetToken → PasswordResetToken
chosen q none = no_token
chosen q (some t) = if q t then t else no_token

abbrev pub left_over :
    (PasswordResetToken → Bool) → Option PasswordResetToken → Option PasswordResetToken
left_over q none = none
left_over q (some t) = if q t then none else some t

abbrev pub tokens_table : Table Desk PasswordResetToken
tokens_table = record {
  first = λ q s. some (chosen q s.token);
  get = λ q s. some [];
  create = λ x s. (some x, record s { token = some x });
  save = λ x s. (false, s);
  delete = λ q s. (true, record s { token = left_over q s.token });
  force_delete = λ q s. (false, s);
}

abbrev pub desk_world : World Desk
desk_world = record {
  users = users_table;
  tokens = tokens_table;
  query_works = λ s. true;
  check_hash = λ plain hash. same (35 ∷ plain) hash;
  make_hash = λ plain s. (some (35 ∷ plain), s);
  sha256_hex = λ t. 36 ∷ t;
  random_hex = λ s. (some (text "r4nd"), s);
  parse_token = λ t s. true;
  current_user = λ s. some s.person;
  login = λ u s. (some (text "jwt"), s);
  refresh = λ s. (some (text "jwt"), s);
  logout = λ s. (true, s);
  minutes_since = λ at s. pos 5;
  send_mail = λ mail s. s;
  query_escape = λ t. t;
  jwt_ttl = 60;
  frontend_url = text "http://localhost:5173";
  logo_url = [];
}

abbrev pub an : User
an = record no_user { id = 7; email = text "an@x.vn"; password = text "#old" }

abbrev pub desk : Desk
desk = record { person = an; token = none }

abbrev forgetful : ForgotPasswordRequest
forgetful = record { email = text "an@x.vn" }

abbrev asked : Desk
asked = record {
  person = an;
  token = some (record { email = text "an@x.vn"; token = text "$r4nd"; created_at = none });
}

-- A forgotten password leaves a token in the table.
issues :
    forgot_password desk_world (accepted forgetful) desk
    ≡ (notice (text "auth.forgot_password_success"), asked)
unfolding forgot_password same
issues = refl

abbrev reset_request : ResetPasswordRequest
reset_request = record { email = text "an@x.vn"; token = text "r4nd"; password = text "new" }

resets : reset_password desk_world (accepted reset_request) asked ≡ (
  notice (text "auth.reset_password_success"),
  record { person = record an { password = text "#new"; updated_at = some 9 }; token = none },
)
unfolding reset_password same
resets = refl

desk_removes :
    (p q : PasswordResetToken → Bool) (stored : Option PasswordResetToken)
    → ((t : PasswordResetToken) → q t ≡ true → p t ≡ true)
    → is_empty (chosen q (left_over p stored)).token ≡ true
desk_removes p q none covers = refl
desk_removes p q (some t) covers = elim (Bool-cases (p t)) [
  | inl gone ↦ rw gone refl
  | inr kept ↦ elim (Bool-cases (q t)) [
    | inl hit ↦ absurd (cc (kept, covers t hit))
    | inr miss ↦ rw (kept, miss) refl
  ]
]

token_meets :
    (q : PasswordResetToken → Bool) (stored : Option PasswordResetToken) (t : PasswordResetToken)
    → some (chosen q stored) ≡ some t
    → is_empty t.token ≡ false
    → q t ≡ true
token_meets q none t h k = absurd (ground arith)
token_meets q (some u) t h k = ground arith

abbrev renewed_desk : Desk
renewed_desk = record {
  person = record an { password = text "#new"; updated_at = some 9 };
  token = none;
}

reset_password_once_example :
    reset_password desk_world (accepted reset_request) renewed_desk
    ≡ (failed 400 (text "auth.reset_token_invalid"), renewed_desk)
reset_password_once_example =
    reset_password_once desk_world
      (λ p q s covers. (chosen q (left_over p s.token), refl, desk_removes p q s.token covers))
      reset_request reset_request asked renewed_desk resets refl refl

an_found : users_table.first (by_email (text "an@x.vn")) desk ≡ some an
unfolding same
an_found = refl

forgot_password_silent_example :
    (forgot_password desk_world (accepted forgetful) desk).0
    ≡ (forgot_password desk_world
        (accepted forgetful)
        (record { person = no_user; token = none })).0
forgot_password_silent_example =
    forgot_password_silent desk_world forgetful desk (record { person = no_user; token = none }) an
      no_user refl refl an_found refl

reset_password-view_example :
    (user_view ((reset_password desk_world (accepted reset_request) asked).1) 7 ≡ user_view asked 7)
    ⊎ ((user : User) × (user_view asked 7 ≡ some user)
        × (same user.email reset_request.email ≡ true)
        × HoldsToken desk_world reset_request asked
        × (new : User) × (user_view ((reset_password desk_world (accepted reset_request) asked).1) 7
            ≡ some new)
        × SameButPassword user new)
reset_password-view_example =
    reset_password-view desk_world user_view users-TableLaws
      (λ q s t h k. token_meets q s.token t h k) (λ p s n. refl) (λ q s n. refl) reset_request asked
      7

desk-Apart : Apart desk_world
desk-Apart = record {
  draws = λ q s. refl;
  deletes = λ p q s. refl;
  creates = λ t q s. refl;
  mails = λ m q s. refl;
}

new_not_expired :
    (x : PasswordResetToken) (s : Desk) → x.created_at ≡ none → token_expired desk_world x s ≡ false
unfolding token_expired
new_not_expired x s h = rw h refl

desk-Fresh : Fresh desk_world
desk-Fresh q x mail s h k covers =
    (x, rw k refl, refl, new_not_expired x (record s { token = some x }) h)

desk_hashes : (raw : Text) → is_empty (hash_token desk_world raw) ≡ false
unfolding hash_token
desk_hashes raw = refl

reset_password-forgot_password_example :
    (s' : Desk) × (mail : ResetMail) × ((forgot_password desk_world (accepted forgetful) desk).1
      ≡ desk_world.send_mail mail s')
    × (mail.to ≡ text "an@x.vn")
    × (mail.reset_url
        ≡ text "http://localhost:5173"
          ++ text "/reset-password?token="
          ++ text "r4nd"
          ++ text "&email="
          ++ text "an@x.vn")
    × (reset_password desk_world
          (accepted reset_request)
          ((forgot_password desk_world (accepted forgetful) desk).1)
        ≡ (
          notice (text "auth.reset_password_success"),
          (desk_world.tokens.delete
              (λ t. same t.email (text "an@x.vn"))
              (desk_world.users.save
                (record an { password = text "#new" })
                (desk_world.make_hash
                  (text "new")
                  ((forgot_password desk_world (accepted forgetful) desk).1)).1).1).1,
        ))
reset_password-forgot_password_example =
    reset_password-forgot_password desk_world (λ s. refl) desk-Apart desk-Fresh desk_hashes
      forgetful (text "r4nd") (text "new") (text "#new") desk an an_found refl refl refl
