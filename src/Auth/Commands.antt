-- ===== src/Auth/Commands.antt =====
-- The command user:create of app/console/commands/create_user.go, and the email that the requests of
-- the log in and of the reset prepare (app/http/requests).
use ponta_drive_api.Base.{ℕ, Bool, true, false, Option, none, some, ◌||◌, ltb, if◌then◌else◌}
use ponta_drive_api.Base.Text.{Text, same, is_empty, trim_space, to_lower}
use ponta_drive_api.Auth.{User, World}
use ponta_drive_api.Auth.Users.{get_avatar}

pub record Options : Type 0 where
  pub username : Text
  pub email : Text
  pub name : Text
  pub password : Text
  pub avatar : Text

-- The console, which asks for what no option gives, and what else the command calls: `count` is the
-- query for the number of users, `none` its error, and `new_uuid` a random identifier.
pub record Console (S : Type 0) : Type 0 where
  pub ask_username : S → Option Text × S
  pub ask_email : S → Option Text × S
  pub ask_name : S → Option Text × S
  pub ask_password : S → Option Text × S
  pub count : (User → Bool) → S → Option ℕ
  pub new_uuid : S → Text × S

-- How the command ends without a new user: with a message and no error, or with an error.
pub data Ended : Type 0 where
  username_required email_required password_required already_exists : Ended
  name_failed count_failed hash_failed create_failed : Ended

pub data Stage (A : Type 0) : Type 0 where
  go : A → Stage A
  stop : Ended → Stage A

abbrev pub Command : Type 0 → Type 0 → Type 0
Command S A = S → Stage A × S

module _ {S : Type 0} where
  infixl 5 ◌>>=◌
  abbrev pub ◌>>=◌ : {A B : Type 0} → Command S A → (A → Command S B) → Command S B
  ◌>>=◌ m f s = let (r, s') = m s in elim r [ go a ↦ f a s' | stop e ↦ (stop e, s') ]

  abbrev pub stop_if : Bool → Ended → Command S (Unit {0})
  stop_if true e s = (stop e, s)
  stop_if false e s = (go tt, s)

  abbrev pub or_stop : {A : Type 0} → Option A → Ended → Command S A
  or_stop none e s = (stop e, s)
  or_stop (some a) e s = (go a, s)

  abbrev pub perform : {A : Type 0} → (S → A × S) → Command S A
  perform f s = let (a, s') = f s in (go a, s')

  -- An answer that is not blank, without the space around it.
  unfoldable pub required : (S → Option Text × S) → Ended → Command S Text
  required ask e = do
    given ← perform ask
    answer ← or_stop given e
    tested ← stop_if (is_empty (trim_space answer)) e
    λ s. (go (trim_space answer), s)

  unfoldable pub named_or : Text → (S → Option Text × S) → Command S Text
  named_or username ask = do
    given ← perform ask
    answer ← or_stop given name_failed
    λ s. (go (if is_empty (trim_space answer) then username else trim_space answer), s)

  -- A password is taken as it is.
  unfoldable pub secret : (S → Option Text × S) → Command S Text
  secret ask = do
    given ← perform ask
    answer ← or_stop given password_required
    tested ← stop_if (is_empty answer) password_required
    λ s. (go answer, s)

  abbrev pub unless_given : Text → Command S Text → Command S Text
  unless_given given ask = if is_empty given then ask else λ s. (go given, s)

abbrev pub taken : Text → Text → User → Bool
taken username email u = same u.username username || same u.email email

unfoldable pub new_user : (Text → Text) → Text → Text → Text → Text → Text → Text → User
new_user query_escape uuid username email name hashed avatar =
    let user : User = record {
      id = 0;
      created_at = none;
      updated_at = none;
      uuid = uuid;
      name = name;
      username = username;
      email = email;
      password = hashed;
      avatar = avatar;
    } in
    if is_empty avatar then record user { avatar = get_avatar query_escape user } else user

module _ {S : Type 0} (w : World S) (console : Console S) where
  -- The part behind the questions.
  unfoldable pub store_user : Text → Text → Text → Text → Text → Command S User
  unfolding new_user
  store_user username email name password avatar = do
    counted ← λ s. (go (console.count (taken username email) s), s)
    count ← or_stop counted count_failed
    free ← stop_if (ltb 0 count) already_exists
    made ← perform (w.make_hash password)
    hashed ← or_stop made hash_failed
    uuid ← perform console.new_uuid
    row ← perform (w.users.create (new_user w.query_escape uuid username email name hashed avatar))
    or_stop row create_failed

  -- `Handle`, but for what it prints
  unfoldable pub create_user : Options → Command S User
  unfolding required named_or secret store_user
  create_user options = do
    username ←
        unless_given (trim_space options.username) (required console.ask_username username_required)
    email ← unless_given (trim_space options.email) (required console.ask_email email_required)
    name ← unless_given (trim_space options.name) (named_or username console.ask_name)
    password ← unless_given options.password (secret console.ask_password)
    store_user username email name password (trim_space options.avatar)

-- `PrepareForValidation` of the requests with an email
unfoldable pub prepared_email : Text → Text
prepared_email email = to_lower (trim_space email)
