-- ===== src/Auth/Users.antt =====
-- `GetAvatar` and `ToResponse` of app/models/user.go.
use ponta_drive_api.Base.{ℕ, not, ◌++◌, if◌then◌else◌}
use ponta_drive_api.Base.Text.{Text, text, is_empty, trim_space}
use ponta_drive_api.Auth.{User}

-- The name that stands for a user without a picture.
unfoldable pub display_name : User → Text
display_name u =
    let name = trim_space u.name in
    let name = if is_empty name then u.username else name in
    if is_empty name then text "User" else name

unfoldable pub get_avatar : (Text → Text) → User → Text
unfolding display_name
get_avatar query_escape u =
    if not (is_empty (trim_space u.avatar))
    then u.avatar
    else text "https://ui-avatars.com/api/?name="
      ++ query_escape (display_name u)
      ++ text "&background=random"

-- What a client sees of a user, but for the timestamps; the password is not in it.
pub record UserView : Type 0 where
  pub id : ℕ
  pub uuid : Text
  pub name : Text
  pub username : Text
  pub email : Text
  pub avatar : Text

unfoldable pub to_response : (Text → Text) → User → UserView
unfolding get_avatar
to_response query_escape u = record {
  id = u.id;
  uuid = u.uuid;
  name = u.name;
  username = u.username;
  email = u.email;
  avatar = get_avatar query_escape u;
}
