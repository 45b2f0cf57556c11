-- ===== src/Api/Origin.antt =====
-- Who sends a request: app/http/helpers/request_helper.go.
use ponta_drive_api.Base.{
  ◌≡◌, refl, ◌⊎◌, inl, inr, Bool, true, not, ◌&&◌, List, [], ◌∷◌, if◌then◌else◌, Bool-cases,
  and_split, Option,
}
use ponta_drive_api.Base.Text.{Text, is_empty, trim_space, split}
use ponta_drive_api.Auth.{User}
use ponta_drive_api.Api.{Caller}

-- The headers X-Forwarded-For, X-Real-IP and User-Agent, empty where they are missing, and the remote
-- address of the connection.
pub record Origin : Type 0 where
  pub forwarded_for : Text
  pub real_ip : Text
  pub user_agent : Text
  pub remote_address : Text

-- `strings.Split` gives at least one part.
abbrev first_part : List Text → Text
first_part [] = []
first_part (part ∷ parts) = part

-- `is_ip` says whether `net.ParseIP` reads a text, and `host_of` is the host of `net.SplitHostPort`,
-- empty on an error.
module _ (is_ip : Text → Bool) (host_of : Text → Text) where
  -- `GetClientIP`
  unfoldable pub get_client_ip : Origin → Text
  get_client_ip r =
      let forwarded = trim_space (first_part (split r.forwarded_for b',')) in
      if not (is_empty r.forwarded_for) && is_ip forwarded
      then forwarded
      else if not (is_empty r.real_ip) && is_ip r.real_ip
      then r.real_ip
      else host_of r.remote_address

  -- What goes into the log as the address is an address, or the host of the connection, whatever the
  -- headers of the client hold.
  get_client_ip-cases :
      (r : Origin) → (is_ip (get_client_ip r) ≡ true) ⊎ (get_client_ip r ≡ host_of r.remote_address)
  unfolding get_client_ip
  get_client_ip-cases r =
      let forwarded = trim_space (first_part (split r.forwarded_for b',')) in
      elim (Bool-cases (not (is_empty r.forwarded_for) && is_ip forwarded)) [
        | inl valid ↦
            rw valid (inl (and_split (not (is_empty r.forwarded_for)) (is_ip forwarded) valid).1)
        | inr none_valid ↦ elim (Bool-cases (not (is_empty r.real_ip) && is_ip r.real_ip)) [
          | inl valid ↦
              rw none_valid
                (rw valid (inl (and_split (not (is_empty r.real_ip)) (is_ip r.real_ip) valid).1))
          | inr neither ↦ rw none_valid (rw neither (inr refl))
        ]
      ]

  -- `GetUserAgent`
  unfoldable pub get_user_agent : Origin → Text
  get_user_agent r = r.user_agent

  -- What the handlers know of a request.
  abbrev pub caller_of : Option User → Origin → Caller
  caller_of user r = record { user = user; ip = get_client_ip r; agent = get_user_agent r }
