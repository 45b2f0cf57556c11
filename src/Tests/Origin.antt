-- ===== src/Tests/Origin.antt =====
-- The address of a client, for the requests of the tests of app/http/helpers.
use ponta_drive_api.Base.{◌≡◌, refl, Bool, [], none, some}
use ponta_drive_api.Base.Text.{Text, text, trim_space, split, has_char, cut}
use ponta_drive_api.Api.Origin.{Origin, get_client_ip}

-- A rough test for addresses, and the host in front of a port.
abbrev rough_ip : Text → Bool
rough_ip t = has_char t b'.'

abbrev host : Text → Text
host t = elim (cut t b':') [ none ↦ [] | some (before, after) ↦ before ]

abbrev direct : Origin
direct = record {
  forwarded_for = [];
  real_ip = [];
  user_agent = text "Mozilla/5.0";
  remote_address = text "192.168.1.100:12345";
}

prefers_forwarded :
    get_client_ip rough_ip host (record direct { forwarded_for = text "203.0.113.1, 198.51.100.1" })
    ≡ text "203.0.113.1"
unfolding get_client_ip split trim_space has_char cut
prefers_forwarded = refl

falls_back_to_real_ip :
    get_client_ip rough_ip host (record direct { real_ip = text "203.0.113.5" })
    ≡ text "203.0.113.5"
unfolding get_client_ip split trim_space has_char cut
falls_back_to_real_ip = refl

skips_invalid_forwarded :
    get_client_ip rough_ip host (record direct {
      forwarded_for = text "not-an-ip, 198.51.100.1";
      real_ip = text "203.0.113.5";
    })
    ≡ text "203.0.113.5"
unfolding get_client_ip split trim_space has_char cut
skips_invalid_forwarded = refl

falls_back_to_remote : get_client_ip rough_ip host direct ≡ text "192.168.1.100"
unfolding get_client_ip split trim_space has_char cut
falls_back_to_remote = refl
