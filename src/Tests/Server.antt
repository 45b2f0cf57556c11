-- ===== src/Tests/Server.antt =====
-- A database server that keeps the laws that the listing relies on: binary collation, LIKE without
-- wildcards, and every time written as the same text, which is read as 0.
use ponta_drive_api.Base.{ℕ, ap, false, Option, none, some, [], ◌∷◌}
use ponta_drive_api.Base.Int.{ℤ, pos}
use ponta_drive_api.Base.Text.{Text, text, same}
use ponta_drive_api.Base.Decimal.{parse_int, parse_int-format_int, half_64}
use ponta_drive_api.Models.{DriveItem, type_file, status_ready}
use ponta_drive_api.Listing.{Server, ServerLaws}
use ponta_drive_api.Listing.Query.{pattern_of}

abbrev int_or_zero : Option ℤ → ℤ
int_or_zero none = pos 0
int_or_zero (some z) = z

abbrev pub small_server : Server
small_server = record {
  weight = λ t. t;
  like = λ name pattern. same (pattern_of name) pattern;
  read_int = λ t. int_or_zero (parse_int half_64 t);
  read_time = λ t. 0;
  format_time = λ t. text "2006-01-02 15:04:05";
}

pub small_server-ServerLaws : ServerLaws small_server
small_server-ServerLaws = record {
  reads_int = λ z h. ap int_or_zero (parse_int-format_int half_64 z h);
}

-- An item of user 1 in account 1.
abbrev pub item_at : ℕ → Option ℕ → Text → Text → ℕ → Option ℕ → DriveItem
item_at id parent_id name item_type size time = record {
  id = id;
  created_at = time;
  updated_at = time;
  uuid = id ∷ [];
  user_id = 1;
  cloud_account_id = 1;
  parent_id = parent_id;
  name = name;
  item_type = item_type;
  mime_type = [];
  size = pos size;
  extension = [];
  storage_path = name;
  etag = [];
  is_starred = false;
  status = status_ready;
}

abbrev pub file_at : ℕ → Option ℕ → Text → ℕ → Option ℕ → DriveItem
file_at id parent_id name size time = item_at id parent_id name type_file size time
