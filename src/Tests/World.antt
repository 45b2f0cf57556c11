-- ===== src/Tests/World.antt =====
-- A database of items as a list, in which the first row of an id counts, with one account and a
-- driver that signs downloads and has no objects. It keeps the laws that the theorems on the service ask for.
use ponta_drive_api.Base.{
  ℕ, ◌<◌, ◌≡◌, refl, Bool, true, false, Option, none, some, List, [], ◌∷◌, arith, contains, drop,
  ◌==◌, if◌then◌else◌, Bool-cases, inl, inr,
}
use ponta_drive_api.Base.Int.{pos}
use ponta_drive_api.Base.Text.{text}
use ponta_drive_api.Models.{DriveItem, CloudAccount, UploadSession, provider_minio}
use ponta_drive_api.Service.{Table, Driver, Outside}
use ponta_drive_api.Service.Database.{TableLaws, touched, ItemLaws}
use ponta_drive_api.Tests.Server.{item_at}
use ponta_drive_api.Tests.Codecs.{
  small_parts, read_credentials, write_credentials, read-write_credentials,
}
use ponta_drive_api.Accounts.{AccountTools, no_credentials}
use ponta_drive_api.Accounts.Laws.{CryptLaws}

abbrev no_item : DriveItem
no_item = item_at 0 none [] [] 0 none

unfoldable pub first_of : (DriveItem → Bool) → List ℕ → List DriveItem → DriveItem
first_of q seen [] = no_item
first_of q seen (x ∷ xs) =
    let rest = first_of q seen xs in
    let others = first_of q (x.id ∷ seen) xs in
    if contains x.id seen then rest else if q x then x else others

unfoldable pub row_of : ℕ → List DriveItem → Option DriveItem
row_of n [] = none
row_of n (x ∷ xs) = let rest = row_of n xs in if x.id == n then some x else rest

abbrev pub live : List DriveItem → ℕ → Option DriveItem
live s n = if n == 0 then none else row_of n s

abbrev save_row : DriveItem → List DriveItem → Bool × List DriveItem
save_row x s = if x.id == 0 then (false, s) else (true, touched 0 x ∷ s)

first_of-meets :
    (q : DriveItem → Bool) (seen : List ℕ) (s : List DriveItem) (a : DriveItem)
    → first_of q seen s ≡ a
    → 0 < a.id
    → (q a ≡ true) × (contains a.id seen ≡ false) × (row_of a.id s ≡ some a)
unfolding first_of row_of
first_of-meets q seen [] a h k = absurd (ground arith)
first_of-meets q seen (x ∷ xs) a h k = elim (Bool-cases (contains x.id seen)) [
  | inl again ↦ ground (arith, first_of-meets q seen xs a)
  | inr fresh ↦ elim (Bool-cases (q x)) [
    | inl hit ↦ ground arith
    | inr miss ↦ ground (arith, first_of-meets q (x.id ∷ seen) xs a)
  ]
]

first_of-misses :
    (q : DriveItem → Bool) (seen : List ℕ) (s : List DriveItem) (n : ℕ) (x : DriveItem)
    → contains 0 seen ≡ true
    → (first_of q seen s).id ≡ 0
    → row_of n s ≡ some x
    → contains n seen ≡ false
    → q x ≡ false
unfolding first_of row_of
first_of-misses q seen [] n x z h k l = absurd (cc)
first_of-misses q seen (y ∷ ys) n x z h k l = elim (Bool-cases (contains y.id seen)) [
  | inl again ↦ ground (arith, first_of-misses q seen ys n x)
  | inr fresh ↦ elim (Bool-cases (q y)) [
    | inl hit ↦ absurd (ground arith)
    | inr miss ↦ ground (arith, first_of-misses q (y.id ∷ seen) ys n x)
  ]
]

row_of-keyed : (n : ℕ) (s : List DriveItem) (x : DriveItem) → row_of n s ≡ some x → x.id ≡ n
unfolding row_of
row_of-keyed n [] x h = absurd (cc)
row_of-keyed n (y ∷ ys) x h = ground (arith, row_of-keyed n ys x)

abbrev pub items_table : Table (List DriveItem) DriveItem
items_table = record {
  first = λ q s. some (first_of q (0 ∷ []) s);
  get = λ q s. some [];
  create = λ x s. (none, s);
  save = save_row;
  delete = λ q s. (false, s);
  force_delete = λ q s. (false, s);
}

items_table-TableLaws : TableLaws items_table (λ i. i.id) touched live
unfolding row_of
items_table-TableLaws = record {
  clock = λ s. 0;
  keyed = λ s n x h. ground (arith, row_of-keyed n s x);
  answers = λ q s. (first_of q (0 ∷ []) s, refl);
  meets = λ q s a h k. ground (arith, first_of-meets q (0 ∷ []) s a);
  misses = λ q s a h k n x l. ground (arith, first_of-misses q (0 ∷ []) s n x);
  saves = λ s x n h. ground arith;
  refuses = λ s x n h. ground arith;
}

abbrev pub home : CloudAccount
home = record {
  id = 1;
  user_id = 1;
  name = text "home";
  provider = provider_minio;
  credentials = 1 ∷ write_credentials no_credentials;
  is_default = true;
  is_active = true;
  sync_status = [];
  last_synced_at = none;
  total_storage = pos 0;
  used_storage = pos 0;
  uuid = [];
}

abbrev pub accounts_table : {S : Type 0} → Table S CloudAccount
accounts_table = record {
  first = λ q s. some (if q home then home else record home { id = 0 });
  get = λ q s. some [];
  create = λ x s. (none, s);
  save = λ x s. (true, s);
  delete = λ q s. (false, s);
  force_delete = λ q s. (false, s);
}

abbrev sessions_table : {S : Type 0} → Table S UploadSession
sessions_table = record {
  first = λ q s. none;
  get = λ q s. some [];
  create = λ x s. (none, s);
  save = λ x s. (false, s);
  delete = λ q s. (false, s);
  force_delete = λ q s. (false, s);
}

abbrev pub no_objects : {S : Type 0} → Driver S
no_objects = record {
  get_object = λ k s. (none, s);
  delete_object = λ k s. (true, s);
  get_metadata = λ k s. (none, s);
  presign_upload = λ k m t s. (none, s);
  presign_download = λ k n t s. (some (text "https://a"), s);
  initiate_multipart = λ k m s. (none, s);
  upload_part = λ k u n b z s. (none, s);
  complete_multipart = λ k u ps s. (false, s);
  abort_multipart = λ k u s. (true, s);
  list_objects = λ p t n s. (none, s);
  delete_objects = λ ks s. (true, s);
  get_range = λ k a b s. (none, s);
  get_bucket_cors = λ s. (none, s);
  put_bucket_cors = λ rs s. (false, s);
  public_url = [];
}

abbrev pub world_over : {S : Type 0} → Table S DriveItem → Outside S
world_over table = record {
  items = table;
  accounts = accounts_table;
  sessions = sessions_table;
  sum_sizes = λ q s. some (pos 0);
  new_uuid = λ s. (text "u", s);
  in_a_day = λ s. 0;
  is_past = λ t s. false;
  decrypt = λ t. some (drop 1 t);
  read_credentials = read_credentials;
  new_s3_driver = λ c. some no_objects;
  head_status = λ t s. none;
  parts_codec = small_parts;
}

abbrev pub world : Outside (List DriveItem)
world = world_over items_table

pub world-ItemLaws : ItemLaws world live
world-ItemLaws = items_table-TableLaws

abbrev pub tools : AccountTools (List DriveItem)
tools = record {
  unset_default = λ u s. s;
  write_credentials = λ c. some (write_credentials c);
  encrypt = λ t. some (1 ∷ t);
  frontend_url = text "http://localhost:5173";
}

pub tools-CryptLaws : CryptLaws world tools
tools-CryptLaws = record {
  round_trip = λ c. (
    write_credentials c,
    1 ∷ write_credentials c,
    refl,
    refl,
    refl,
    refl,
    read-write_credentials c,
  );
}
