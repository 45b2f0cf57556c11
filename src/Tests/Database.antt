-- ===== src/Tests/Database.antt =====
-- A table of items in memory, which creates, changes and deletes rows, and a history of calls over it.
use ponta_drive_api.Base.{
  ℕ, zero, suc, ◌+◌, ◌<◌, ◌≡◌, refl, sym, ap, ◌∙◌, subst, inl, inr, Bool, true, false, Option, none,
  some, List, [], ◌∷◌, arith, ltb, ◌==◌, if◌then◌else◌, Bool-cases, Option-cases,
}
use ponta_drive_api.Base.Order.Sort.{All}
use ponta_drive_api.Models.{DriveItem}
use ponta_drive_api.Service.{Table, Outside}
use ponta_drive_api.Service.Database.{TableLaws, touched}
use ponta_drive_api.Tests.Server.{item_at}
use ponta_drive_api.Base.Text.{text}
use ponta_drive_api.Service.Items.{create_folder}
use ponta_drive_api.Service.Calls.{Call, after, after_all}
use ponta_drive_api.Service.Isolation.{Gone, Clear, Apart}
use ponta_drive_api.Service.Isolation.History.{own, after_all-own}
use ponta_drive_api.Tests.World.{world_over, no_objects}

-- The rows below the next id; a row has its place as its id.
record Store : Type 0 where
  rows : ℕ → Option DriveItem
  next : ℕ

abbrev no_row : DriveItem
no_row = item_at 0 none [] [] 0 none

abbrev placed : ℕ → Option DriveItem → Option DriveItem
placed n none = none
placed n (some x) = some (record x { id = n })

abbrev stored : Store → ℕ → Option DriveItem
stored s n = if n == 0 then none else if ltb n s.next then placed n (s.rows n) else none

-- A row that is there and passes a test.
abbrev selected : (DriveItem → Bool) → Option DriveItem → Option DriveItem
selected q none = none
selected q (some x) = if q x then some x else none

abbrev or_else : Option DriveItem → DriveItem → DriveItem
or_else none y = y
or_else (some x) y = x

abbrev onto : Option DriveItem → List DriveItem → List DriveItem
onto none xs = xs
onto (some x) xs = x ∷ xs

-- The row with the highest id below `n` that passes a test.
unfoldable search_below : (DriveItem → Bool) → Store → ℕ → DriveItem
search_below q s zero = no_row
search_below q s (suc n) = or_else (selected q (stored s n)) (search_below q s n)

unfoldable all_below : (DriveItem → Bool) → Store → ℕ → List DriveItem
all_below q s zero = []
all_below q s (suc n) = onto (selected q (stored s n)) (all_below q s n)

abbrev there : Option DriveItem → Bool
there none = false
there (some x) = true

abbrev without : (DriveItem → Bool) → Store → Store
without q s = record s { rows = λ n. if there (selected q (stored s n)) then none else s.rows n }

abbrev written : DriveItem → Store → Store
written x s = record s { rows = λ m. if m == x.id then some (touched 0 x) else s.rows m }

-- A new row gets an id above all that were given.
abbrev added : DriveItem → Store → Store
added x s = record {
  rows = λ m. if m == s.next + 1 then some x else if ltb m s.next then s.rows m else none;
  next = s.next + 2;
}

abbrev table : Table Store DriveItem
table = record {
  first = λ q s. some (search_below q s s.next);
  get = λ q s. some (all_below q s s.next);
  create = λ x s. (some (record x { id = s.next + 1 }), added x s);
  save = λ x s. (there (stored s x.id), if there (stored s x.id) then written x s else s);
  delete = λ q s. (true, without q s);
  force_delete = λ q s. (true, without q s);
}

placed-id : (n : ℕ) (row : Option DriveItem) (x : DriveItem) → placed n row ≡ some x → x.id ≡ n
placed-id n none x h = absurd cc
placed-id n (some y) x h = ground arith

stored-keyed :
    (s : Store) (n : ℕ) (x : DriveItem) → stored s n ≡ some x → (x.id ≡ n) × (0 < n) × (n < s.next)
stored-keyed s n x h = elim (Bool-cases (n == 0)) [
  | inl zero_id ↦ absurd (ground arith)
  | inr saved ↦ elim (Bool-cases (ltb n s.next)) [
    | inl below ↦ (placed-id n (s.rows n) x (ground arith), ground arith, ground arith)
    | inr above ↦ absurd (ground arith)
  ]
]

selected-some :
    (q : DriveItem → Bool) (row : Option DriveItem) (x : DriveItem)
    → selected q row ≡ some x
    → (q x ≡ true) × (row ≡ some x)
selected-some q none x h = absurd cc
selected-some q (some y) x h = ground arith

selected-none :
    (q : DriveItem → Bool) (row : Option DriveItem) (x : DriveItem)
    → selected q row ≡ none
    → row ≡ some x
    → q x ≡ false
selected-none q row x h e = elim (Bool-cases (q x)) [
  | inl hit ↦ absurd (ground arith)
  | inr miss ↦ miss
]

search-meets :
    (q : DriveItem → Bool) (s : Store) (n : ℕ) (a : DriveItem)
    → search_below q s n ≡ a
    → 0 < a.id
    → (q a ≡ true) × (stored s a.id ≡ some a)
unfolding search_below
search-meets q s zero a e h = absurd (ground arith)
search-meets q s (suc n) a e h = elim (Option-cases (selected q (stored s n))) [
  | inl miss ↦ search-meets q s n a (sym (rw miss refl) ∙ e) h
  | inr (x, hit) ↦
      let same : x ≡ a = sym (rw hit refl) ∙ e in
      let (passed, at) = selected-some q (stored s n) x hit in
      let key = (stored-keyed s n x at).0 in
      subst (λ b. (q b ≡ true) × (stored s b.id ≡ some b)) same
        (passed, subst (λ m. stored s m ≡ some x) (sym key) at)
]

search-misses :
    (q : DriveItem → Bool) (s : Store) (n m : ℕ) (x : DriveItem)
    → (search_below q s n).id ≡ 0
    → m < n
    → stored s m ≡ some x
    → q x ≡ false
unfolding search_below
search-misses q s zero m x z h e = absurd (omega arith)
search-misses q s (suc n) m x z h e = elim (Option-cases (selected q (stored s n))) [
  | inr (y, hit) ↦
      let key = stored-keyed s n y (selected-some q (stored s n) y hit).1 in
      let zero_id : y.id ≡ 0 = sym (rw hit refl) ∙ z in absurd (omega arith)
  | inl miss ↦ elim (Bool-cases (m == n)) [
    | inl last ↦
        let at : m ≡ n = ground arith in
        selected-none q (stored s n) x miss (subst (λ k. stored s k ≡ some x) at e)
    | inr earlier ↦ search-misses q s n m x (sym (rw miss refl) ∙ z) (ground arith) e
  ]
]

all_below-All :
    (q : DriveItem → Bool) (s : Store) (n : ℕ)
    → All (λ x. (q x ≡ true) × (stored s x.id ≡ some x)) (all_below q s n)
unfolding all_below
all_below-All q s zero = tt
all_below-All q s (suc n) = elim (Option-cases (selected q (stored s n))) [
  | inl miss ↦ rw miss (all_below-All q s n)
  | inr (x, hit) ↦
      let (passed, at) = selected-some q (stored s n) x hit in
      let key = (stored-keyed s n x at).0 in
      rw hit ((passed, subst (λ m. stored s m ≡ some x) (sym key) at), all_below-All q s n)
]

same_place : (n : ℕ) (x : DriveItem) → x.id ≡ n → (record x { id = n }) ≡ x
same_place n x h = ground arith

there-some : (row : Option DriveItem) → there row ≡ true → (x : DriveItem) × (row ≡ some x)
there-some none h = absurd cc
there-some (some x) h = (x, refl)

stored-written :
    (s : Store) (x : DriveItem) (n : ℕ)
    → there (stored s x.id) ≡ true
    → stored (written x s) n ≡ (if n == x.id then some (touched 0 x) else stored s n)
stored-written s x n h = elim (Bool-cases (n == x.id)) [
  | inl hit ↦
      let (y, at) = there-some (stored s x.id) h in
      let (key, saved, below) = stored-keyed s x.id y at in
      let place : x.id ≡ n = ground arith in
      let some_id : (n == 0) ≡ false = ground arith in
      let low : ltb n s.next ≡ true = ground arith in
      rw (some_id, low, hit) (ap some (same_place n (touched 0 x) place))
  | inr other ↦ rw other refl
]

stored-added :
    (s : Store) (x : DriveItem) (n : ℕ)
    → stored (added x s) n
      ≡ (if n == s.next + 1 then some (record x { id = s.next + 1 }) else stored s n)
stored-added s x n = elim (Bool-cases (n == s.next + 1)) [
  | inl hit ↦ let place : n ≡ s.next + 1 = ground arith in rw place (ground arith)
  | inr other ↦ elim (Bool-cases (ltb n s.next)) [
    | inl low ↦ let low' : ltb n (s.next + 2) ≡ true = ground arith in rw (other, low, low') refl
    | inr high ↦ rw (other, high) (ground arith)
  ]
]

table-TableLaws : TableLaws table (λ i. i.id) touched stored
table-TableLaws = record {
  clock = λ s. 0;
  keyed = λ s n x h. let (key, saved, below) = stored-keyed s n x h in (key, saved);
  answers = λ q s. (search_below q s s.next, refl);
  meets = λ q s a h k. search-meets q s s.next a (cc) k;
  misses = λ q s a h k n x l.
      search-misses q s s.next n x (let same : search_below q s s.next ≡ a = cc in rw same k)
        (stored-keyed s n x l).2 l;
  saves = λ s x n h. rw h (stored-written s x n h);
  refuses = λ s x n h. rw h refl;
}

without-Gone : (q : DriveItem → Bool) (s : Store) (n : ℕ) → Gone stored q s (without q s) n
without-Gone q s n = elim (Option-cases (selected q (stored s n))) [
  | inl kept ↦ inl (rw kept refl)
  | inr (x, hit) ↦
      let (passed, at) = selected-some q (stored s n) x hit in
      inr (x, at, passed, rw hit (ground arith))
]

abbrev memory : Outside Store
memory = world_over table

no_objects-Clear : Clear stored (no_objects {S = Store})
no_objects-Clear = record {
  get_object = λ k s n. refl;
  delete_object = λ k s n. refl;
  get_metadata = λ k s n. refl;
  presign_upload = λ k m t s n. refl;
  presign_download = λ k f t s n. refl;
  initiate_multipart = λ k m s n. refl;
  upload_part = λ k i p b z s n. refl;
  complete_multipart = λ k i ps s n. refl;
  abort_multipart = λ k i s n. refl;
  list_objects = λ p t m s n. refl;
  delete_objects = λ ks s n. refl;
  get_range = λ k a b s n. refl;
}

stored-next : (s : Store) → stored s (s.next + 1) ≡ none
stored-next s = ground arith

memory-Apart : Apart stored memory
memory-Apart = record {
  items = table-TableLaws;
  gets = λ q s rows e.
      subst (All (λ x. (q x ≡ true) × (stored s x.id ≡ some x))) (cc) (all_below-All q s s.next);
  creates = λ x s a e.
      let same : record x { id = s.next + 1 } ≡ a = cc in
      subst
        (λ b.
          (stored s b.id ≡ none)
          × (b.user_id ≡ x.user_id)
          × ((n : ℕ) → stored (added x s) n ≡ (if n == b.id then some b else stored s n)))
        same (stored-next s, refl, stored-added s x);
  creates_none = λ x s e. absurd cc;
  deletes = without-Gone;
  force_deletes = without-Gone;
  save_account = λ a s n. refl;
  create_session = λ x s n. refl;
  save_session = λ x s n. refl;
  delete_session = λ q s n. refl;
  new_uuid = λ s n. refl;
  drivers = λ c d e. subst (Clear stored) (cc) no_objects-Clear;
}

abbrev theirs : DriveItem
theirs = record (item_at 1 none (text "b") [] 0 none) { user_id = 2 }

abbrev shared : Store
shared = record { rows = λ n. if n == 1 then some theirs else none; next = 2 }

abbrev history : List (ℕ × Call)
history =
    (1, Call.create_folder 1 none (text "docs"))
    ∷ ((1, Call.toggle_star (text "u")) ∷ ((1, Call.delete_item 3 (text "u") true) ∷ []))

-- The first of these calls adds a row.
adds :
    there (
      stored
        (after_all memory
          ((1, Call.create_folder 1 none (text "docs")) ∷ [])
          (record { outside = shared; drivers = [] })).outside
        3)
    ≡ true
unfolding after_all after create_folder
adds = refl

after_all-own_example :
    own 2 (stored (after_all memory history (record { outside = shared; drivers = [] })).outside 1)
    ≡ some theirs
after_all-own_example =
    after_all-own memory stored memory-Apart 2 history (record { outside = shared; drivers = [] })
      tt (refl, (refl, (refl, tt))) 1
