-- ===== src/Tests/Enrolment.antt =====
-- A desk at which one user is created, for app/console/commands/create_user.go.
use ponta_drive_api.Base.{
  ℕ, ◌≡◌, refl, sym, ap, subst, Bool, true, false, none, some, [], ◌∷◌, arith, ◌==◌, if◌then◌else◌,
  inl, inr, Bool-cases,
}
use ponta_drive_api.Base.Text.{Text, text, same, same_refl, to_lower, trim_space}
use ponta_drive_api.Web.{payload, accepted}
use ponta_drive_api.Auth.{User, World}
use ponta_drive_api.Auth.Users.{to_response}
use ponta_drive_api.Auth.Handlers.{login, expires_in}
use ponta_drive_api.Auth.Commands.{Options, Console, create_user, prepared_email, go}
use ponta_drive_api.Auth.Enrolment.{Enrols, login-create_user}
use ponta_drive_api.Tests.Auth.{Desk, desk_world, users_table, no_user}

abbrev enrolling : World Desk
enrolling = record desk_world {
  users = record users_table {
    create = λ x s. (some (record x { id = 1 }), record s { person = record x { id = 1 } });
  };
}

abbrev how_many : (User → Bool) → Desk → ℕ
how_many q s = if s.person.id == 0 then 0 else if q s.person then 1 else 0

abbrev console : Console Desk
console = record {
  ask_username = λ s. (none, s);
  ask_email = λ s. (some (text " binh@x.vn"), s);
  ask_name = λ s. (some [], s);
  ask_password = λ s. (none, s);
  count = λ q s. some (how_many q s);
  new_uuid = λ s. (text "u", s);
}

no_one :
    (p q : User → Bool) (s : Desk)
    → how_many p s ≡ 0
    → ((u : User) → q u ≡ true → p u ≡ true)
    → ((if s.person.id == 0 then no_user else if q s.person then s.person else no_user).id == 0)
      ≡ true
no_one p q s h covers = elim (Bool-cases (s.person.id == 0)) [
  | inl empty ↦ rw empty refl
  | inr there ↦ elim (Bool-cases (q s.person)) [
    | inr miss ↦ rw (there, miss) refl
    | inl hit ↦ absurd (ground (arith, covers s.person hit))
  ]
]

new_found :
    (q : User → Bool) (x a : User)
    → record x { id = 1 } ≡ a
    → q a ≡ true
    → some (if q (record x { id = 1 }) then record x { id = 1 } else no_user) ≡ some a
new_found q x a e m =
    let hit : q (record x { id = 1 }) ≡ true = subst (λ (b : User). q b ≡ true) (sym e) m in
    rw hit (ap some e)

option_inj : (s t : Text) → some s ≡ some t → s ≡ t
option_inj s t e = cc

enrolling-Enrols : Enrols enrolling console
enrolling-Enrols = record {
  creates = λ x s a e.
      let same_row : record x { id = 1 } ≡ a = cc in
      subst (λ (b : User). ((b.id == 0) ≡ false) × (b.email ≡ x.email) × (b.password ≡ x.password))
        same_row (refl, refl, refl);
  finds = λ q x s a row e h z m. new_found q x a (cc) m;
  counts = λ p q s e covers. (_, refl, no_one p q s (ground arith) covers);
  hash_keeps = λ q p s. refl;
  uuid_keeps = λ q s. refl;
  checks =
      λ p h s e. subst (λ t. same (35 ∷ p) t ≡ true) (option_inj (35 ∷ p) h e) (same_refl (35 ∷ p));
}

abbrev binh : Options
binh = record {
  username = text "binh";
  email = [];
  name = [];
  password = text "pw";
  avatar = text "a.png";
}

abbrev stored_binh : User
stored_binh = record {
  id = 1;
  created_at = none;
  updated_at = none;
  uuid = text "u";
  name = text "binh";
  username = text "binh";
  email = text "binh@x.vn";
  password = 35 ∷ text "pw";
  avatar = text "a.png";
}

abbrev empty_desk : Desk
empty_desk = record { person = no_user; token = none }

enrols_binh :
    create_user enrolling console binh empty_desk
    ≡ (go stored_binh, record { person = stored_binh; token = none })
unfolding create_user trim_space
enrols_binh = refl

types_binh : prepared_email (text "Binh@x.vn ") ≡ text "binh@x.vn"
unfolding prepared_email trim_space to_lower
types_binh = refl

login-create_user_example :
    (login enrolling
      (accepted (record { email = prepared_email (text "Binh@x.vn "); password = text "pw" }))
      (record { person = stored_binh; token = none })).0
    ≡ payload 200 (record {
      token = some (text "jwt");
      expires_in = expires_in enrolling;
      user = some (to_response enrolling.query_escape stored_binh);
    })
login-create_user_example =
    login-create_user enrolling console enrolling-Enrols binh empty_desk
      (record { person = stored_binh; token = none }) stored_binh (text "Binh@x.vn ") (text "jwt")
      enrols_binh refl types_binh refl refl
