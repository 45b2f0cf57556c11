-- ===== src/Auth/Enrolment.antt =====
-- A user that user:create has stored logs in.
use ponta_drive_api.Base.{
  ℕ, ◌≡◌, refl, sym, ap, ◌∙◌, subst, inl, inr, Bool, true, false, ◌||◌, Option, none, some, arith,
  ◌==◌, ◌≢◌, [], ◌∷◌, ltb, Bool-cases,
}
use ponta_drive_api.Base.Text.{Text, same, same_refl, is_empty, trim_space, to_lower, lower_code}
use ponta_drive_api.Web.{payload, accepted}
use ponta_drive_api.Auth.{User, World}
use ponta_drive_api.Auth.Users.{to_response}
use ponta_drive_api.Auth.Handlers.{by_email, login, login_handler, query_user, expires_in}
use ponta_drive_api.Auth.Commands.{
  Options, Console, Ended, Stage, go, stop, count_failed, already_exists, hash_failed,
  create_failed, taken, new_user, store_user, create_user, prepared_email, or_stop, stop_if,
  required, named_or, unless_given, username_required, email_required,
}

-- How a run ends, and what then holds of a result and the state.
data Ends {S A : Type 0} (Q : A → S → Type 0) : Stage A × S → Type 0 where
  goes : (a : A) (s : S) → Q a s → Ends Q (go a, s)
  stops : (e : Ended) (s : S) → Ends Q (stop e, s)

Ends-go : {S A : Type 0} {Q : A → S → Type 0} {a : A} {s : S} → Ends Q (go a, s) → Q a s
Ends-go (goes a s q) = q

Ends-then :
    {S A B : Type 0} {Q : A → S → Type 0} {R : B → S → Type 0} (r : Stage A × S)
    {g : A → Stage B × S}
    → Ends Q r
    → ((a : A) → Q a r.1 → Ends R (g a))
    → Ends R (elim r.0 [ go a ↦ g a | stop e ↦ (stop e, r.1) ])
Ends-then r (goes a s q) k = k a q
Ends-then r (stops e s) k = stops e s

Ends-or_stop :
    {S A : Type 0} (o : Option A) (e : Ended) (s : S)
    → Ends (λ a s'. (o ≡ some a) × (s' ≡ s)) (or_stop o e s)
Ends-or_stop none e s = stops e s
Ends-or_stop (some a) e s = goes a s (refl, refl)

Ends-stop_if :
    {S : Type 0} (b : Bool) (e : Ended) (s : S)
    → Ends (λ _ s'. (b ≡ false) × (s' ≡ s)) (stop_if b e s)
Ends-stop_if true e s = stops e s
Ends-stop_if false e s = goes tt s (refl, refl)

Ends-weaken :
    {S A : Type 0} {Q R : A → S → Type 0} {r : Stage A × S}
    → ((a : A) (s : S) → Q a s → R a s)
    → Ends Q r
    → Ends R r
Ends-weaken f (goes a s q) = goes a s (f a s q)
Ends-weaken f (stops e s) = stops e s

-- Nothing is known of a result.
anyhow : {S A : Type 0} (r : Stage A × S) → Ends (λ a s. Unit {0}) r
anyhow (go a, s) = goes a s tt
anyhow (stop e, s) = stops e s

-- What the table of users, the hashes and the identifiers promise: a user is stored as it was given,
-- under an id of its own, and a query that found nobody before finds the new user if it meets it; a
-- count of none leaves nobody to find; a password passes its own hash.
pub record Enrols {S : Type 0} (w : World S) (console : Console S) : Type 0 where
  pub creates :
      (x : User) (s : S) (a : User)
      → (w.users.create x s).0 ≡ some a
      → ((a.id == 0) ≡ false) × (a.email ≡ x.email) × (a.password ≡ x.password)
  pub finds :
      (q : User → Bool) (x : User) (s : S) (a row : User)
      → (w.users.create x s).0 ≡ some a
      → w.users.first q s ≡ some row
      → (row.id == 0) ≡ true
      → q a ≡ true
      → w.users.first q (w.users.create x s).1 ≡ some a
  pub counts :
      (p q : User → Bool) (s : S)
      → console.count p s ≡ some 0
      → ((u : User) → q u ≡ true → p u ≡ true)
      → (row : User) × (w.users.first q s ≡ some row) × ((row.id == 0) ≡ true)
  pub hash_keeps :
      (q : User → Bool) (p : Text) (s : S) → w.users.first q (w.make_hash p s).1 ≡ w.users.first q s
  pub uuid_keeps :
      (q : User → Bool) (s : S) → w.users.first q (console.new_uuid s).1 ≡ w.users.first q s
  pub checks : (p h : Text) (s : S) → (w.make_hash p s).0 ≡ some h → w.check_hash p h ≡ true

or_right : (a b : Bool) → b ≡ true → (a || b) ≡ true
or_right true b h = refl
or_right false b h = h

new_user-fields :
    (query_escape : Text → Text) (uuid username email name hashed avatar : Text)
    → ((new_user query_escape uuid username email name hashed avatar).email ≡ email)
      × ((new_user query_escape uuid username email name hashed avatar).password ≡ hashed)
unfolding new_user
new_user-fields query_escape uuid username email name hashed avatar =
    elim (Bool-cases (is_empty avatar)) [
      | inl plain ↦ rw plain (refl, refl)
      | inr pictured ↦ rw pictured (refl, refl)
    ]

module _ {S : Type 0} (w : World S) (console : Console S) (laws : Enrols w console) where
  -- The new user has the password, and a query by an email finds it, or nobody, where nobody else has
  -- the email.
  abbrev Enrolled : Text → User → S → Type 0
  Enrolled password user s =
      ((user.id == 0) ≡ false)
      × (w.check_hash password user.password ≡ true)
      × (w.users.first (by_email user.email) s ≡ some user)

  store_user-Enrolled :
      (username email name password avatar : Text) (s : S)
      → Ends (Enrolled password) (store_user w console username email name password avatar s)
  unfolding store_user
  store_user-Enrolled username email name password avatar s =
      let counted = console.count (taken username email) s in
      let r1 = or_stop counted count_failed s in
      Ends-then r1 (Ends-or_stop counted count_failed s) λ n (at, here).
        let r2 = stop_if (ltb 0 n) already_exists r1.1 in
        Ends-then r2 (Ends-stop_if (ltb 0 n) already_exists r1.1) λ _ (free, here').
          let made = w.make_hash password r2.1 in
          let r3 = or_stop made.0 hash_failed made.1 in
          Ends-then r3 (Ends-or_stop made.0 hash_failed made.1) λ hashed (hash_at, here'').
            let drawn = console.new_uuid r3.1 in
            let x = new_user w.query_escape drawn.0 username email name hashed avatar in
            let stored = w.users.create x drawn.1 in
            let none_before : console.count (taken username email) s ≡ some 0 =
              (let zero_users : n ≡ 0 = ground arith in at ∙ ap some zero_users) in
            let (row, nobody, zero_id) =
              laws.counts (taken username email) (by_email email) s none_before
                (λ u h. or_right (same u.username username) (by_email email u) h) in
            let still : w.users.first (by_email email) drawn.1 ≡ some row =
              laws.uuid_keeps (by_email email) r3.1
              ∙ ap (w.users.first (by_email email)) here''
              ∙ laws.hash_keeps (by_email email) password r2.1
              ∙ ap (w.users.first (by_email email)) (here' ∙ here)
              ∙ nobody in
            Ends-weaken
              (λ a s2 (made_at, there).
                let (saved, same_email, same_password) = laws.creates x drawn.1 a made_at in
                let own_email : a.email ≡ email =
                  same_email
                  ∙ (new_user-fields w.query_escape drawn.0 username email name hashed avatar).0 in
                let own_hash : a.password ≡ hashed =
                  same_password
                  ∙ (new_user-fields w.query_escape drawn.0 username email name hashed avatar).1 in
                let met : by_email email a ≡ true =
                  subst (λ e. same e email ≡ true) (sym own_email) (same_refl email) in
                let at_end =
                  ap (w.users.first (by_email email)) there
                  ∙ laws.finds (by_email email) x drawn.1 a row made_at still zero_id met in
                (
                  saved,
                  subst (λ h. w.check_hash password h ≡ true) (sym own_hash)
                      (laws.checks password hashed r2.1 hash_at),
                  subst (λ e. w.users.first (by_email e) s2 ≡ some a) (sym own_email) at_end,
                ))
              (Ends-or_stop stored.0 create_failed stored.1)

  create_user-Enrolled :
      (options : Options) (s : S)
      → is_empty options.password ≡ false
      → Ends (Enrolled options.password) (create_user w console options s)
  unfolding create_user
  create_user-Enrolled options s given =
      let r1 =
        unless_given (trim_space options.username) (required console.ask_username username_required)
          s in
      Ends-then r1 (anyhow r1) λ username _.
        let r2 =
          unless_given (trim_space options.email) (required console.ask_email email_required)
            r1.1 in
        Ends-then r2 (anyhow r2) λ email _.
          let r3 =
            unless_given (trim_space options.name) (named_or username console.ask_name) r2.1 in
          Ends-then r3 (anyhow r3) λ name _. rw given (
            store_user-Enrolled username email name options.password (trim_space options.avatar)
              r3.1)

  login-Enrolled :
      (password email token : Text) (s : S) (user : User)
      → Enrolled password user s
      → email ≡ user.email
      → w.query_works s ≡ true
      → (w.login user s).0 ≡ some token
      → (login w (accepted (record { email = email; password = password })) s).0
        ≡ payload 200 (record {
          token = some token;
          expires_in = expires_in w;
          user = some (to_response w.query_escape user);
        })
  unfolding login login_handler query_user
  login-Enrolled password email token s user (saved, checked, found) same_email up issued =
      let at : w.users.first (by_email email) s ≡ some user =
        subst (λ e. w.users.first (by_email e) s ≡ some user) (sym same_email) found in
      ground arith

  -- Where the users and the hashes keep their laws and a session gets its token: a user that
  -- user:create has stored, with the password of its option, logs in with this password and with any
  -- email that the request prepares to the stored one.
  pub login-create_user :
      (options : Options) (s s' : S) (user : User) (typed token : Text)
      → create_user w console options s ≡ (go user, s')
      → is_empty options.password ≡ false
      → prepared_email typed ≡ user.email
      → w.query_works s' ≡ true
      → (w.login user s').0 ≡ some token
      → (login w
          (accepted (record { email = prepared_email typed; password = options.password }))
          s').0
        ≡ payload 200 (record {
          token = some token;
          expires_in = expires_in w;
          user = some (to_response w.query_escape user);
        })
  login-create_user options s s' user typed token done given same_email up issued =
      login-Enrolled options.password (prepared_email typed) token s' user
        (Ends-go
          (subst (Ends (Enrolled options.password)) done (create_user-Enrolled options s given)))
        same_email up issued

lower_again : (c : ℕ) → lower_code (lower_code c) ≡ lower_code c
lower_again c = ground arith

lower_twice : (t : Text) → to_lower (to_lower t) ≡ to_lower t
unfolding to_lower
lower_twice [] = refl
lower_twice (c ∷ t) = rw (lower_again c, lower_twice t) refl

-- An email with a capital letter is prepared from nothing that is typed.
capital_never_prepared :
    (email typed : Text) → to_lower email ≢ email → prepared_email typed ≢ email
unfolding prepared_email
capital_never_prepared email typed capital e =
    capital (subst (λ m. to_lower m ≡ m) e (lower_twice (trim_space typed)))
