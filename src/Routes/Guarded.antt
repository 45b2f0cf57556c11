-- ===== src/Routes/Guarded.antt =====
-- Which requests are served without a user.
use ponta_drive_api.Base.{
  ℕ, suc, ◌==◌, ◌&&◌, if◌then◌else◌, Memᴰ, arith, Bool-cases, and_split, ==_iff, ◌≡◌, refl, sym,
  subst, inl, inr, Bool, true, false, Option, none, some, List, [], ◌∷◌, ◌∙◌,
}
use ponta_drive_api.Base.Text.{Text}
use ponta_drive_api.Web.{go, stop}
use ponta_drive_api.Auth.{User, World}
use ponta_drive_api.Auth.Handlers.{jwt_auth}
use ponta_drive_api.Routes.{
  Method, Middleware, set_locale, jwt, Endpoint, Route, Served, turned_away, not_found, finish,
  through, serve, web,
}

-- The endpoints that need no user.
abbrev pub is_public : Endpoint → Bool
is_public Endpoint.welcome = true
is_public Endpoint.public_files = true
is_public Endpoint.favicon = true
is_public Endpoint.ping = true
is_public Endpoint.users_index = true
is_public Endpoint.login = true
is_public Endpoint.forgot_password = true
is_public Endpoint.reset_password = true
is_public _ = false

-- How often a token is checked on the way.
abbrev checks : List Middleware → ℕ
checks [] = 0
checks (set_locale ∷ more) = checks more
checks (jwt ∷ more) = suc (checks more)

abbrev Sealed : Route → Type 0
Sealed r = checks r.middleware ≡ (if is_public r.endpoint then 0 else 1)

abbrev is_sealed : Route → Bool
is_sealed r = checks r.middleware == (if is_public r.endpoint then 0 else 1)

abbrev all_sealed : List Route → Bool
all_sealed [] = true
all_sealed (r ∷ rs) = is_sealed r && all_sealed rs

web_sealed : all_sealed web ≡ true
unfolding web
web_sealed = refl

all_sealed-Sealed : (r : Route) (rs : List Route) → all_sealed rs ≡ true → Memᴰ r rs → Sealed r
all_sealed-Sealed r [] h m = elim m [ ]
all_sealed-Sealed r (x ∷ rs) h (Memᴰ.head e) =
    subst Sealed (sym e)
      ((==_iff (checks x.middleware) _).0 (and_split (is_sealed x) (all_sealed rs) h).0)
all_sealed-Sealed r (x ∷ rs) h (Memᴰ.tail m) =
    all_sealed-Sealed r rs (and_split (is_sealed x) (all_sealed rs) h).1 m

module _ {S D : Type 0} (w : World S) (choose : Method → Text → List Route → Option Route)
    (run : Endpoint → Option User → S → D × S) where
  -- What a token decides.
  abbrev pub admitted : Text → Endpoint → S → Served D × S
  admitted header endpoint s = elim (jwt_auth w header s) [
    | stop response ↦ (turned_away response, s)
    | go user ↦ finish w choose run endpoint (some user) s
  ]

  through_free :
      (header : Text) (ms : List Middleware) (endpoint : Endpoint) (user : Option User) (s : S)
      → checks ms ≡ 0
      → through w choose run header ms endpoint user s ≡ finish w choose run endpoint user s
  unfolding through
  through_free header [] endpoint user s h = refl
  through_free header (set_locale ∷ more) endpoint user s h =
      through_free header more endpoint user s h
  through_free header (jwt ∷ more) endpoint user s h = absurd (omega arith)

  through_once :
      (header : Text) (ms : List Middleware) (endpoint : Endpoint) (s : S)
      → checks ms ≡ 1
      → through w choose run header ms endpoint none s ≡ admitted header endpoint s
  unfolding through
  through_once header [] endpoint s h = absurd (omega arith)
  through_once header (set_locale ∷ more) endpoint s h = through_once header more endpoint s h
  through_once header (jwt ∷ more) endpoint s h = λ i. elim (jwt_auth w header s) [
    | stop response ↦ (turned_away response, s)
    | go user ↦ through_free header more endpoint (some user) s (omega arith) i
  ]

  -- What becomes of a request for a route.
  abbrev pub decided : Text → Option Route → S → Served D × S
  decided header none s = (not_found, s)
  decided header (some r) s =
      if is_public r.endpoint
      then finish w choose run r.endpoint none s
      else admitted header r.endpoint s

  chosen_exact :
      (m : Method) (path header : Text) (s : S) (chosen : Option Route)
      → choose m path web ≡ chosen
      → ((r : Route) → chosen ≡ some r → Memᴰ r web)
      → serve w choose run m path header s ≡ decided header chosen s
  unfolding serve
  chosen_exact m path header s none e registered = rw e refl
  chosen_exact m path header s (some r) e registered =
      let sealed = all_sealed-Sealed r web web_sealed (registered r refl) in
      elim (Bool-cases (is_public r.endpoint)) [
        | inl free ↦
            let none_checked : checks r.middleware ≡ 0 = sealed ∙ rw free refl in
            rw (e, free) (through_free header r.middleware r.endpoint none s none_checked)
        | inr guarded ↦
            let one_checked : checks r.middleware ≡ 1 = sealed ∙ rw guarded refl in
            rw (e, guarded) (through_once header r.middleware r.endpoint s one_checked)
      ]

  -- For every request, where the framework chooses among the registered routes: without a route it
  -- is not found. An endpoint that needs no user is called without one. Every other endpoint is
  -- called exactly when the check of the token succeeds, with the user that it finds; otherwise the
  -- request gets the answer of the check and nothing is written.
  pub serve_exact :
      ((m : Method) (path : Text) (rs : List Route) (r : Route)
        → choose m path rs ≡ some r
        → Memᴰ r rs)
      → (m : Method) (path header : Text) (s : S)
      → serve w choose run m path header s ≡ decided header (choose m path web) s
  serve_exact registered m path header s =
      chosen_exact m path header s (choose m path web) refl (registered m path web)
