-- ===== src/Tests/Routes.antt =====
-- Requests to the routes of routes/web.go.
use ponta_drive_api.Base.{
  ◌≡◌, refl, sym, Bool, true, false, ◌&&◌, Option, none, some, List, [], ◌∷◌, if◌then◌else◌,
  Bool-cases, inl, inr, Memᴰ, arith,
}
use ponta_drive_api.Base.Text.{Text, text, same}
use ponta_drive_api.Auth.{User}
use ponta_drive_api.Auth.Handlers.{jwt_auth}
use ponta_drive_api.Routes.{
  Method, get, post, put, patch, delete, Endpoint, Route, serve, turned_away, locale_of, web,
}
use ponta_drive_api.Routes.Guarded.{serve_exact, decided}
use ponta_drive_api.Web.{failed}
use ponta_drive_api.Tests.Auth.{Desk, desk_world, desk}

abbrev same_method : Method → Method → Bool
same_method get get = true
same_method post post = true
same_method put put = true
same_method patch patch = true
same_method delete delete = true
same_method _ _ = false

-- The first route of a method and a path, without placeholders.
unfoldable pick : Method → Text → List Route → Option Route
pick m path [] = none
pick m path (r ∷ rs) =
    let rest = pick m path rs in if same_method m r.method && same path r.path then some r else rest

pick-Mem :
    (m : Method) (path : Text) (rs : List Route) (r : Route) → pick m path rs ≡ some r → Memᴰ r rs
unfolding pick
pick-Mem m path [] r e = absurd cc
pick-Mem m path (x ∷ xs) r e = elim (Bool-cases (same_method m x.method && same path x.path)) [
  | inl hit ↦ let at : x ≡ r = ground arith in Memᴰ.head (sym at)
  | inr miss ↦ Memᴰ.tail (pick-Mem m path xs r (ground arith))
]

abbrev echo : Endpoint → Option User → Desk → Text × Desk
echo endpoint none s = (text "nobody", s)
echo endpoint (some user) s = (user.email, s)

-- The dashboard without a token.
turns_away :
    serve desk_world pick echo get (text "/v1/dashboard/summary") [] desk
    ≡ (turned_away (failed 401 (text "Authorization header is required")), desk)
unfolding serve pick same jwt_auth
turns_away = refl

serve_exact_example :
    serve desk_world pick echo get (text "/v1/dashboard/summary") (text "Bearer t") desk
    ≡ decided desk_world pick echo
        (text "Bearer t")
        (pick get (text "/v1/dashboard/summary") web)
        desk
serve_exact_example =
    serve_exact desk_world pick echo pick-Mem get (text "/v1/dashboard/summary") (text "Bearer t")
      desk

-- The first source of a locale that is not empty decides, also when it is of no known language.
takes_first : locale_of (text "fr") (text "en") [] (text "en-US") ≡ none
unfolding locale_of same
takes_first = refl
