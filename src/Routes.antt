-- ===== src/Routes.antt =====
-- The routes of routes/web.go, the choice of a locale of app/http/middleware/set_locale.go, and how a
-- request passes the middleware of its route.
--
-- The framework's matching of a method and a path against the routes is a parameter, and so is what
-- the actions of the controllers do.
pub mod Guarded
use ponta_drive_api.Base.{
  Bool, true, false, not, ◌||◌, Option, none, some, List, [], ◌∷◌, ◌++◌, if◌then◌else◌,
}
use ponta_drive_api.Base.Text.{Text, text, same, is_empty, has_prefix, to_lower}
use ponta_drive_api.Web.{Response, Step, go, stop}
use ponta_drive_api.Auth.{User, World}
use ponta_drive_api.Auth.Handlers.{Session, jwt_auth}

pub data Method : Type 0 where
  get post put patch delete : Method

pub data Middleware : Type 0 where
  set_locale jwt : Middleware

-- The functions that routes are bound to.
pub data Endpoint : Type 0 where
  welcome public_files favicon ping users_index : Endpoint
  login forgot_password reset_password me refresh logout : Endpoint
  dashboard_summary : Endpoint
  accounts_index accounts_store accounts_test accounts_show accounts_update accounts_destroy :
      Endpoint
  accounts_sync accounts_cors : Endpoint
  items_index items_store_folder items_show items_breadcrumb items_download items_preview : Endpoint
  items_content items_update items_star items_destroy : Endpoint
  initiate_presigned complete_presigned init_multipart upload_part : Endpoint
  complete_multipart abort_multipart : Endpoint

pub record Route : Type 0 where
  pub method : Method
  pub path : Text
  pub middleware : List Middleware
  pub endpoint : Endpoint

-- A router of the framework: the prefix and the middleware of its group.
pub record Router : Type 0 where
  pub at : Text
  pub behind : List Middleware

abbrev pub top : Router
top = record { at = []; behind = [] }

abbrev pub under : Text → Router → Router
under path r = record r { at = r.at ++ text "/" ++ path }

abbrev pub guarded_by : Middleware → Router → Router
guarded_by m r = record r { behind = r.behind ++ m ∷ [] }

abbrev pub route : Router → Method → Text → Endpoint → Route
route r method path endpoint = record {
  method = method;
  path = r.at ++ path;
  middleware = r.behind;
  endpoint = endpoint;
}

unfoldable pub auth_routes : Router → List Route
auth_routes r =
    route r post (text "/login") login
    ∷ (route r post (text "/forgot-password") forgot_password
        ∷ (route r post (text "/reset-password") reset_password
            ∷ (route (guarded_by jwt r) get (text "/me") me
                ∷ (route (guarded_by jwt r) post (text "/refresh") refresh
                    ∷ (route (guarded_by jwt r) post (text "/logout") logout ∷ [])))))

unfoldable pub account_routes : Router → List Route
account_routes r =
    route r get [] accounts_index
    ∷ (route r post [] accounts_store
        ∷ (route r post (text "/test") accounts_test
            ∷ (route r get (text "/{id}") accounts_show
                ∷ (route r put (text "/{id}") accounts_update
                    ∷ (route r delete (text "/{id}") accounts_destroy
                        ∷ (route r post (text "/{id}/sync") accounts_sync
                            ∷ (route r post (text "/{id}/cors") accounts_cors ∷ [])))))))

unfoldable pub item_routes : Router → List Route
item_routes r =
    route r get [] items_index
    ∷ (route r post (text "/folders") items_store_folder
        ∷ (route r get (text "/{uuid}") items_show
            ∷ (route r get (text "/{uuid}/breadcrumb") items_breadcrumb
                ∷ (route r get (text "/{uuid}/download") items_download
                    ∷ (route r get (text "/{uuid}/preview") items_preview
                        ∷ (route r get (text "/{uuid}/content") items_content
                            ∷ (route r patch (text "/{uuid}") items_update
                                ∷ (route r post (text "/{uuid}/star") items_star
                                    ∷ (route r delete (text "/{uuid}") items_destroy ∷ [])))))))))

unfoldable pub upload_routes : Router → List Route
upload_routes r =
    let mp = under (text "multipart") r in
    route r post (text "/presigned") initiate_presigned
    ∷ (route r post (text "/presigned/complete") complete_presigned
        ∷ (route mp post (text "/init") init_multipart
            ∷ (route mp post (text "/part") upload_part
                ∷ (route mp post (text "/complete") complete_multipart
                    ∷ (route mp post (text "/abort") abort_multipart ∷ [])))))

unfoldable pub v1_routes : Router → List Route
unfolding account_routes item_routes upload_routes
v1_routes r =
    let drive = under (text "drive") r in
    route r get (text "/dashboard/summary") dashboard_summary
    ∷ (account_routes (under (text "cloud-accounts") r)
        ++ (item_routes (under (text "items") drive)
            ++ upload_routes (under (text "upload") drive)))

-- `Web`
unfoldable pub web : List Route
unfolding auth_routes v1_routes
web =
    let router = guarded_by set_locale top in
    route top get (text "/") welcome
    ∷ (route top get (text "/public") public_files
        ∷ (route top get (text "/favicon.ico") favicon
            ∷ (route router get (text "/ping") ping
                ∷ (auth_routes (under (text "auth") router)
                    ++ (v1_routes (guarded_by jwt (under (text "v1") router))
                        ++ route router get (text "/users") users_index ∷ [])))))

-- `SetLocale.Handle`: the locale that it sets, if any, from the query's `lang` and `locale`, X-Locale
-- and Accept-Language.
unfoldable pub locale_of : Text → Text → Text → Text → Option Text
locale_of lang locale header accepted =
    let from_accepted =
      if has_prefix (to_lower accepted) (text "en")
      then text "en"
      else if has_prefix (to_lower accepted) (text "vi")
      then text "vi"
      else [] in
    let first = if is_empty lang then locale else lang in
    let second = if is_empty first then header else first in
    let chosen = if is_empty second then from_accepted else second in
    if same chosen (text "en") || same chosen (text "vi") then some chosen else none

-- What becomes of a request: no route, an answer of the middleware, or one of the endpoint.
pub data Served (D : Type 0) : Type 0 where
  not_found : Served D
  turned_away : Response Session → Served D
  answered : D → Served D

module _ {S D : Type 0} (w : World S) (choose : Method → Text → List Route → Option Route)
    (run : Endpoint → Option User → S → D × S) where
  unfoldable pub finish : Endpoint → Option User → S → Served D × S
  finish endpoint user s = let (answer, s') = run endpoint user s in (answered answer, s')

  -- Through the middleware in order; the locale is of no account here. `header` is that of the
  -- request's authorization.
  unfoldable pub through : Text → List Middleware → Endpoint → Option User → S → Served D × S
  unfolding finish
  through header [] endpoint user s = finish endpoint user s
  through header (set_locale ∷ more) endpoint user s = through header more endpoint user s
  through header (jwt ∷ more) endpoint user s = elim (jwt_auth w header s) [
    | stop response ↦ (turned_away response, s)
    | go found ↦ through header more endpoint (some found) s
  ]

  abbrev dispatch : Text → Option Route → S → Served D × S
  dispatch header none s = (not_found, s)
  dispatch header (some r) s = through header r.middleware r.endpoint none s

  unfoldable pub serve : Method → Text → Text → S → Served D × S
  unfolding web through
  serve method path header s = dispatch header (choose method path web) s
