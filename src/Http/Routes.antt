-- ===== src/Http/Routes.antt =====
-- backend/internal/httpserver/route.go: the routes of a race-service process. A path is the list of
-- what stands between its slashes, the last part empty if it ends with one; it is taken to be clean, as
-- http.ServeMux redirects any other.
use aviron.Base.{
  String, Bool, true, false, ◌||◌, ◌&&◌, List, [], ◌∷◌, ◌++◌, Option, none, some, if◌then◌else◌,
}
use package.text.Mathlib.Text.{◌==◌}
use aviron.Auth.{is_empty}
use aviron.Race.Handler.{text}

pub data Endpoint : Type 0 where
  healthz_route livez_route metrics_route register_route login_route : Endpoint
  create_route list_open_route join_route start_route text_route status_route : Endpoint
  me_route top_route swagger_route pprof_route : Endpoint

-- A part of a pattern of http.ServeMux.
pub data Segment : Type 0 where
  lit : String → Segment
  -- {id}
  wild : Segment
  -- the rest of the path, behind a slash at the end
  rest : Segment

pub record Route : Type 0 where
  -- none for every method
  pub http_method : Option String
  pub pattern : List Segment
  pub endpoint : Endpoint

abbrev pub route_to : String → List Segment → Endpoint → Route
route_to http_method pattern endpoint = record {
  http_method = some http_method;
  pattern = pattern;
  endpoint = endpoint;
}

-- The patterns below /debug/pprof/, all served by one package.
abbrev pub pprof_routes : Bool → List Route
pprof_routes enabled =
    if enabled
    then record {
      http_method = none;
      pattern = lit "debug" ∷ lit "pprof" ∷ rest ∷ [];
      endpoint = pprof_route;
    }
      ∷ []
    else []

-- RegisterRoutes
unfoldable pub register_routes : Bool → List Route
register_routes pprof_enabled =
    route_to "GET" (lit "healthz" ∷ []) healthz_route
    ∷ route_to "GET" (lit "livez" ∷ []) livez_route
    ∷ route_to "GET" (lit "metrics" ∷ []) metrics_route
    ∷ route_to "POST" (lit "auth" ∷ lit "register" ∷ []) register_route
    ∷ route_to "POST" (lit "auth" ∷ lit "login" ∷ []) login_route
    ∷ route_to "POST" (lit "races" ∷ []) create_route
    ∷ route_to "GET" (lit "races" ∷ []) list_open_route
    ∷ route_to "POST" (lit "races" ∷ wild ∷ lit "join" ∷ []) join_route
    ∷ route_to "POST" (lit "races" ∷ wild ∷ lit "start" ∷ []) start_route
    ∷ route_to "GET" (lit "races" ∷ wild ∷ lit "text" ∷ []) text_route
    ∷ route_to "GET" (lit "races" ∷ wild ∷ []) status_route
    ∷ route_to "GET" (lit "leaderboard" ∷ lit "me" ∷ []) me_route
    ∷ route_to "GET" (lit "leaderboard" ∷ []) top_route
    ∷ route_to "GET" (lit "swagger" ∷ rest ∷ []) swagger_route
    ∷ pprof_routes pprof_enabled

-- A pattern against a path: its wildcard's value, "" if it has none.
unfoldable pub match_path : List Segment → List String → Option String
match_path [] [] = some ""
match_path [] (_ ∷ _) = none
match_path (_ ∷ _) [] = none
match_path (rest ∷ _) (part ∷ parts) = some ""
match_path (lit name ∷ more) (part ∷ parts) =
    let below = match_path more parts in if name == part then below else none
match_path (wild ∷ more) (part ∷ parts) =
    let below = match_path more parts in
    if is_empty part then none else elim below [ none ↦ none | some _ ↦ some part ]

-- Whether a pattern's method takes a request's; GET takes HEAD too.
abbrev pub takes_method : Option String → String → Bool
takes_method none http_method = true
takes_method (some m) http_method = m == http_method || (m == "GET" && http_method == "HEAD")

-- What the mux finds; no two of the patterns that it knows match one path and method.
pub data Routed : Type 0 where
  found : Endpoint → String → Routed
  -- 405: a pattern matches the path, but none the method
  method_not_allowed : Routed
  -- 301: the path lacks the slash of a pattern that ends with one
  redirected : Routed
  -- 404
  not_found : Routed

unfoldable pub select : String → List String → List Route → Bool → Routed
select http_method path [] known = if known then method_not_allowed else not_found
select http_method path (r ∷ rs) known =
    let rest_known = select http_method path rs true in
    let others = select http_method path rs known in
    elim (match_path r.pattern path) [
      | none ↦ others
      | some id ↦ if takes_method r.http_method http_method then found r.endpoint id else rest_known
    ]

-- What is found for a path with a slash behind it, which was not there.
abbrev pub without_slash : Routed → Routed
without_slash (found e id) = redirected
without_slash method_not_allowed = method_not_allowed
without_slash redirected = redirected
without_slash not_found = not_found

unfoldable pub find_route : String → List String → List Route → Routed
find_route http_method path rs =
    let slashed = without_slash (select http_method (path ++ "" ∷ []) rs false) in
    elim (select http_method path rs false) [
      | found e id ↦ found e id
      | method_not_allowed ↦ method_not_allowed
      | redirected ↦ redirected
      | not_found ↦ slashed
    ]
