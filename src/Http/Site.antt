-- ===== src/Http/Site.antt =====
-- backend/internal/httpserver/route.go: the handlers behind the routes, over what they share.
use aviron.Base.{ℕ, String, Bool, [], Option, none, some}
use aviron.Base.Int.{ℤ}
use aviron.Base.Dict
use aviron.Base.Dict.{Dict}
use aviron.Room.State.{Instant, Float64}
use aviron.Auth
use aviron.Auth.{Users, is_empty}
use aviron.Auth.Tokens.{Jwt, authenticate}
use aviron.Auth.Handler as AuthHandler
use aviron.Auth.Handler.{
  RegisterRequest, LoginRequest, register_response, handle_register, handle_login,
}
use aviron.Race.Data
use aviron.Race.Service
use aviron.Race.Handler as RaceHandler
use aviron.Race.Handler.Errors.{status_code}
use aviron.Race.Handler.{Server, create, join, start, text, list_open, status}
use aviron.Leaderboard.Handler as BoardHandler
use aviron.Leaderboard.Handler.{me, top}
use aviron.Leaderboard.Repository
use aviron.Leaderboard.Repository.{repository_of}
use aviron.Http.Health.{ReadinessGate, Probe, healthz, livez}
use aviron.Http.Middleware.{Written, Handler}
use aviron.Http.Routes.{
  Endpoint, healthz_route, livez_route, metrics_route, register_route, login_route, create_route,
  list_open_route, join_route, start_route, text_route, status_route, me_route, top_route,
  swagger_route, pprof_route, register_routes, found, method_not_allowed, redirected, not_found,
  find_route,
}

-- What a request meets, and what its body and its query decode to.
pub record Meets : Type 0 where
  pub gate : ReadinessGate
  pub pings : Bool
  pub jwt : Jwt
  pub now : Instant
  pub auth_libraries : Auth.Libraries
  pub auth_postgres : Auth.Postgres
  pub race_libraries : Service.Libraries
  pub race_postgres : Data.Postgres
  pub board_server : Repository.Server
  pub average : Float64 → ℕ → Float64
  pub zero_sum : Float64
  pub atoi : String → ℤ
  pub register_body : Option RegisterRequest
  pub login_body : Option LoginRequest
  pub create_body : Option (String × ℤ)
  pub window : String
  pub page : String

-- What the handlers share; the table `users` shows in two views, by email and as display names by id.
pub record Site : Type 0 where
  pub users : Users
  pub server : Server

pub data Answer : Type 0 where
  probe : Probe → Answer
  -- of a library's handler: metrics, the docs, the profiles
  library : Answer
  auth_answer : AuthHandler.Response → Answer
  race_answer : RaceHandler.Response → Answer
  board_answer : BoardHandler.Response → Answer
  -- the middleware's 401
  unauthorized : Answer
  -- the mux's own
  mux_error : ℕ → Answer

-- The status that WriteHeader is given; the handlers of libraries are not modelled.
abbrev pub auth_status : AuthHandler.Response → ℕ
auth_status (AuthHandler.write_error n code) = n
auth_status (AuthHandler.field_errors n errs) = n
auth_status (AuthHandler.write_json n body) = n

abbrev pub board_status : BoardHandler.Response → ℕ
board_status (BoardHandler.write_error n code) = n
board_status (BoardHandler.field_error n field message) = n
board_status (BoardHandler.write_json n body) = n

abbrev pub status_of : Answer → Option ℕ
status_of (probe p) = some p.status_code
status_of library = none
status_of (auth_answer x) = some (auth_status x)
status_of (race_answer x) = some (status_code x)
status_of (board_answer x) = some (board_status x)
status_of unauthorized = some 401
status_of (mux_error n) = some n

-- A body that was written, and the user that was noted for the log.
abbrev pub answered : String → Answer → Written Answer
answered noted_user a = record {
  headers = [];
  status = status_of a;
  body = some a;
  noted_user = noted_user;
}

-- The display name of a user who was registered, in the other view of their table.
unfoldable pub note_name : AuthHandler.Response → Dict String → Dict String
note_name (AuthHandler.write_json n (register_response id email display_name)) names =
    Dict.store names id display_name
note_name _ names = names

unfoldable pub sign_up : Meets → Site → Answer × Site
sign_up c s =
    let (x, users) = handle_register c.auth_libraries c.auth_postgres c.register_body s.users in
    let tables = s.server.tables in
    (
      auth_answer x,
      record {
        users = users;
        server = record s.server { tables = record tables { users = note_name x tables.users } };
      },
    )

abbrev pub on_server : Site → RaceHandler.Response × Server → Answer × Site
on_server s (x, server) = (race_answer x, record s { server = server })

-- The handlers behind requireAuth, with the user in the context.
unfoldable pub handle_signed : Meets → Endpoint → String → String → Site → Answer × Site
handle_signed c create_route id user_id s =
    on_server s (create c.race_libraries c.race_postgres (some user_id) c.create_body s.server)
handle_signed c list_open_route id user_id s =
    (race_answer (list_open c.race_postgres (some user_id) s.server), s)
handle_signed c join_route id user_id s =
    on_server s (join c.race_libraries c.race_postgres (some user_id) id s.server)
handle_signed c start_route id user_id s =
    on_server s (start c.race_libraries c.race_postgres (some user_id) id s.server)
handle_signed c text_route id user_id s =
    (race_answer (text c.race_postgres (some user_id) id s.server), s)
handle_signed c status_route id user_id s =
    (race_answer (status c.race_postgres (some user_id) id s.server), s)
handle_signed c me_route id user_id s =
    let repo = repository_of c.board_server c.zero_sum s.server.tables in
    (board_answer (me repo c.average c.zero_sum (some user_id)), s)
handle_signed c top_route id user_id s =
    let repo = repository_of c.board_server c.zero_sum s.server.tables in
    (board_answer (top repo c.atoi (some user_id) c.window c.page), s)
handle_signed c _ id user_id s = (library, s)

-- requireAuth
unfoldable pub require_auth : Meets → Endpoint → String → Handler Answer Site
require_auth c e id r s = elim (authenticate c.jwt c.now r.authorization) [
  | none ↦ (answered "" unauthorized, s)
  | some user_id ↦ let (a, s') = handle_signed c e id user_id s in (answered user_id a, s')
]

-- The handler of an endpoint.
unfoldable pub dispatch : Meets → Endpoint → String → Handler Answer Site
dispatch c healthz_route id r s = (answered "" (probe (healthz c.pings c.gate)), s)
dispatch c livez_route id r s = (answered "" (probe livez), s)
dispatch c metrics_route id r s = (answered "" library, s)
dispatch c swagger_route id r s = (answered "" library, s)
dispatch c pprof_route id r s = (answered "" library, s)
dispatch c register_route id r s = let (a, s') = sign_up c s in (answered "" a, s')
dispatch c login_route id r s =
    let x = handle_login c.auth_libraries c.jwt c.auth_postgres c.now c.login_body s.users in
    (answered "" (auth_answer x), s)
dispatch c e id r s = require_auth c e id r s

-- The mux.
unfoldable pub serve_mux : Meets → Bool → Handler Answer Site
serve_mux c pprof_enabled r s =
    elim (find_route r.http_method r.path (register_routes pprof_enabled)) [
      | found e id ↦ dispatch c e id r s
      | method_not_allowed ↦ (answered "" (mux_error 405), s)
      | redirected ↦ (answered "" (mux_error 301), s)
      | not_found ↦ (answered "" (mux_error 404), s)
    ]
