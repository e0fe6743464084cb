-- ===== src/Tests/HttpTests.antt =====
-- A request to a race-service process, backend/internal/httpserver and backend/internal/middleware.
use aviron.Base.{refl, ◌≡◌, ◌⊎◌, [], ◌∷◌, none, some, true, false}
use aviron.Base.Int.{pos}
use aviron.Base.Dict
use aviron.Auth.Tokens.{Jwt, login_claims, authenticate}
use aviron.Rooms.Registry.{new_registry}
use aviron.Tests.RaceFixtures.{steady, libraries, tables}
use aviron.Http.Middleware.{Request, serve}
use aviron.Http.Routes.{
  find_route, select, match_path, register_routes, redirected, not_found, method_not_allowed,
}
use aviron.Http.Site.{Meets, Site, serve_mux}
use aviron.Http.Access.{Reason, is_private, serve_lem}

-- Every token is Ann's.
abbrev ann_signs : Jwt
ann_signs = record {
  sign = λ c. some "token";
  parse = λ now t. some (login_claims "ann" "ann@x.org" 0);
}

abbrev calls : Meets
calls = record {
  gate = record { shutting_down = false };
  pings = true;
  jwt = ann_signs;
  now = 7;
  auth_libraries = record {
    parse_address = λ s. true;
    to_lower = λ s. s;
    trim_space = λ s. s;
    generate_from_password = λ p. some p;
    compare_hash_and_password = λ hash p. true;
  };
  auth_postgres = record { now = 0; gen_random_uuid = "u1"; fault = none };
  race_libraries = libraries;
  race_postgres = steady;
  board_server = record {
    now = 1000;
    fault = λ i. false;
    quotient = λ sum n. sum;
    mean = λ ws. 60;
    is_before = λ a b. true;
  };
  average = λ sum n. sum;
  zero_sum = 0;
  atoi = λ s. pos 1;
  register_body = none;
  login_body = none;
  create_body = none;
  window = "alltime";
  page = "1";
}

abbrev quiet_site : Site
quiet_site = record {
  users = Dict.empty;
  server = record { tables = tables; rooms = new_registry; marked = [] };
}

-- POST /races/r1/start
abbrev start_r1 : Request
start_r1 = record {
  http_method = "POST";
  path = "races" ∷ "r1" ∷ "start" ∷ [];
  authorization = "Bearer token";
}

serve_lem_example :
    let ((w, line), s') = serve "id" "*" (serve_mux calls false) start_r1 quiet_site in
    ((s' ≡ quiet_site) ⊎ Reason calls false start_r1)
    × (authenticate calls.jwt calls.now start_r1.authorization ≡ none → is_private w.body ≡ false)
serve_lem_example = serve_lem "id" "*" calls false start_r1 quiet_site

-- /swagger, /races/ and a DELETE of a race
odd_paths :
    (find_route "GET" ("swagger" ∷ []) (register_routes false) ≡ redirected)
    × (find_route "GET" ("races" ∷ "" ∷ []) (register_routes false) ≡ not_found)
    × (find_route "DELETE" ("races" ∷ "r1" ∷ []) (register_routes false) ≡ method_not_allowed)
unfolding find_route select match_path register_routes
odd_paths = (refl, refl, refl)
