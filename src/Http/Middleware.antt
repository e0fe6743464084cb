-- ===== src/Http/Middleware.antt =====
-- backend/internal/middleware: cors.go, requestid.go and requestlog.go around a handler.
use aviron.Base.{ℕ, String, List, [], ◌∷◌, ◌++◌, Option, none, some, if◌then◌else◌}
use text.Mathlib.Text.{◌==◌}
use aviron.Auth.{is_empty}

-- What the middleware reads of a request.
pub record Request : Type 0 where
  pub http_method : String
  pub path : List String
  -- the Authorization header
  pub authorization : String

-- What a handler has written: its headers, the status that it has set, if any, and its body; and the
-- user that Auth has noted for the log.
pub record Written (B : Type 0) : Type 0 where
  pub headers : List (String × String)
  pub status : Option ℕ
  pub body : Option B
  pub noted_user : String

-- A handler over the state `S` of the process.
abbrev pub Handler : Type 0 → Type 0 → Type 0
Handler B S = Request → S → Written B × S

abbrev pub add_headers : {B : Type 0} → List (String × String) → Written B → Written B
add_headers hs w = record w { headers = hs ++ w.headers }

-- Cors
abbrev pub cors_headers : String → List (String × String)
cors_headers allowed_origin =
    ("Access-Control-Allow-Origin", allowed_origin)
    ∷ ("Access-Control-Allow-Methods", "GET, POST, OPTIONS")
    ∷ ("Access-Control-Allow-Headers", "Authorization, Content-Type")
    ∷ []

unfoldable pub cors : {B S : Type 0} → String → Handler B S → Handler B S
cors allowed_origin next r s =
    if r.http_method == "OPTIONS"
    then (
      record {
        headers = cors_headers allowed_origin;
        status = some 204;
        body = none;
        noted_user = "";
      },
      s,
    )
    else let (w, s') = next r s in (add_headers (cors_headers allowed_origin) w, s')

-- RequestID, with the id that generateRequestID returns
unfoldable pub request_id : {B S : Type 0} → String → Handler B S → Handler B S
request_id id next r s = let (w, s') = next r s in (add_headers (("X-Request-ID", id) ∷ []) w, s')

-- A line of the log; the user is left out when it is empty.
pub record LogLine : Type 0 where
  pub http_method : String
  pub path : List String
  pub status : ℕ
  pub request_id : String
  pub user_id : Option String

-- statusWriter: the status that is on record, 200 before WriteHeader
abbrev pub recorded_status : {B : Type 0} → Written B → ℕ
recorded_status w = elim w.status [ none ↦ 200 | some n ↦ n ]

-- RequestLog: the line of a request that was handled
unfoldable pub log_line : {B : Type 0} → String → Request → Written B → LogLine
log_line id r w = record {
  http_method = r.http_method;
  path = r.path;
  status = recorded_status w;
  request_id = id;
  user_id = if is_empty w.noted_user then none else some w.noted_user;
}

-- The chain of cmd/server: RequestID, RequestLog and Cors around the mux; with the line that is logged.
unfoldable pub serve :
    {B S : Type 0} → String → String → Handler B S → Request → S → (Written B × LogLine) × S
serve id allowed_origin mux r s =
    let (w, s') = cors allowed_origin mux r s in
    ((add_headers (("X-Request-ID", id) ∷ []) w, log_line id r w), s')
