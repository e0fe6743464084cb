-- ===== src/Http/Access.antt =====
-- What a request may change.
use aviron.Base.{
  String, ◌≡◌, ◌⊎◌, inl, inr, refl, Bool, true, false, Option, none, some, arith, if_rule,
  match_rule,
}
use text.Mathlib.Text.{◌==◌}
use aviron.Auth.Tokens.{authenticate}
use aviron.Http.Middleware.{Request, Written, cors, serve}
use aviron.Http.Routes.{
  Endpoint, healthz_route, livez_route, metrics_route, register_route, login_route, create_route,
  list_open_route, join_route, start_route, text_route, status_route, me_route, top_route,
  swagger_route, pprof_route, register_routes, Routed, found, method_not_allowed, redirected,
  not_found, select, find_route,
}
use aviron.Http.Site.{
  Meets, Site, Answer, race_answer, board_answer, answered, mux_error, handle_signed, require_auth,
  dispatch, serve_mux, sign_up,
}
use aviron.Http.Posts.{changes, register_routes-PostsOnly, select-PostsOnly, find_route-found}

-- Why a request may have changed the site.
pub data Reason (c : Meets) (pprof_enabled : Bool) (r : Request) : Type 0 where
  -- it registers a user
  registers :
      (id : String)
      → select r.http_method r.path (register_routes pprof_enabled) false ≡ found register_route id
      → r.http_method ≡ "POST"
      → Reason c pprof_enabled r
  -- a user makes, joins or starts a race
  signed :
      (e : Endpoint) (id user_id : String)
      → select r.http_method r.path (register_routes pprof_enabled) false ≡ found e id
      → changes e ≡ true
      → r.http_method ≡ "POST"
      → authenticate c.jwt c.now r.authorization ≡ some user_id
      → Reason c pprof_enabled r

module _ (c : Meets) (pprof_enabled : Bool) (r : Request) (s : Site) where
  -- A site that is as it was, or a reason.
  Explained : Written Answer × Site → Type 0
  Explained x = (x.1 ≡ s) ⊎ Reason c pprof_enabled r

  signed-Explained :
      (e : Endpoint) (id : String)
      → select r.http_method r.path (register_routes pprof_enabled) false ≡ found e id
      → changes e ≡ true
      → Explained (require_auth c e id r s)
  unfolding require_auth Explained
  signed-Explained e id q h =
      match_rule Explained (authenticate c.jwt c.now r.authorization) (λ _. inl refl)
        (λ user_id a. inr (
          signed e id user_id q h
            (select-PostsOnly r.http_method r.path (register_routes pprof_enabled) false e id
              (register_routes-PostsOnly pprof_enabled) q h)
            a))

  -- A handler behind requireAuth that changes nothing.
  read-Explained :
      (e : Endpoint) (id : String)
      → ((user_id : String) → (handle_signed c e id user_id s).1 ≡ s)
      → Explained (require_auth c e id r s)
  unfolding require_auth Explained
  read-Explained e id h =
      match_rule Explained (authenticate c.jwt c.now r.authorization) (λ _. inl refl)
        (λ user_id _. inl (h user_id))

  dispatch-Explained :
      (e : Endpoint) (id : String)
      → select r.http_method r.path (register_routes pprof_enabled) false ≡ found e id
      → Explained (dispatch c e id r s)
  unfolding dispatch handle_signed Explained
  dispatch-Explained healthz_route id q = inl refl
  dispatch-Explained livez_route id q = inl refl
  dispatch-Explained metrics_route id q = inl refl
  dispatch-Explained swagger_route id q = inl refl
  dispatch-Explained pprof_route id q = inl refl
  dispatch-Explained login_route id q = inl refl
  dispatch-Explained register_route id q = inr (
      registers id q (
        select-PostsOnly r.http_method r.path (register_routes pprof_enabled) false register_route
          id (register_routes-PostsOnly pprof_enabled) q refl))
  dispatch-Explained create_route id q = signed-Explained create_route id q refl
  dispatch-Explained join_route id q = signed-Explained join_route id q refl
  dispatch-Explained start_route id q = signed-Explained start_route id q refl
  dispatch-Explained list_open_route id q = read-Explained list_open_route id (λ u. refl)
  dispatch-Explained text_route id q = read-Explained text_route id (λ u. refl)
  dispatch-Explained status_route id q = read-Explained status_route id (λ u. refl)
  dispatch-Explained me_route id q = read-Explained me_route id (λ u. refl)
  dispatch-Explained top_route id q = read-Explained top_route id (λ u. refl)

  serve_mux-Explained : Explained (serve_mux c pprof_enabled r s)
  unfolding serve_mux Explained
  serve_mux-Explained =
      by_route (find_route r.http_method r.path (register_routes pprof_enabled)) refl
    where
      by_route :
          (x : Routed)
          → find_route r.http_method r.path (register_routes pprof_enabled) ≡ x
          → Explained (elim x as (λ _. Written Answer × Site) [
            | found e id ↦ dispatch c e id r s
            | method_not_allowed ↦ (answered "" (mux_error 405), s)
            | redirected ↦ (answered "" (mux_error 301), s)
            | not_found ↦ (answered "" (mux_error 404), s)
          ])
      by_route (found e id) q =
          dispatch-Explained e id
            (find_route-found r.http_method r.path (register_routes pprof_enabled) e id q)
      by_route method_not_allowed q = inl refl
      by_route redirected q = inl refl
      by_route not_found q = inl refl

-- Whether a body comes from the handlers of races or of the leaderboard.
abbrev pub is_private : Option Answer → Bool
is_private (some (race_answer x)) = true
is_private (some (board_answer x)) = true
is_private _ = false

module _ (c : Meets) (r : Request) (s : Site)
    (stranger : authenticate c.jwt c.now r.authorization ≡ none) where
  -- What someone without a valid token sees.
  Public : Written Answer × Site → Type 0
  Public x = is_private x.0.body ≡ false

  require_auth-Public : (e : Endpoint) (id : String) → Public (require_auth c e id r s)
  unfolding require_auth Public
  require_auth-Public e id =
      match_rule Public (authenticate c.jwt c.now r.authorization) (λ _. refl)
        (λ user_id a. ground (arith, stranger, a))

  dispatch-Public : (e : Endpoint) (id : String) → Public (dispatch c e id r s)
  unfolding dispatch Public sign_up
  dispatch-Public healthz_route id = refl
  dispatch-Public livez_route id = refl
  dispatch-Public metrics_route id = refl
  dispatch-Public swagger_route id = refl
  dispatch-Public pprof_route id = refl
  dispatch-Public login_route id = refl
  dispatch-Public register_route id = refl
  dispatch-Public create_route id = require_auth-Public create_route id
  dispatch-Public join_route id = require_auth-Public join_route id
  dispatch-Public start_route id = require_auth-Public start_route id
  dispatch-Public list_open_route id = require_auth-Public list_open_route id
  dispatch-Public text_route id = require_auth-Public text_route id
  dispatch-Public status_route id = require_auth-Public status_route id
  dispatch-Public me_route id = require_auth-Public me_route id
  dispatch-Public top_route id = require_auth-Public top_route id

  serve_mux-Public : (pprof_enabled : Bool) → Public (serve_mux c pprof_enabled r s)
  unfolding serve_mux Public
  serve_mux-Public pprof_enabled =
      by_route (find_route r.http_method r.path (register_routes pprof_enabled))
    where
      by_route :
          (x : Routed)
          → Public (elim x as (λ _. Written Answer × Site) [
            | found e id ↦ dispatch c e id r s
            | method_not_allowed ↦ (answered "" (mux_error 405), s)
            | redirected ↦ (answered "" (mux_error 301), s)
            | not_found ↦ (answered "" (mux_error 404), s)
          ])
      by_route (found e id) = dispatch-Public e id
      by_route method_not_allowed = refl
      by_route redirected = refl
      by_route not_found = refl

-- Whatever a request to a race-service process is, it leaves the users, the tables, the rooms and what
-- their actors were told as they were, or it is a POST that registers a user, or a POST that makes,
-- joins or starts a race with a token that authenticates its user; and without such a token no answer
-- comes from the handlers of races or of the leaderboard.
pub serve_lem :
    (id allowed_origin : String) (c : Meets) (pprof_enabled : Bool) (r : Request) (s : Site)
    → let ((w, line), s') = serve id allowed_origin (serve_mux c pprof_enabled) r s in
      ((s' ≡ s) ⊎ Reason c pprof_enabled r)
      × (authenticate c.jwt c.now r.authorization ≡ none → is_private w.body ≡ false)
unfolding serve cors Explained Public
serve_lem id allowed_origin c pprof_enabled r s = (
  if_rule (Explained c pprof_enabled r s) (r.http_method == "OPTIONS") (λ _. inl refl)
      (λ _. serve_mux-Explained c pprof_enabled r s),
  λ stranger.
      if_rule (Public c r s stranger) (r.http_method == "OPTIONS") (λ _. refl)
        (λ _. serve_mux-Public c r s stranger pprof_enabled),
)
