-- ===== src/Http/Posts.antt =====
-- The method of a request that changes something.
use aviron.Base.{
  String, ◌≡◌, Bool, true, false, List, [], ◌∷◌, All, some, arith, if_rule, match_rule,
}
use text.Mathlib.TextEquality.{eq_iff}
use aviron.Http.Routes.{
  Endpoint, register_route, create_route, join_route, start_route, Route, register_routes,
  match_path, takes_method, Routed, found, select, find_route,
}

-- The endpoints that change what the process shares.
abbrev pub changes : Endpoint → Bool
changes register_route = true
changes create_route = true
changes join_route = true
changes start_route = true
changes _ = false

-- Whether a route may be taken for a change: then its method is POST.
abbrev PostsOnly : Route → Type 0
PostsOnly r = changes r.endpoint ≡ true → r.http_method ≡ some "POST"

pub register_routes-PostsOnly :
    (pprof_enabled : Bool) → All PostsOnly (register_routes pprof_enabled)
unfolding register_routes
register_routes-PostsOnly true = ground arith
register_routes-PostsOnly false = ground arith

-- What the mux finds for a change was asked for by POST.
pub select-PostsOnly :
    (http_method : String) (path : List String) (rs : List Route) (known : Bool) (e : Endpoint)
    (id : String)
    → All PostsOnly rs
    → select http_method path rs known ≡ found e id
    → changes e ≡ true
    → http_method ≡ "POST"
unfolding select
select-PostsOnly http_method path [] known e id h s c = ground (arith, s)
select-PostsOnly http_method path (r ∷ rs) known e id h s c =
    match_rule P (match_path r.pattern path)
      (λ _ s'. select-PostsOnly http_method path rs known e id (h.1) s' c)
      (λ id' _.
        if_rule P (takes_method r.http_method http_method) (λ t s'. taken t (h.0 (same s')))
          (λ _ s'. select-PostsOnly http_method path rs true e id (h.1) s' c))
      s
  where
    P : Routed → Type 0
    P x = x ≡ found e id → http_method ≡ "POST"

    same : {id' : String} → found r.endpoint id' ≡ found e id → changes r.endpoint ≡ true
    same s' = ground (arith, s', c)

    taken :
        takes_method r.http_method http_method ≡ true
        → r.http_method ≡ some "POST"
        → http_method ≡ "POST"
    taken t p = ground (arith, t, p, eq_iff "POST" http_method)

pub find_route-found :
    (http_method : String) (path : List String) (rs : List Route) (e : Endpoint) (id : String)
    → find_route http_method path rs ≡ found e id
    → select http_method path rs false ≡ found e id
unfolding find_route
find_route-found http_method path rs e id h = ground (arith, h)
