-- ===== src/Gateway/Routing/Discovery/Ready.antt =====
-- Requests over the pool of a discovery.
use native.Mathlib.Nat.{mod-lt}
use aviron.Base.{
  ℕ, zero, suc, ◌<◌, String, ◌≡◌, ◌⊎◌, inl, inr, refl, sym, ap, ◌∙◌, subst, List, [], ◌∷◌, ◌++◌,
  Option, none, some, length, All, In, arith, if_rule, match_rule, ◌==◌,
}
use aviron.Gateway.Routing.{
  Router, Request, Routed, routing_lookup_failed, proxied, extract_race_id, next_backend,
  backend_at, pick, succ_uint64, pred_uint64, serve_room_less, route,
}
use aviron.Gateway.Routing.Discovery.{EndpointSlice, recompute, pool_after}
use aviron.Gateway.Routing.Discovery.Pool.{IsReady, recompute_sound, recompute_complete}

-- What stands at a place of a list has what all have.
backend_at-All :
    (P : String → Type 0) (bs : List String) (i : ℕ)
    → i < length bs
    → All P bs
    → (a : String) × (backend_at bs i ≡ some a) × P a
unfolding backend_at
backend_at-All P [] i l h = absurd (omega (arith, l))
backend_at-All P (b ∷ bs) zero l h = (b, refl, h.0)
backend_at-All P (b ∷ bs) (suc i) l h = backend_at-All P bs i (omega (arith, l)) (h.1)

pool_after_last :
    (stores : List (List (Option EndpointSlice))) (objs : List (Option EndpointSlice))
    (pool : List String)
    → pool_after (stores ++ objs ∷ []) pool ≡ recompute objs
unfolding pool_after
pool_after_last [] objs pool = refl
pool_after_last (store ∷ stores) objs pool = pool_after_last stores objs (recompute store)

not_listed : (bs : List String) (a : String) → length bs ≡ 0 → ¬ In a bs
not_listed [] a z i = elim i [ ]
not_listed (b ∷ bs) a z i = absurd (omega (arith, z))

-- After any sequence of events, with the pool that the last one left, a request that belongs to no race
-- is answered with 503, and then no address in the store at that event is ready, or is proxied to one
-- that is.
pub room_less_request :
    (stores : List (List (Option EndpointSlice))) (objs : List (Option EndpointSlice)) (r : Request)
    (gw : Router)
    → extract_race_id r.path ≡ none
    → r.backends ≡ pool_after (stores ++ objs ∷ []) []
    → (((route r gw).0 ≡ routing_lookup_failed) × ((a : String) → ¬ IsReady objs a))
      ⊎ ((a : String) × ((route r gw).0 ≡ proxied a) × IsReady objs a)
unfolding route next_backend serve_room_less
room_less_request stores objs r gw roomless left =
    match_rule (λ (x : Routed × Router). Served x.0) (extract_race_id r.path)
      (λ _.
        if_rule (λ (x : Option String × Router). Served (serve_room_less x.0))
          (length r.backends == 0)
          (λ empty. inl (refl, λ a h. not_listed r.backends a (ground (arith, empty)) (listed a h)))
          (λ some_left.
            let size = length r.backends in
            let (a, at, ready) =
              backend_at-All (IsReady objs) r.backends (pick (succ_uint64 gw.next) size)
                (mod-lt (pred_uint64 (succ_uint64 gw.next)) (ground (arith, some_left)))
                (subst (All (IsReady objs)) (sym pool) (recompute_sound objs)) in
            inr (a, ap serve_room_less at, ready)))
      (λ race_id e. ground (arith, roomless, e))
  where
    pool : r.backends ≡ recompute objs
    pool = left ∙ pool_after_last stores objs []

    Served : Routed → Type 0
    Served x =
        ((x ≡ routing_lookup_failed) × ((a : String) → ¬ IsReady objs a))
        ⊎ ((a : String) × (x ≡ proxied a) × IsReady objs a)

    listed : (a : String) → IsReady objs a → In a r.backends
    listed a h = subst (In a) (sym pool) (recompute_complete objs a h)
