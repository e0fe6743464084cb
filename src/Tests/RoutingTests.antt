-- ===== src/Tests/RoutingTests.antt =====
-- The gateway's routing of requests, backend/internal/wsgateway/gateway.go.
use aviron.Base.{
  ℕ, String, ◌≡◌, refl, ◌⊎◌, ◌<◌, ◌+◌, Bool, false, List, [], ◌∷◌, Option, none, some, arith,
  count_if,
}
use text.Mathlib.Text.{◌==◌ as ◌is_same◌}
use aviron.Base.Dict
use aviron.Base.Strings.{trim_prefix, decimal_within}
use aviron.Locator.{failure, answer}
use aviron.Gateway.Routing.{
  Router, Request, route, new_gateway, extract_race_id, before_slash, resolve_target, fresh_entry,
  write_back, pending_at, pending_without, watch_room_event, serve_room, routing_lookup_failed,
  proxied,
}
use aviron.Gateway.Routing.Discovery.{
  EndpointSlice, pool_after, recompute, slice_backends, ready_addresses,
}
use aviron.Gateway.Routing.Discovery.Pool.{IsReady}
use aviron.Gateway.Routing.Discovery.Ready.{room_less_request}
use aviron.Locator.{removed}
use aviron.Gateway.Routing.Balance.{draws, draws_spread_evenly}
use aviron.Gateway.Routing.Writes.{GatewayStep, after, take_step, request, write, room_event}
use aviron.Gateway.Routing.Freshness.{target_is_current, Stands}

abbrev pool : List String
pool = "10.0.0.1:8080" ∷ "10.0.0.2:8080" ∷ "10.0.0.3:8080" ∷ []

abbrev is_second : Option String → Bool
is_second none = false
is_second (some a) = a is_same "10.0.0.2:8080"

abbrev after_five : Router
after_five = record { cache = Dict.empty; next = 5; pending = [] }

draws_spread_evenly_example :
    count_if is_second (draws pool 3 after_five) ≡ count_if (λ b. is_second (some b)) pool
draws_spread_evenly_example =
    draws_spread_evenly is_second pool after_five (omega arith) (omega arith)

abbrev ask_text : Request
ask_text = record { path = "/races/r1/text"; asked_at = 12; owner = failure; backends = pool }

extracts_r1 : extract_race_id "/races/r1/text" ≡ some "r1"
unfolding extract_race_id trim_prefix before_slash
extracts_r1 = refl

-- A request to which the locator names the second instance.
abbrev first_ask : Request
first_ask = record ask_text { asked_at = 8; owner = answer (some "10.0.0.2:8080") }

-- The room is removed after the locator has answered, and then the answer is written.
abbrev written_late : List GatewayStep
written_late = write 0 10 ∷ room_event (removed "r1" "10.0.0.2:8080") 9 ∷ request first_ask ∷ []

target_is_current_example :
    (ask_text.owner ≡ answer (some "10.0.0.2:8080"))
    ⊎ ((at : ℕ) × Stands 30 written_late "r1" "10.0.0.2:8080" at × (12 < at + 30))
unfolding route after take_step write_back watch_room_event resolve_target fresh_entry pending_at
    pending_without extract_race_id trim_prefix before_slash serve_room Dict.get Dict.store
    Dict.delete Dict.empty
target_is_current_example =
    target_is_current 30 "r1" written_late ask_text "10.0.0.2:8080" refl refl

-- One endpoint that is ready, and one that is not.
abbrev one_ready : List (Option EndpointSlice)
one_ready =
    some (record {
      ports = some 8080 ∷ [];
      endpoints =
          record { ready = some false; addresses = "10.0.0.1" ∷ [] }
          ∷ record { ready = none; addresses = "10.0.0.2" ∷ [] }
          ∷ [];
    })
    ∷ []

-- GET /leaderboard, after the first endpoint got unready
abbrev ask_board : Request
ask_board = record {
  path = "/leaderboard";
  asked_at = 12;
  owner = failure;
  backends = pool_after ([] ∷ one_ready ∷ []) [];
}

pool-one_ready : ask_board.backends ≡ "10.0.0.2:8080" ∷ []
unfolding pool_after recompute slice_backends ready_addresses decimal_within
pool-one_ready = refl

room_less_request_example :
    (((route ask_board new_gateway).0 ≡ routing_lookup_failed)
      × ((a : String) → ¬ IsReady one_ready a))
    ⊎ ((a : String) × ((route ask_board new_gateway).0 ≡ proxied a) × IsReady one_ready a)
unfolding extract_race_id trim_prefix
room_less_request_example = room_less_request ([] ∷ []) one_ready ask_board new_gateway refl refl
