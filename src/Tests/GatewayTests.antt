-- ===== src/Tests/GatewayTests.antt =====
-- The gateway's fan-out, backend/internal/wsgateway/racehub.go.
use aviron.Base.{◌≤◌, List, ◌≡◌, refl, [], ◌∷◌, ◌++◌, some, none, true, false, arith}
use aviron.Base.Dict
use aviron.Gateway.Hub.{RaceHub, register, envelope, room_closed, run, out_closed}
use aviron.Gateway.Hub.Delivery.{closing_delivers_all, broadcasts, queue_all}
use aviron.Gateway.Registry.{new_race_hub_registry}
use aviron.Gateway.Registry.Laws.{entry, refs}
use aviron.Gateway.Registry.Refs.{IsHeld}
use aviron.Gateway.Connections.{
  new_gateway, Turn, starts, ends, hears, shuts_down, take_turn, take_turns,
}
use aviron.Gateway.Connections.Counting.{connections_to, none_returns, refs-take_turns}
use aviron.Gateway.Connections.Late.{Strands, late_close_cuts_off}

abbrev two_conns : RaceHub
two_conns = record {
  conns =
      record { ch = 1; queue = []; cancelled = false }
      ∷ record { ch = 2; queue = (9 ∷ []) ∷ []; cancelled = false }
      ∷ [];
  conn_count = 2;
  closed = false;
}

closing_delivers_all_example :
    let end =
      run
        (broadcasts ((7 ∷ []) ∷ (8 ∷ []) ∷ []) ++ envelope room_closed ∷ register 3 ∷ [])
        two_conns in
    (end.conns ≡ queue_all ((7 ∷ []) ∷ (8 ∷ []) ∷ []) two_conns.conns) × (end.closed ≡ true)
closing_delivers_all_example =
    closing_delivers_all ((7 ∷ []) ∷ (8 ∷ []) ∷ []) (register 3 ∷ []) two_conns refl
      (omega arith, (omega arith, tt))

-- Two players come to a race, one to another whose subscription fails, and one goes.
abbrev some_come : List Turn
some_come =
    starts none "r1"
    ∷ starts (some "no server") "r2"
    ∷ starts none "r1"
    ∷ ends 0
    ∷ hears 0 out_closed
    ∷ []

refs-take_turns_example :
    let g = take_turns some_come new_gateway in
    IsHeld (entry g.registry "r1")
    × (refs (entry g.registry "r1") ≤ connections_to "r1" g.live)
    × (none_returns some_come ≡ true → refs (entry g.registry "r1") ≡ connections_to "r1" g.live)
refs-take_turns_example = refs-take_turns some_come "r1"

late_close_cuts_off_example : Strands "r1" (take_turns (shuts_down ∷ []) new_gateway)
unfolding take_turns take_turn new_gateway new_race_hub_registry Dict.get Dict.empty
late_close_cuts_off_example = late_close_cuts_off "r1" (shuts_down ∷ []) refl
