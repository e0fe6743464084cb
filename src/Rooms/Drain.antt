-- ===== src/Rooms/Drain.antt =====
-- backend/internal/room/registry.go: `drainBroadcast`, from a room's broadcast channel to the bus.
pub mod Delivery
use aviron.Base.{Bool, true, false, List, [], ◌∷◌, ◌++◌, map, if◌then◌else◌}
use aviron.Room.State.{Payload, RoomActor}

-- What is asked of the bus, with a background context; an error is only logged.
pub data BusCall : Type 0 where
  publish_out : Payload → BusCall
  publish_room_closed : BusCall

pub record Drain : Type 0 where
  pub actor : RoomActor
  pub bus_calls : List BusCall
  pub returned : Bool

-- What the outer `select` picks; it can pick only what is ready.
pub data Pick : Type 0 where
  -- case msg := <-broadcast
  message : Pick
  -- case <-ctx.Done()
  done : Pick

abbrev take_message : Drain → Drain
take_message d = elim d.actor.broadcast [
  | [] ↦ d
  | m ∷ rest ↦ record d {
    actor = record d.actor { broadcast = rest };
    bus_calls = d.bus_calls ++ publish_out m ∷ [];
  }
]

-- The inner loop: all that is buffered, then the end of the room. It is taken as one step, in which
-- the room sends nothing more.
unfoldable pub drain_rest : List Payload → List BusCall → List BusCall
drain_rest [] calls = calls ++ publish_room_closed ∷ []
drain_rest (m ∷ ms) calls = drain_rest ms (calls ++ publish_out m ∷ [])

abbrev take_done : Drain → Drain
take_done d =
    if d.actor.cancelled
    then record d {
      actor = record d.actor { broadcast = [] };
      bus_calls = drain_rest d.actor.broadcast d.bus_calls;
      returned = true;
    }
    else d

unfoldable pub drain_turn : Pick → Drain → Drain
drain_turn message d = take_message d
drain_turn done d = take_done d

unfoldable pub drain_broadcast : List Pick → Drain → Drain
drain_broadcast [] d = d
drain_broadcast (p ∷ ps) d =
    let rest = drain_broadcast ps (drain_turn p d) in if d.returned then d else rest
