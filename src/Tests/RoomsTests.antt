-- ===== src/Tests/RoomsTests.antt =====
-- The registry of rooms and the way to the bus, backend/internal/room/registry.go.
use aviron.Base.{◌≡◌, refl, [], ◌∷◌, ◌++◌, true, false, arith}
use aviron.Base.Dict
use aviron.Rooms.Registry.{Registry, new_registry, spawn}
use aviron.Tests.Fixtures.{calm, room_with, bob_only}
use aviron.Room.Actor.{announce_finish}
use aviron.Rooms.Drain.{Drain}
use aviron.Shutdown.{Process, cleans, ticks, wait_for_rooms_to_drain}
use aviron.Shutdown.Losing.{exit_loses_results}

abbrev one_room : Registry
one_room = spawn "r1" new_registry

exit_loses_results_example :
    let d : Drain = record {
      actor = announce_finish calm [] (room_with true bob_only);
      bus_calls = [];
      returned = false;
    } in
    let p : Process = record { registry = one_room; drain = d; exited = false } in
    let end =
      wait_for_rooms_to_drain (cleans (record { race_id = "r1"; number = 0 }) ∷ ticks ∷ []) p in
    (end.exited ≡ true)
    × (end.drain.bus_calls ≡ [])
    × (end.drain.actor.broadcast ≡ [] ++ (4 ∷ []) ∷ [])
unfolding spawn new_registry Dict.get Dict.store Dict.empty Dict.size
exit_loses_results_example =
    exit_loses_results calm [] [] (room_with true bob_only) (4 ∷ [])
      (record { race_id = "r1"; number = 0 }) one_room refl refl refl (omega arith)
