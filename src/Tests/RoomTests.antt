-- ===== src/Tests/RoomTests.antt =====
-- The room actor, backend/internal/room.
use aviron.Base.{◌≡◌, map, length, Perm, refl, none, some, false, true}
use aviron.Base.Int.{pos}
use aviron.Base.Dict
use aviron.Room.Actor.{new_room_actor}
use aviron.Room.Run.{run}
use aviron.Room.Apply.{apply_event, new_participant, on_left, reattached}
use aviron.Room.State.{
  participant_left, participant_joined, participant_disconnected, participant_evicted,
  telemetry_received, RoomActor,
}
use aviron.Room.Refines.{apply_event-BoardSteps}
use aviron.Room.Board.{board, IsRanked, BoardSteps}
use aviron.Room.Ranks.{run-ranks_in_order}
use aviron.Room.Settle.{IsSettled, run-settles_once}
use aviron.Room.Fairness.{AllFair, run-AllFair}
use aviron.Room.Actor.{any_racing, standings, snapshot, depart_participant, check_race_finished}
use aviron.Room.Returning.{departed, leaver_returns_twice}
use aviron.Room.Racing.{racing_goes_on, last_finisher_ends, endings}
use aviron.Room.Grace.{live, reconnect_survives_expiry, stale_expiry_removes}
use aviron.Room.Snapshot.{snapshot_lem, shown, count_up, IsRankedList}
use aviron.Tests.Fixtures.{calm, short_race, player, room_with, bob_only, bob_and_ann}

abbrev started : RoomActor
started = run calm short_race (new_room_actor calm "r1" (pos 3) 0)

run-ranks_in_order_example :
    IsRanked (board (run calm short_race (new_room_actor calm "r1" (pos 3) 0)))
run-ranks_in_order_example = run-ranks_in_order calm "r1" (pos 3) 0 short_race

run-settles_once_example : IsSettled (run calm short_race (new_room_actor calm "r1" (pos 3) 0))
run-settles_once_example = run-settles_once calm "r1" (pos 3) 0 short_race

run-AllFair_example : AllFair (run calm short_race (new_room_actor calm "r1" (pos 3) 0))
run-AllFair_example = run-AllFair calm "r1" (pos 3) 0 short_race

apply_event-BoardSteps_example :
    BoardSteps (board started) (board (apply_event calm (participant_left "bob") started))
apply_event-BoardSteps_example = apply_event-BoardSteps calm (participant_left "bob") started

racing_goes_on_example :
    ((apply_event calm (participant_left "ann") (room_with true bob_and_ann)).finished ≡ false)
    × (endings (apply_event calm (participant_left "ann") (room_with true bob_and_ann)) ≡ 0)
unfolding apply_event on_left depart_participant check_race_finished Dict.get Dict.store Dict.empty
    Dict.values any_racing Dict.delete
racing_goes_on_example =
    racing_goes_on calm (participant_left "ann") (room_with true bob_and_ann) refl refl

snapshot_lem_example :
    (map (λ e. e.user_id) (shown (snapshot calm (room_with true bob_and_ann)))
      ≡ map (λ p. p.user_id) (standings calm (room_with true bob_and_ann)))
    × (map (λ e. e.rank) (shown (snapshot calm (room_with true bob_and_ann)))
        ≡ count_up 1 (length (standings calm (room_with true bob_and_ann))))
    × Perm (standings calm (room_with true bob_and_ann)) (Dict.values bob_and_ann)
    × IsRankedList (standings calm (room_with true bob_and_ann))
snapshot_lem_example = snapshot_lem calm (room_with true bob_and_ann)

last_finisher_ends_example :
    let s =
      apply_event calm (telemetry_received "bob" (pos 2) (pos 3) 60) (room_with true bob_only) in
    (s.finished ≡ true) × (s.cancelled ≡ true)
unfolding Dict.get Dict.store Dict.empty Dict.values Dict.delete any_racing
last_finisher_ends_example =
    last_finisher_ends calm (room_with true bob_only) "bob" (player "bob" 1 none) (pos 2) (pos 3) 60
      (λ s id d rs. refl) refl refl refl refl refl refl refl

reconnect_survives_expiry_example :
    let back = apply_event calm (participant_joined "ann" "Ann") (room_with true bob_and_ann) in
    (apply_event calm (participant_evicted "ann") back ≡ back)
    × (live back "ann" ≡ some (reattached (player "ann" 2 (some 7))))
unfolding Dict.get Dict.store Dict.empty
reconnect_survives_expiry_example =
    reconnect_survives_expiry calm (room_with true bob_and_ann) "ann" "Ann"
      (player "ann" 2 (some 7)) refl

stale_expiry_removes_example :
    live
      (apply_event calm (participant_evicted "ann") (
        apply_event calm
          (participant_disconnected "ann")
          (apply_event calm (participant_joined "ann" "Ann") (room_with true bob_and_ann))))
      "ann"
    ≡ none
unfolding Dict.get Dict.store Dict.empty
stale_expiry_removes_example =
    stale_expiry_removes calm (room_with true bob_and_ann) "ann" "Ann" (player "ann" 2 (some 7))
      refl

leaver_returns_twice_example :
    let left = apply_event calm (participant_left "bob") (room_with true bob_and_ann) in
    let back = apply_event calm (participant_joined "bob" "Bob") left in
    (live back "bob" ≡ some (new_participant calm left "bob" "Bob"))
    × (departed back "bob" ≡ some (player "bob" 1 none))
unfolding Dict.get Dict.store Dict.empty
leaver_returns_twice_example =
    leaver_returns_twice calm (room_with true bob_and_ann) "bob" "Bob" (player "bob" 1 none) refl
      refl
