-- ===== src/Room/Ranks.antt =====
-- The ranks of a room under every schedule: backend/internal/room/room.go.
use aviron.Base.{String, ◌≡◌, List, none, arith}
use aviron.Base.Int.{ℤ}
use aviron.Base.Dict
use aviron.Base.Dict.{get-empty, values-empty}
use aviron.Room.State.{Instant, RoomEvent, RoomActor}
use aviron.Room.Env.{Env}
use aviron.Room.Actor.{new_room_actor}
use aviron.Room.Apply.{apply_event}
use aviron.Room.Run.{Turn, on_tick, run}
use aviron.Room.Induction.{run-keeps}
use aviron.Room.Board.{Board, board, Slot, here, away, slot, IsRanked}
use aviron.Room.Board.Keeps.{BoardSteps-IsRanked}
use aviron.Room.Refines.{apply_event-BoardSteps, board-broadcast_snapshot}

-- The ranks of a room are in order.
abbrev pub Ranked : RoomActor → Type 0
Ranked r = IsRanked (board r)

abbrev empty_board : Board
empty_board = record { live = Dict.empty; gone = Dict.empty; seen = 0; finishers = 0 }

slot-empty_board : (s : Slot) → slot empty_board s ≡ none
slot-empty_board (here u) = get-empty u
slot-empty_board (away u) = get-empty u

empty_board-IsRanked : IsRanked empty_board
empty_board-IsRanked = record {
  paired = λ s p e. cc (slot-empty_board s);
  bounded = λ s p n e r. absurd (cc (slot-empty_board s));
  unique = λ s t p q n e f r r'. cc (slot-empty_board s);
  counted = rw values-empty (omega arith);
}

module _ (env : Env) where
  -- In a new room the ranks are in order.
  pub new_room_actor-Ranked :
      (id : String) (distance : ℤ) (start : Instant) → Ranked (new_room_actor env id distance start)
  unfolding new_room_actor
  new_room_actor-Ranked id distance start = empty_board-IsRanked

  pub apply_event-Ranked :
      (ev : RoomEvent) (r : RoomActor) → Ranked r → Ranked (apply_event env ev r)
  apply_event-Ranked ev r v = BoardSteps-IsRanked (apply_event-BoardSteps env ev r) v

  run-Ranked : (ts : List Turn) (r : RoomActor) → Ranked r → Ranked (run env ts r)
  unfolding on_tick
  run-Ranked =
      run-keeps env Ranked apply_event-Ranked (λ r v. rw board-broadcast_snapshot v)
        (λ r evs ms v. v) (λ r v. v)

  -- From the room's creation on, under every schedule: a finish rank is set together with the time
  -- of the finish; every rank lies between 1 and the number of finishers; no two people, still here
  -- or departed, have one rank; and the finishers and those without a rank, together, are no more
  -- than the participants counted.
  pub run-ranks_in_order :
      (id : String) (distance : ℤ) (start : Instant) (ts : List Turn)
      → IsRanked (board (run env ts (new_room_actor env id distance start)))
  run-ranks_in_order id distance start ts =
      run-Ranked ts _ (new_room_actor-Ranked id distance start)
