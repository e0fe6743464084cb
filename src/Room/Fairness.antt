-- ===== src/Room/Fairness.antt =====
-- Every list of results that a room writes to Postgres or publishes is fair, whatever happened
-- before: backend/internal/room/room.go.
use aviron.Base.{◌≡◌, sym, subst, false, List, Option, All}
use aviron.Base.Int.{ℤ}
use aviron.Base.{String}
use aviron.Room.State.{
  Instant, Error, RoomEvent, Call, publish_race_finished, finish_race, RoomActor,
}
use aviron.Room.Env.{Env}
use aviron.Room.Actor.{new_room_actor, race_results, check_race_finished, expire_pending_room}
use aviron.Room.Apply.{apply_event}
use aviron.Room.Run.{Turn, on_tick, run}
use aviron.Room.Board.{IsRanked}
use aviron.Room.Refines.{board-check_race_finished, board-broadcast_snapshot}
use aviron.Room.Endings.{
  broadcast_snapshot_rule, expire_pending_room_rule, finish_race_with_rule,
  check_race_finished_rule,
}
use aviron.Room.Events.{is_ending, apply_event-keeps}
use aviron.Room.Induction.{run-keeps}
use aviron.Room.Ranks.{Ranked, new_room_actor-Ranked, apply_event-Ranked}
use aviron.Room.Results.{IsFair, race_results-IsFair}

-- The results that a call carries are fair.
abbrev pub IsFairCall : Call × Option Error → Type 0
IsFairCall (finish_race id distance results, a) = IsFair results
IsFairCall (publish_race_finished id results, a) = IsFair results
IsFairCall _ = Unit

abbrev pub AllFair : RoomActor → Type 0
AllFair r = All IsFairCall r.calls

quiet-IsFairCall : (c : Call) (a : Option Error) → is_ending c ≡ false → IsFairCall (c, a)
quiet-IsFairCall (finish_race id distance results) a q = cc
quiet-IsFairCall (publish_race_finished id results) a q = cc
quiet-IsFairCall _ a q = tt

module _ (env : Env) where
  expires-AllFair : (r : RoomActor) → AllFair r → AllFair (expire_pending_room env r)
  expires-AllFair r v = expire_pending_room_rule env AllFair r (λ e. (tt, v)) (λ ms. (tt, v))

  checks-AllFair :
      (r : RoomActor)
      → Ranked (check_race_finished env r)
      → AllFair r
      → AllFair (check_race_finished env r)
  checks-AllFair r q v =
      let fair = race_results-IsFair env r (subst IsRanked (board-check_race_finished env r) q) in
      check_race_finished_rule env AllFair r v
        (λ _ _ _.
          finish_race_with_rule env AllFair (race_results env r) r (λ ms e _ _. (fair, v))
            (λ ms a. (fair, (fair, v))))
        (λ _ _ _. expires-AllFair r v)

  apply_event-AllFair :
      (ev : RoomEvent) (r : RoomActor)
      → AllFair r
      → Ranked (apply_event env ev r)
      → AllFair (apply_event env ev r)
  apply_event-AllFair =
      apply_event-keeps env AllFair Ranked (λ r live gone out seen ticks count ms v. v)
        (λ c r q v. (quiet-IsFairCall c (env.answer r c) q, v)) (λ r v. v)
        (λ r _ _ v. expires-AllFair r v) checks-AllFair

  abbrev Good : RoomActor → Type 0
  Good r = Ranked r × AllFair r

  apply_event-Good : (ev : RoomEvent) (r : RoomActor) → Good r → Good (apply_event env ev r)
  apply_event-Good ev r (v, f) =
      let v' = apply_event-Ranked env ev r v in (v', apply_event-AllFair ev r f v')

  run-Good : (ts : List Turn) (r : RoomActor) → Good r → Good (run env ts r)
  unfolding on_tick
  run-Good =
      run-keeps env Good apply_event-Good
        (λ r v. (
          subst IsRanked (sym (board-broadcast_snapshot env r)) v.0,
          (tt, broadcast_snapshot_rule env AllFair r (λ ms. v.1)),
        ))
        (λ r evs ms v. v) (λ r v. v)

  -- From the room's creation on, under every schedule and whatever errors the calls return: in
  -- every list of results that the room hands to Postgres or publishes, everyone has a rank; those
  -- with no finish time share one rank, which is behind that of everyone with a time; and two
  -- entries with a time and the same rank are the same entry.
  pub run-AllFair :
      (id : String) (distance : ℤ) (start : Instant) (ts : List Turn)
      → AllFair (run env ts (new_room_actor env id distance start))
  unfolding new_room_actor
  run-AllFair id distance start ts =
      (run-Good ts (new_room_actor env id distance start)
        (new_room_actor-Ranked env id distance start, (tt, (tt, tt)))).1
