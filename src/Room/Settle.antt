-- ===== src/Room/Settle.antt =====
-- How a room ends: backend/internal/room/room.go writes one outcome to Postgres, once.
use aviron.Base.{
  ℕ, String, ◌≡◌, refl, Bool, true, false, List, Option, none, some, arith, if◌then◌else◌, count_if,
}
use aviron.Base.Int.{ℤ}
use aviron.Room.State.{
  Instant, Error, RoomEvent, Call, finish_race, cancel_race, observe_tick, after_func_event,
  RoomActor,
}
use aviron.Room.Env.{Env}
use aviron.Room.Actor.{
  new_room_actor, perform, expire_pending_room, race_results, check_race_finished,
}
use aviron.Room.Apply.{apply_event}
use aviron.Room.Run.{Turn, on_tick, run}
use aviron.Room.Induction.{run-keeps}
use aviron.Room.Events.{is_ending, apply_event-keeps}
use aviron.Room.Endings.{
  broadcast_snapshot_rule, expire_pending_room_rule, finish_race_with_rule,
  check_race_finished_rule,
}

-- The writes that end a race in Postgres.
abbrev pub is_outcome : Call → Bool
is_outcome (finish_race id distance results) = true
is_outcome (cancel_race id) = true
is_outcome _ = false

-- Whether a call was such a write, and succeeded.
abbrev pub is_written : Call × Option Error → Bool
is_written (c, none) = is_outcome c
is_written (c, some e) = false

-- How many of them succeeded.
abbrev pub outcomes : List (Call × Option Error) → ℕ
outcomes = count_if is_written

-- A room is finished exactly when one outcome was written, and then its context is cancelled.
pub record IsSettled (r : RoomActor) : Type 0 where
  pub once : outcomes r.calls ≡ (if r.finished then 1 else 0)
  pub stopped : r.finished ≡ true → r.cancelled ≡ true

is_written-quiet : (c : Call) (a : Option Error) → is_ending c ≡ false → is_written (c, a) ≡ false
is_written-quiet (finish_race id d rs) none q = cc
is_written-quiet (cancel_race id) none q = cc
is_written-quiet c none q = refl
is_written-quiet c (some e) q = refl

abbrev Anything : RoomActor → Type 0
Anything r = Unit {0}

module _ (env : Env) where
  quiet-IsSettled :
      (c : Call) (r : RoomActor) → is_ending c ≡ false → IsSettled r → IsSettled (perform env c r)
  quiet-IsSettled c r q v = record {
    once = rw (is_written-quiet c (env.answer r c) q) v.once;
    stopped = v.stopped;
  }

  expires-IsSettled :
      (r : RoomActor) → r.finished ≡ false → IsSettled r → IsSettled (expire_pending_room env r)
  expires-IsSettled r f v =
      expire_pending_room_rule env IsSettled r (λ e. record { once = v.once; stopped = v.stopped })
        (λ ms. record { once = ground (arith, v.once); stopped = λ _. refl })

  checks-IsSettled : (r : RoomActor) → IsSettled r → IsSettled (check_race_finished env r)
  checks-IsSettled r v =
      check_race_finished_rule env IsSettled r v
        (λ f _ _.
          finish_race_with_rule env IsSettled (race_results env r) r
            (λ ms e _ _. record { once = v.once; stopped = v.stopped })
            (λ ms a. record { once = ground (arith, v.once); stopped = λ _. refl }))
        (λ f _ _. expires-IsSettled r f v)

  apply_event-IsSettled :
      (ev : RoomEvent) (r : RoomActor) → IsSettled r → IsSettled (apply_event env ev r)
  apply_event-IsSettled ev r v =
      apply_event-keeps env IsSettled Anything
        (λ r' live gone out seen ticks count ms w. record { once = w.once; stopped = w.stopped })
        quiet-IsSettled (λ r' w. record { once = w.once; stopped = w.stopped })
        (λ r' _ f w. expires-IsSettled r' f w) (λ r' _ w. checks-IsSettled r' w) ev r v tt

  run-IsSettled : (ts : List Turn) (r : RoomActor) → IsSettled r → IsSettled (run env ts r)
  unfolding on_tick
  run-IsSettled =
      run-keeps env IsSettled apply_event-IsSettled
        (λ r v. quiet-IsSettled (observe_tick _) _ refl (
          broadcast_snapshot_rule env IsSettled r
            (λ ms. record { once = v.once; stopped = v.stopped })))
        (λ r evs ms v. record { once = v.once; stopped = v.stopped })
        (λ r v. record { once = v.once; stopped = λ _. refl })

  -- From the room's creation on, under every schedule of events, ticks and cancellations, and
  -- whatever errors the calls return: the room counts as finished exactly if one write of an
  -- outcome to Postgres, of results or of a cancellation, has succeeded, no second one ever has,
  -- and a finished room's context is cancelled.
  pub run-settles_once :
      (id : String) (distance : ℤ) (start : Instant) (ts : List Turn)
      → IsSettled (run env ts (new_room_actor env id distance start))
  unfolding new_room_actor
  run-settles_once id distance start ts = run-IsSettled ts _ (
      quiet-IsSettled (after_func_event _ _) _ refl
        (quiet-IsSettled (after_func_event _ _) _ refl (record { once = refl; stopped = λ e. cc })))
