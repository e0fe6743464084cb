-- ===== src/Shutdown/Losing.antt =====
-- The end of the last room against the end of its process.
use text.Mathlib.TextEquality.{eq_iff}
use aviron.Base.{
  ◌<◌, ◌≡◌, refl, ap, ◌∙◌, true, false, List, [], ◌∷◌, ◌++◌, map, some, length, count_if, arith,
  if_rule, match_rule, ltb, suc, ◌==◌,
}
use aviron.Base.Dict
use aviron.Base.Dict.{Dict, count_if-delete, tally}
use aviron.Room.State.{Payload, RoomActor, race_finished, ParticipantResult}
use aviron.Room.Env.{Env}
use aviron.Room.Actor.{announce_finish, broadcast_buffer_size, to_json}
use aviron.Rooms.Registry.{
  ActorRef, Registry, get, count, cleanup_when_done, forget_actor, is_actor,
}
use aviron.Rooms.Drain.{Drain}
use aviron.Rooms.Drain.Delivery.{broadcast-announce_finish}
use aviron.Shutdown.{
  Process, ExitTurn, ticks, cleans, check_rooms, exit_turn, wait_loop, wait_for_rooms_to_drain,
}

-- Once its last room has been cleaned up, a registry is empty.
count-cleanup_when_done :
    (actor : ActorRef) (reg : Registry)
    → get actor.race_id reg ≡ some actor
    → count reg ≡ 1
    → count (cleanup_when_done actor reg) ≡ 0
unfolding cleanup_when_done forget_actor Dict.size
count-cleanup_when_done actor reg h one =
    match_rule (λ (rooms : Dict ActorRef). Dict.size rooms ≡ 0) (Dict.get reg.rooms actor.race_id)
      (λ n. ground (arith, n, h))
      (λ a e.
        if_rule (λ (rooms : Dict ActorRef). Dict.size rooms ≡ 0) (is_actor a actor)
          (λ _. omega (
            arith,
            count_if-delete (λ _. true) reg.rooms actor.race_id,
            ap (tally (λ _. true)) h,
            every (Dict.values reg.rooms),
            every (Dict.values (Dict.delete reg.rooms actor.race_id)),
            one,
          ))
          (λ f. ground (arith, e, h, f, eq_iff actor.race_id actor.race_id)))
  where
    every : (as' : List ActorRef) → count_if (λ _. true) as' ≡ length as'
    every [] = refl
    every (a ∷ as') = ap suc (every as')

-- A process that has exited does nothing.
wait_loop_exited : (ts : List ExitTurn) (p : Process) → p.exited ≡ true → wait_loop ts p ≡ p
unfolding wait_loop
wait_loop_exited [] p x = refl
wait_loop_exited (t ∷ ts) p x =
    if_rule (λ (q : Process). q ≡ p) p.exited (λ _. refl) (λ f. ground (arith, x, f))

check_rooms_some : (p : Process) → ltb 0 (count p.registry) ≡ true → check_rooms p ≡ p
unfolding check_rooms
check_rooms_some p h =
    if_rule (λ (q : Process). q ≡ p) (count p.registry == 0) (λ t. ground (arith, h, t)) (λ _. refl)

check_rooms_none : (p : Process) → count p.registry ≡ 0 → check_rooms p ≡ record p { exited = true }
unfolding check_rooms
check_rooms_none p h =
    if_rule (λ (q : Process). q ≡ record p { exited = true }) (count p.registry == 0) (λ _. refl)
      (λ f. ground (arith, h, f))

module _ (env : Env) where
  -- When a process that is to end has one room left, and that room's race ends: after the results are
  -- announced, the room's clean-up may come before its drainBroadcast has taken anything. The next tick
  -- then finds no room, so that the process exits, with the results still in the room's channel and
  -- nothing published.
  pub exit_loses_results :
      (later : List ExitTurn) (results : List ParticipantResult) (r : RoomActor) (body : Payload)
      (actor : ActorRef) (reg : Registry)
      → get actor.race_id reg ≡ some actor
      → count reg ≡ 1
      → env.marshal (race_finished (map to_json results)) ≡ some body
      → length r.broadcast < broadcast_buffer_size
      → let d : Drain = record {
        actor = announce_finish env results r;
        bus_calls = [];
        returned = false;
      } in
        let p : Process = record { registry = reg; drain = d; exited = false } in
        let end = wait_for_rooms_to_drain (cleans actor ∷ ticks ∷ later) p in
        (end.exited ≡ true)
        × (end.drain.bus_calls ≡ [])
        × (end.drain.actor.broadcast ≡ r.broadcast ++ body ∷ [])
  unfolding wait_for_rooms_to_drain wait_loop exit_turn
  exit_loses_results later results r body actor reg h one e l =
      let d : Drain = record {
        actor = announce_finish env results r;
        bus_calls = [];
        returned = false;
      } in
      let p : Process = record { registry = reg; drain = d; exited = false } in
      let cleaned : Process = record p { registry = cleanup_when_done actor reg } in
      let gone : Process = record cleaned { exited = true } in
      let start : wait_loop (cleans actor ∷ ticks ∷ later) (check_rooms p)
          ≡ wait_loop (cleans actor ∷ ticks ∷ later) p =
        ap (wait_loop (cleans actor ∷ ticks ∷ later)) (check_rooms_some p (ground (arith, one))) in
      let end =
        start
        ∙ ap (wait_loop later) (check_rooms_none cleaned (count-cleanup_when_done actor reg h one))
        ∙ wait_loop_exited later gone refl in
      (
        ap (λ (q : Process). q.exited) end,
        ap (λ (q : Process). q.drain.bus_calls) end,
        ap (λ (q : Process). q.drain.actor.broadcast) end
            ∙ broadcast-announce_finish env results r body e l,
      )
