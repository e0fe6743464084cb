-- ===== src/Room/Refines.antt =====
-- Each event of backend/internal/room/room.go is a step of the board; what the actor sends, and
-- what it calls, leaves the board alone.
use text.Mathlib.TextEquality.{eq_iff}
use aviron.Base.{
  String, ◌≡◌, refl, sym, subst, true, some, arith, if_rule, match_rule, is_some, length,
}
use aviron.Base.Int.{ℤ, leb_ℤ}
use aviron.Base.Dict
use aviron.Room.State.{
  ParticipantState, RoomEvent, race_started, participant_joined, telemetry_received,
  participant_disconnected, participant_evicted, participant_left, eviction_query, no_show_timeout,
  activated, pending_expired, RoomActor, Float64,
}
use aviron.Room.Env.{Env}
use aviron.Room.Actor.{
  race_results, broadcast_snapshot, broadcast_race_started, expire_pending_room,
  check_race_finished, depart_participant,
}
use aviron.Room.Endings.{
  send_message_rule, broadcast_snapshot_rule, expire_pending_room_rule, finish_race_with_rule,
  check_race_finished_rule,
}
use aviron.Room.Apply.{
  new_participant, reattached, detached, finisher, stop_grace_timer, join, rejoin, on_joined,
  on_telemetry, on_disconnected, on_evicted, on_left, on_activated, on_pending_expired,
  on_eviction_query, start_grace_period, leave_pending, accept_progress, publish_progress,
  cross_line, apply_event, reaches_target, with_progress,
}
use aviron.Room.Board.{
  Board, board, BoardStep, BoardSteps, stays, moves, enters, updates, finishes, departs, leaves,
}

module _ (env : Env) where
  -- The predicate that the board is still that of `r`.
  abbrev SameBoard : RoomActor → RoomActor → Type 0
  SameBoard r s = board s ≡ board r

  pub board-broadcast_snapshot : (r : RoomActor) → board (broadcast_snapshot env r) ≡ board r
  board-broadcast_snapshot r = broadcast_snapshot_rule env (SameBoard r) r (λ ms. refl)

  board-expire_pending_room : (r : RoomActor) → board (expire_pending_room env r) ≡ board r
  board-expire_pending_room r =
      expire_pending_room_rule env (SameBoard r) r (λ e. refl) (λ ms. refl)

  -- Whether and how a race ends, its standings stay.
  pub board-check_race_finished : (r : RoomActor) → board (check_race_finished env r) ≡ board r
  board-check_race_finished r =
      check_race_finished_rule env (SameBoard r) r refl
        (λ _ _ _.
          finish_race_with_rule env (SameBoard r) (race_results env r) r (λ ms e _ _. refl)
            (λ ms a. refl))
        (λ _ _ _. board-expire_pending_room r)

  pub board-depart_participant :
      (u : String) (p : ParticipantState) (r : RoomActor)
      → board (depart_participant env u p r) ≡ record {
        live = Dict.delete r.participants u;
        gone = Dict.store r.departed_participants u p;
        seen = r.total_participants;
        finishers = r.finished_count;
      }
  unfolding depart_participant
  board-depart_participant u p r = board-check_race_finished _

  -- A step of the board, up to an equation.
  step_to : {b c d : Board} → BoardSteps b c → d ≡ c → BoardSteps b d
  step_to {b} s e = subst (BoardSteps b) (sym e) s

  board-stop_grace_timer :
      (p : ParticipantState) (r : RoomActor) → board (stop_grace_timer env p r) ≡ board r
  board-stop_grace_timer p r = ground arith

  once : {b c : Board} → BoardStep b c → BoardSteps b c
  once st = moves stays st

  -- What leads from the board of one state to that of another.
  abbrev Steps : RoomActor → RoomActor → Type 0
  Steps r s = BoardSteps (board r) (board s)

  rejoin-BoardSteps :
      (u : String) (p : ParticipantState) (r : RoomActor)
      → Dict.get r.participants u ≡ some p
      → Steps r (rejoin env u p r)
  unfolding rejoin
  rejoin-BoardSteps u p r e =
      if_rule (Steps r) (is_some p.disconnected_at)
        (λ _. step_to (once (updates u p (reattached p) e refl refl)) (ground arith)) (λ _. stays)

  join-BoardSteps : (u name : String) (r : RoomActor) → Steps r (join env u name r)
  unfolding join
  join-BoardSteps u name r =
      match_rule (Steps r) (Dict.get r.participants u)
        (λ e. once (enters u (new_participant env r u name) e refl refl))
        (λ p e. rejoin-BoardSteps u p r e)

  accept_progress-BoardSteps :
      (u : String) (p : ParticipantState) (seq words : ℤ) (pace : Float64) (r : RoomActor)
      → Dict.get r.participants u ≡ some p
      → Steps r (accept_progress env u (with_progress p seq words pace) r)
  unfolding accept_progress publish_progress cross_line
  accept_progress-BoardSteps u p seq words pace r e =
      if_rule (Steps r) (reaches_target r q)
        (λ h.
          step_to (moves stored (crossed h))
            (board-check_race_finished (cross_line env u q published)))
        (λ _. stored)
    where
      q : ParticipantState
      q = with_progress p seq words pace

      published : RoomActor
      published = publish_progress env u q r

      stored : Steps r published
      stored = once (updates u p q e refl refl)

      crossed :
          reaches_target r q ≡ true
          → BoardStep (board published) (board (cross_line env u q published))
      crossed h =
          finishes u q (finisher env published q) (env.now published)
            (ground (arith, Dict.get-store r.participants u u q, eq_iff u u)) (ground arith) refl
            refl

  on_telemetry-BoardSteps :
      (u : String) (seq words : ℤ) (pace : Float64) (r : RoomActor)
      → Steps r (on_telemetry env u seq words pace r)
  unfolding on_telemetry
  on_telemetry-BoardSteps u seq words pace r =
      if_rule (Steps r) r.active
        (λ _.
          match_rule (Steps r) (Dict.get r.participants u) (λ _. stays)
            (λ p e.
              if_rule (Steps r) (leb_ℤ seq p.last_seq) (λ _. stays)
                (λ _. accept_progress-BoardSteps u p seq words pace r e)))
        (λ _. stays)

  on_disconnected-BoardSteps : (u : String) (r : RoomActor) → Steps r (on_disconnected env u r)
  unfolding on_disconnected start_grace_period
  on_disconnected-BoardSteps u r =
      match_rule (Steps r) (Dict.get r.participants u) (λ _. stays)
        (λ p e.
          step_to
            (once (
              updates u p (detached env r (length (stop_grace_timer env p r).calls) p) e refl refl))
            (ground arith))

  depart_participant-BoardSteps :
      (u : String) (p : ParticipantState) (r : RoomActor)
      → Dict.get r.participants u ≡ some p
      → Steps r (depart_participant env u p r)
  depart_participant-BoardSteps u p r e =
      step_to (once (departs u p e)) (board-depart_participant u p r)

  on_evicted-BoardSteps : (u : String) (r : RoomActor) → Steps r (on_evicted env u r)
  unfolding on_evicted
  on_evicted-BoardSteps u r =
      match_rule (Steps r) (Dict.get r.participants u) (λ _. stays)
        (λ p e.
          if_rule (Steps r) (is_some p.disconnected_at) (λ _. depart_participant-BoardSteps u p r e)
            (λ _. stays))

  leave_pending-BoardSteps : (u : String) (r : RoomActor) → Steps r (leave_pending env u r)
  unfolding leave_pending
  leave_pending-BoardSteps u r = step_to (once (leaves u)) (board-check_race_finished _)

  on_left-BoardSteps : (u : String) (r : RoomActor) → Steps r (on_left env u r)
  unfolding on_left
  on_left-BoardSteps u r =
      match_rule (Steps r) (Dict.get r.participants u) (λ _. stays)
        (λ p e.
          if_rule (Steps r) r.active (λ _. depart_participant-BoardSteps u p r e)
            (λ _. leave_pending-BoardSteps u r))

  board-on_pending_expired : (r : RoomActor) → board (on_pending_expired env r) ≡ board r
  unfolding on_pending_expired
  board-on_pending_expired r = ground (arith, board-expire_pending_room r)

  -- Every event makes steps of the board, and nothing else, with the standings.
  pub apply_event-BoardSteps :
      (ev : RoomEvent) (r : RoomActor) → BoardSteps (board r) (board (apply_event env ev r))
  unfolding apply_event
  apply_event-BoardSteps (participant_joined u name) r =
      unfold on_joined in step_to (join-BoardSteps u name r) (board-broadcast_snapshot _)
  apply_event-BoardSteps (telemetry_received u seq words pace) r =
      on_telemetry-BoardSteps u seq words pace r
  apply_event-BoardSteps (participant_disconnected u) r = on_disconnected-BoardSteps u r
  apply_event-BoardSteps (participant_evicted u) r = on_evicted-BoardSteps u r
  apply_event-BoardSteps (participant_left u) r = on_left-BoardSteps u r
  apply_event-BoardSteps (eviction_query u reply) r = unfold on_eviction_query in stays
  apply_event-BoardSteps no_show_timeout r = step_to stays (board-check_race_finished r)
  apply_event-BoardSteps (activated prompt_text) r =
      unfold on_activated broadcast_race_started in
      send_message_rule env (Steps r) (race_started prompt_text) _ (λ ms. stays)
  apply_event-BoardSteps pending_expired r = step_to stays (board-on_pending_expired r)
