-- ===== src/Room/Events.antt =====
-- A rule for properties of a room that look at its calls and flags, and not at its maps, counters
-- and channels: backend/internal/room/room.go changes these only where a race ends.
use aviron.Base.{ℕ, String, ◌≡◌, refl, Bool, true, false, List, is_some, if_rule, match_rule, ◌+◌}
use aviron.Base.Int.{ℤ, leb_ℤ}
use aviron.Base.Dict
use aviron.Base.Dict.{Dict}
use aviron.Room.State.{
  Float64, Payload, ParticipantState, RoomEvent, participant_joined, telemetry_received,
  participant_disconnected, participant_evicted, participant_left, eviction_query, no_show_timeout,
  activated, pending_expired, race_started, Call, publish_race_finished, finish_race, cancel_race,
  mark_evicted, leave_race, stop_timer, answer_query, publish_workout_sample, after_func, RoomActor,
}
use aviron.Room.Env.{Env}
use aviron.Room.Actor.{
  grace_period_duration, perform, broadcast_race_started, expire_pending_room, broadcast_snapshot,
  check_race_finished, depart_participant,
}
use aviron.Room.Endings.{send_message_rule, broadcast_snapshot_rule}
use aviron.Room.Apply.{
  stop_grace_timer, join, rejoin, on_joined, on_telemetry, on_disconnected, on_evicted, on_left,
  on_activated, on_pending_expired, on_eviction_query, start_grace_period, leave_pending,
  accept_progress, publish_progress, cross_line, apply_event, reaches_target, with_progress,
}

-- The calls that belong to the end of a race.
abbrev pub is_ending : Call → Bool
is_ending (finish_race id distance results) = true
is_ending (cancel_race id) = true
is_ending (publish_race_finished id results) = true
is_ending _ = false

module _ (env : Env) (P Q : RoomActor → Type 0)
    (silent : (r : RoomActor) (live gone : Dict ParticipantState) (out : Dict (Unit {0}))
        (seen ticks count : ℕ) (ms : List Payload)
      → P r
      → P (record r {
        participants = live;
        departed_participants = gone;
        evicted = out;
        total_participants = seen;
        tick_count = ticks;
        finished_count = count;
        broadcast = ms;
      }))
    (quiet : (c : Call) (r : RoomActor) → is_ending c ≡ false → P r → P (perform env c r))
    (starts : (r : RoomActor) → P r → P (record r { active = true }))
    (expires : (r : RoomActor)
      → r.active ≡ false
      → r.finished ≡ false
      → P r
      → P (expire_pending_room env r))
    (checks : (r : RoomActor)
      → Q (check_race_finished env r)
      → P r
      → P (check_race_finished env r)) where
  with_channel :
      (r : RoomActor) (ticks : ℕ) (ms : List Payload)
      → P r
      → P (record r { tick_count = ticks; broadcast = ms })
  with_channel r ticks ms v =
      silent r r.participants r.departed_participants r.evicted r.total_participants ticks
        r.finished_count ms v

  with_live :
      (r : RoomActor) (live : Dict ParticipantState) → P r → P (record r { participants = live })
  with_live r live v =
      silent r live r.departed_participants r.evicted r.total_participants r.tick_count
        r.finished_count r.broadcast v

  pub broadcast_snapshot-keeps : (r : RoomActor) → P r → P (broadcast_snapshot env r)
  broadcast_snapshot-keeps r v =
      broadcast_snapshot_rule env P r (λ ms. with_channel r (r.tick_count + 1) ms v)

  stop_grace_timer-keeps :
      (p : ParticipantState) (r : RoomActor) → P r → P (stop_grace_timer env p r)
  stop_grace_timer-keeps p r v =
      match_rule P p.grace_timer (λ _. v) (λ t _. quiet (stop_timer t) r refl v)

  rejoin-keeps : (u : String) (p : ParticipantState) (r : RoomActor) → P r → P (rejoin env u p r)
  unfolding rejoin
  rejoin-keeps u p r v =
      if_rule P (is_some p.disconnected_at) (λ _. with_live _ _ (stop_grace_timer-keeps p r v))
        (λ _. v)

  on_joined-keeps : (u name : String) (r : RoomActor) → P r → P (on_joined env u name r)
  unfolding on_joined join
  on_joined-keeps u name r v = broadcast_snapshot-keeps _ (
      match_rule P (Dict.get r.participants u)
        (λ _.
          silent r _ r.departed_participants r.evicted (r.total_participants + 1) r.tick_count
            r.finished_count r.broadcast v)
        (λ p _. rejoin-keeps u p r v))

  -- `P` after a step, from `Q` after it.
  abbrev Kept : RoomActor → Type 0
  Kept r = Q r → P r

  accept_progress-keeps :
      (u : String) (p : ParticipantState) (r : RoomActor) → P r → Kept (accept_progress env u p r)
  unfolding accept_progress publish_progress cross_line
  accept_progress-keeps u p r v =
      if_rule Kept (reaches_target r p)
        (λ _ q. checks _ q (
          silent published _ r.departed_participants r.evicted r.total_participants r.tick_count
            (r.finished_count + 1) r.broadcast kept))
        (λ _ _. kept)
    where
      published : RoomActor
      published = publish_progress env u p r

      kept : P published
      kept =
          quiet (publish_workout_sample r.id u _ p.words_correct p.pace_watt) _ refl
            (with_live r (Dict.store r.participants u p) v)

  on_telemetry-keeps :
      (u : String) (seq words : ℤ) (pace : Float64) (r : RoomActor)
      → P r
      → Kept (on_telemetry env u seq words pace r)
  unfolding on_telemetry
  on_telemetry-keeps u seq words pace r v =
      if_rule Kept r.active
        (λ _.
          match_rule Kept (Dict.get r.participants u) (λ _ _. v)
            (λ p _.
              if_rule Kept (leb_ℤ seq p.last_seq) (λ _ _. v)
                (λ _. accept_progress-keeps u (with_progress p seq words pace) r v)))
        (λ _ _. v)

  depart_participant-keeps :
      (u : String) (p : ParticipantState) (r : RoomActor)
      → P r
      → Kept (depart_participant env u p r)
  unfolding depart_participant
  depart_participant-keeps u p r v q = checks _ q (
      quiet (mark_evicted r.id u) _ refl
        (silent r _ _ _ r.total_participants r.tick_count r.finished_count r.broadcast v))

  on_evicted-keeps : (u : String) (r : RoomActor) → P r → Kept (on_evicted env u r)
  unfolding on_evicted
  on_evicted-keeps u r v =
      match_rule Kept (Dict.get r.participants u) (λ _ _. v)
        (λ p _.
          if_rule Kept (is_some p.disconnected_at) (λ _. depart_participant-keeps u p r v)
            (λ _ _. v))

  on_left-keeps : (u : String) (r : RoomActor) → P r → Kept (on_left env u r)
  unfolding on_left leave_pending
  on_left-keeps u r v =
      match_rule Kept (Dict.get r.participants u) (λ _ _. v)
        (λ p _.
          if_rule Kept r.active (λ _. depart_participant-keeps u p r v)
            (λ _ q. checks _ q (quiet (leave_race r.id u) _ refl (with_live r _ v))))

  on_pending_expired-keeps : (r : RoomActor) → P r → P (on_pending_expired env r)
  unfolding on_pending_expired
  on_pending_expired-keeps r v =
      if_rule P r.active (λ _. v) (λ a. if_rule P r.finished (λ _. v) (λ f. expires r a f v))

  on_disconnected-keeps : (u : String) (r : RoomActor) → P r → P (on_disconnected env u r)
  unfolding on_disconnected start_grace_period
  on_disconnected-keeps u r v =
      match_rule P (Dict.get r.participants u) (λ _. v)
        (λ p _.
          with_live _ _
            (quiet (after_func grace_period_duration u) _ refl (stop_grace_timer-keeps p r v)))

  pub apply_event-keeps :
      (ev : RoomEvent) (r : RoomActor) → P r → Q (apply_event env ev r) → P (apply_event env ev r)
  unfolding apply_event
  apply_event-keeps (participant_joined u name) r v q = on_joined-keeps u name r v
  apply_event-keeps (telemetry_received u seq words pace) r v q =
      on_telemetry-keeps u seq words pace r v q
  apply_event-keeps (participant_disconnected u) r v q = on_disconnected-keeps u r v
  apply_event-keeps (participant_evicted u) r v q = on_evicted-keeps u r v q
  apply_event-keeps (participant_left u) r v q = on_left-keeps u r v q
  apply_event-keeps (eviction_query u reply) r v q =
      unfold on_eviction_query in quiet (answer_query reply _) r refl v
  apply_event-keeps no_show_timeout r v q = checks r q v
  apply_event-keeps (activated prompt_text) r v q =
      unfold on_activated broadcast_race_started in
      send_message_rule env P (race_started prompt_text) _
        (λ ms. with_channel _ r.tick_count ms (starts r v))
  apply_event-keeps pending_expired r v q = on_pending_expired-keeps r v
