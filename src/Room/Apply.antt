-- ===== src/Room/Apply.antt =====
-- backend/internal/room/room.go: `applyEvent`, one function for each case of its switch, and the
-- loop `Run` with the channels at its two ends.
use aviron.Base.{ℕ, ◌+◌, String, Bool, true, false, none, some, length, if◌then◌else◌, is_some}
use aviron.Base.Int.{ℤ, pos, leb_ℤ}
use aviron.Base.Dict
use aviron.Room.State.{
  Float64, TimerId, ParticipantState, RoomEvent, participant_joined, telemetry_received,
  participant_disconnected, participant_evicted, participant_left, eviction_query, no_show_timeout,
  activated, pending_expired, publish_workout_sample, leave_race, after_func, stop_timer,
  answer_query, RoomActor,
}
use aviron.Room.Env.{Env}
use aviron.Room.Actor.{
  grace_period_duration, perform, broadcast_snapshot, broadcast_race_started, expire_pending_room,
  check_race_finished, depart_participant,
}

abbrev pub with_participant : RoomActor → String → ParticipantState → RoomActor
with_participant r user_id p = record r { participants = Dict.store r.participants user_id p }

-- The state that a participant who was never seen begins with.
abbrev pub new_participant : Env → RoomActor → String → String → ParticipantState
new_participant env r user_id display_name = record {
  user_id = user_id;
  display_name = display_name;
  words_correct = pos 0;
  last_seq = pos 0;
  pace_watt = 0;
  connected_at = env.now r;
  disconnected_at = none;
  disconnected_count = 0;
  grace_timer = none;
  finished_at = none;
  finish_rank = none;
}

-- `if p.graceTimer != nil { p.graceTimer.Stop() }`
abbrev pub stop_grace_timer : Env → ParticipantState → RoomActor → RoomActor
stop_grace_timer env p r = elim p.grace_timer [ none ↦ r | some t ↦ perform env (stop_timer t) r ]

abbrev pub reattached : ParticipantState → ParticipantState
reattached p = record p { disconnected_at = none; grace_timer = none }

-- A participant who is known already: only one who was disconnected changes.
unfoldable pub rejoin : Env → String → ParticipantState → RoomActor → RoomActor
rejoin env user_id p r =
    if is_some p.disconnected_at
    then with_participant (stop_grace_timer env p r) user_id (reattached p)
    else r

unfoldable pub join : Env → String → String → RoomActor → RoomActor
join env user_id display_name r = elim (Dict.get r.participants user_id) [
  | some p ↦ rejoin env user_id p r
  | none ↦ record r {
    participants = Dict.store r.participants user_id (new_participant env r user_id display_name);
    total_participants = r.total_participants + 1;
  }
]

unfoldable pub on_joined : Env → String → String → RoomActor → RoomActor
on_joined env user_id display_name r = broadcast_snapshot env (join env user_id display_name r)

-- The progress of an accepted message is stored and published.
abbrev pub with_progress : ParticipantState → ℤ → ℤ → Float64 → ParticipantState
with_progress p seq words pace = record p {
  words_correct = words;
  last_seq = seq;
  pace_watt = pace;
}

unfoldable pub publish_progress : Env → String → ParticipantState → RoomActor → RoomActor
publish_progress env user_id p r =
    let stored = with_participant r user_id p in
    perform env (publish_workout_sample r.id user_id (env.now stored) p.words_correct p.pace_watt)
      stored

abbrev pub finisher : Env → RoomActor → ParticipantState → ParticipantState
finisher env r p = record p {
  finished_at = some (env.now r);
  finish_rank = some (r.finished_count + 1);
}

-- The participant reaches the target: the next rank is theirs.
unfoldable pub cross_line : Env → String → ParticipantState → RoomActor → RoomActor
cross_line env user_id p r = record r {
  participants = Dict.store r.participants user_id (finisher env r p);
  finished_count = r.finished_count + 1;
}

-- `p.FinishRank == nil && p.WordsCorrect >= r.distanceMeters`
abbrev pub reaches_target : RoomActor → ParticipantState → Bool
reaches_target r p =
    if is_some p.finish_rank then false else leb_ℤ r.distance_meters p.words_correct

unfoldable pub accept_progress : Env → String → ParticipantState → RoomActor → RoomActor
accept_progress env user_id p r =
    let published = publish_progress env user_id p r in
    if reaches_target r p
    then check_race_finished env (cross_line env user_id p published)
    else published

unfoldable pub on_telemetry : Env → String → ℤ → ℤ → Float64 → RoomActor → RoomActor
on_telemetry env user_id seq words pace r =
    if r.active
    then elim (Dict.get r.participants user_id) [
      | none ↦ r
      | some p ↦
          if leb_ℤ seq p.last_seq
          then r
          else accept_progress env user_id (with_progress p seq words pace) r
    ]
    else r

abbrev pub detached : Env → RoomActor → TimerId → ParticipantState → ParticipantState
detached env r timer p = record p {
  disconnected_at = some (env.now r);
  disconnected_count = p.disconnected_count + 1;
  grace_timer = some timer;
}

-- The grace period starts over: an earlier timer is stopped, and a new one set.
unfoldable pub start_grace_period : Env → String → ParticipantState → RoomActor → RoomActor
start_grace_period env user_id p r =
    let stopped = stop_grace_timer env p r in
    with_participant (perform env (after_func grace_period_duration user_id) stopped) user_id
      (detached env r (length stopped.calls) p)

unfoldable pub on_disconnected : Env → String → RoomActor → RoomActor
on_disconnected env user_id r = elim (Dict.get r.participants user_id) [
  | none ↦ r
  | some p ↦ start_grace_period env user_id p r
]

unfoldable pub on_evicted : Env → String → RoomActor → RoomActor
on_evicted env user_id r = elim (Dict.get r.participants user_id) [
  | none ↦ r
  | some p ↦ if is_some p.disconnected_at then depart_participant env user_id p r else r
]

-- Leaving before the start: removed outright, then reported to Postgres.
unfoldable pub leave_pending : Env → String → RoomActor → RoomActor
leave_pending env user_id r = check_race_finished env (
    perform env (leave_race r.id user_id)
      (record r { participants = Dict.delete r.participants user_id }))

unfoldable pub on_left : Env → String → RoomActor → RoomActor
on_left env user_id r = elim (Dict.get r.participants user_id) [
  | none ↦ r
  | some p ↦ if r.active then depart_participant env user_id p r else leave_pending env user_id r
]

-- The reply channel has room for the one answer that it is made for.
unfoldable pub on_eviction_query : Env → String → ℕ → RoomActor → RoomActor
on_eviction_query env user_id reply r =
    perform env (answer_query reply (Dict.has r.evicted user_id)) r

unfoldable pub on_activated : Env → String → RoomActor → RoomActor
on_activated env prompt_text r = broadcast_race_started env prompt_text (record r { active = true })

unfoldable pub on_pending_expired : Env → RoomActor → RoomActor
on_pending_expired env r =
    if r.active then r else if r.finished then r else expire_pending_room env r

unfoldable pub apply_event : Env → RoomEvent → RoomActor → RoomActor
apply_event env (participant_joined u name) r = on_joined env u name r
apply_event env (telemetry_received u seq words pace) r = on_telemetry env u seq words pace r
apply_event env (participant_disconnected u) r = on_disconnected env u r
apply_event env (participant_evicted u) r = on_evicted env u r
apply_event env (participant_left u) r = on_left env u r
apply_event env (eviction_query u reply) r = on_eviction_query env u reply r
apply_event env no_show_timeout r = check_race_finished env r
apply_event env (activated prompt_text) r = on_activated env prompt_text r
apply_event env pending_expired r = on_pending_expired env r
