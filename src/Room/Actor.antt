-- ===== src/Room/Actor.antt =====
-- backend/internal/room/room.go: the operations of the room actor, up to the one that ends a race.
-- A method that changes the actor returns the new state. Logging is left out.
use aviron.Base.{
  ℕ, ◌+◌, ◌*◌, String, Bool, true, false, not, List, [], ◌∷◌, ◌++◌, map, none, some, length, ltb,
  if◌then◌else◌, is_some,
}
use aviron.Base.Int.{ℤ, ltb_ℤ, sub_ℕ, div_ℤ}
use aviron.Base.Dict
use aviron.Room.State.{
  Instant, Payload, ParticipantState, no_show_timeout, pending_expired, ParticipantResult,
  RaceResultJson, ParticipantStateJson, Message, race_state, race_started, race_expired,
  race_finished, Call, publish_race_finished, finish_race, cancel_race, mark_evicted,
  after_func_event, RoomActor,
}
use aviron.Room.Env.{Env}

abbrev pub second : ℕ
second = 1000000000

abbrev pub grace_period_duration : ℕ
grace_period_duration = 30 * second

abbrev pub no_show_timeout_duration : ℕ
no_show_timeout_duration = 30 * second

abbrev pub pending_timeout_duration : ℕ
pending_timeout_duration = 300 * second

abbrev pub inbox_size : ℕ
inbox_size = 64

abbrev pub broadcast_buffer_size : ℕ
broadcast_buffer_size = 16

-- A call through an interface: the world answers, and the call is on record.
abbrev pub perform : Env → Call → RoomActor → RoomActor
perform env c r = record r { calls = (c, env.answer r c) ∷ r.calls }

-- The empty maps, channels and counters of the constructor, before its two timers.
abbrev pub blank_room_actor : String → ℤ → Instant → RoomActor
blank_room_actor id distance_meters started_at = record {
  id = id;
  participants = Dict.empty;
  evicted = Dict.empty;
  departed_participants = Dict.empty;
  total_participants = 0;
  distance_meters = distance_meters;
  active = false;
  tick_count = 0;
  inbox = [];
  broadcast = [];
  cancelled = false;
  started_at = started_at;
  finished = false;
  finished_count = 0;
  calls = [];
}

-- NewRoomActor
unfoldable pub new_room_actor : Env → String → ℤ → Instant → RoomActor
new_room_actor env id distance_meters started_at =
    let r = blank_room_actor id distance_meters started_at in
    perform env (after_func_event pending_timeout_duration pending_expired)
      (perform env (after_func_event no_show_timeout_duration no_show_timeout) r)

-- `select { case r.broadcast <- body: default: }`
unfoldable pub offer : Payload → RoomActor → RoomActor
offer body r =
    if ltb (length r.broadcast) broadcast_buffer_size
    then record r { broadcast = r.broadcast ++ body ∷ [] }
    else r

-- Marshal a message and offer it; on an error of the encoding nothing is sent.
unfoldable pub send_message : Env → Message → RoomActor → RoomActor
send_message env m r = elim (env.marshal m) [ none ↦ r | some body ↦ offer body r ]

unfoldable pub broadcast_race_started : Env → String → RoomActor → RoomActor
broadcast_race_started env prompt_text r = send_message env (race_started prompt_text) r

unfoldable pub broadcast_race_expired : Env → RoomActor → RoomActor
broadcast_race_expired env r = send_message env race_expired r

unfoldable pub expire_pending_room : Env → RoomActor → RoomActor
expire_pending_room env r =
    let cancelled = perform env (cancel_race r.id) r in
    elim (env.answer r (cancel_race r.id)) [
      | some e ↦ cancelled
      | none ↦ record (broadcast_race_expired env cancelled) { finished = true; cancelled = true }
    ]

-- `sort.SliceStable` by words, the most first: an element goes behind those that it does not beat.
unfoldable pub insert_ranked : ParticipantState → List ParticipantState → List ParticipantState
insert_ranked p [] = p ∷ []
insert_ranked p (q ∷ qs) =
    let rest = insert_ranked p qs in
    if ltb_ℤ p.words_correct q.words_correct then q ∷ rest else p ∷ q ∷ qs

unfoldable pub sort_ranked : List ParticipantState → List ParticipantState
sort_ranked [] = []
sort_ranked (p ∷ ps) = insert_ranked p (sort_ranked ps)

-- The entries of a snapshot, for the places from `i` on.
unfoldable pub snapshot_entries : Env → ℕ → List ParticipantState → List ParticipantStateJson
snapshot_entries env i [] = []
snapshot_entries env i (p ∷ ps) =
    record { user_id = p.user_id; distance_m = env.float64 p.words_correct; rank = i + 1 }
    ∷ snapshot_entries env (i + 1) ps

-- The participants in the order of a snapshot.
unfoldable pub standings : Env → RoomActor → List ParticipantState
standings env r = sort_ranked (env.order r (Dict.values r.participants))

-- The message of the next tick.
unfoldable pub snapshot : Env → RoomActor → Message
snapshot env r = race_state (r.tick_count + 1) (snapshot_entries env 0 (standings env r))

unfoldable pub broadcast_snapshot : Env → RoomActor → RoomActor
broadcast_snapshot env r =
    send_message env (snapshot env r) (record r { tick_count = r.tick_count + 1 })

-- p.FinishedAt.Sub(r.startedAt).Milliseconds()
abbrev pub milliseconds_between : Instant → Instant → ℤ
milliseconds_between start end' = div_ℤ (sub_ℕ end' start) 1000000

unfoldable pub build_participant_result : RoomActor → ParticipantState → ParticipantResult
build_participant_result r p = record {
  user_id = p.user_id;
  finish_rank = elim p.finish_rank [ none ↦ some r.total_participants | some n ↦ some n ];
  finish_time_ms = elim p.finished_at [
    | none ↦ none
    | some t ↦ some (milliseconds_between r.started_at t)
  ];
  avg_pace_watt = p.pace_watt;
  disconnected_count = p.disconnected_count;
}

abbrev pub to_json : ParticipantResult → RaceResultJson
to_json res = record {
  user_id = res.user_id;
  finish_rank = res.finish_rank;
  finish_time_ms = res.finish_time_ms;
  avg_pace_watt = res.avg_pace_watt;
}

-- The results of the race: those still here, then those who left.
unfoldable pub race_results : Env → RoomActor → List ParticipantResult
race_results env r =
    map (build_participant_result r) (env.order r (Dict.values r.participants))
    ++ map (build_participant_result r) (env.order r (Dict.values r.departed_participants))

-- finishRace, behind its write to Postgres
unfoldable pub announce_finish : Env → List ParticipantResult → RoomActor → RoomActor
announce_finish env results r =
    let marked = record r { finished = true } in
    let published = perform env (publish_race_finished r.id results) marked in
    record (send_message env (race_finished (map to_json results)) published) { cancelled = true }

unfoldable pub finish_race_with : Env → List ParticipantResult → RoomActor → RoomActor
finish_race_with env results r =
    let shown = broadcast_snapshot env r in
    let call = finish_race shown.id shown.distance_meters results in
    let saved = perform env call shown in
    elim (env.answer shown call) [ some e ↦ saved | none ↦ announce_finish env results saved ]

-- Whether someone is still here who has not finished.
abbrev pub is_racing : ParticipantState → Bool
is_racing p = not (is_some p.finish_rank)

unfoldable pub any_racing : List ParticipantState → Bool
any_racing [] = false
any_racing (p ∷ ps) = if is_racing p then true else any_racing ps

unfoldable pub check_race_finished : Env → RoomActor → RoomActor
check_race_finished env r =
    if r.finished
    then r
    else if any_racing (Dict.values r.participants)
    then r
    else if r.active
    then finish_race_with env (race_results env r) r
    else expire_pending_room env r

unfoldable pub depart_participant : Env → String → ParticipantState → RoomActor → RoomActor
depart_participant env user_id p r = check_race_finished env (
    perform env (mark_evicted r.id user_id) (record r {
      participants = Dict.delete r.participants user_id;
      departed_participants = Dict.store r.departed_participants user_id p;
      evicted = Dict.store r.evicted user_id tt;
    }))
