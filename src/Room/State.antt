-- ===== src/Room/State.antt =====
-- backend/internal/room: the data of the room actor (room.go, lifecycle.go, events.go, registry.go).
-- Instants and durations are nanoseconds; the counters are unbounded, since each grows by one for
-- an event or a tick. A float64 is carried around and never computed with, so it stands for its
-- bits.
use aviron.Base.{ℕ, String, List, Option, Bool}
use aviron.Base.Int.{ℤ}
use aviron.Base.Dict.{Dict}

abbrev pub Instant : Type 0
Instant = ℕ

abbrev pub Float64 : Type 0
Float64 = ℕ

-- The bytes that `json.Marshal` made.
abbrev pub Payload : Type 0
Payload = List ℕ

-- What an error value says; the program only tests it for nil.
abbrev pub Error : Type 0
Error = String

-- A `*time.Timer`, named by the number of calls that the actor had made before it.
abbrev pub TimerId : Type 0
TimerId = ℕ

pub record ParticipantState : Type 0 where
  pub user_id : String
  pub display_name : String
  pub words_correct : ℤ
  pub last_seq : ℤ
  pub pace_watt : Float64
  pub connected_at : Instant
  pub disconnected_at : Option Instant
  pub disconnected_count : ℕ
  pub grace_timer : Option TimerId
  pub finished_at : Option Instant
  pub finish_rank : Option ℕ

pub data RoomEvent : Type 0 where
  participant_joined : String → String → RoomEvent
  telemetry_received : String → ℤ → ℤ → Float64 → RoomEvent
  participant_disconnected : String → RoomEvent
  participant_evicted : String → RoomEvent
  participant_left : String → RoomEvent
  -- the user, and the channel that waits for the answer
  eviction_query : String → ℕ → RoomEvent
  no_show_timeout : RoomEvent
  activated : String → RoomEvent
  pending_expired : RoomEvent

pub record ParticipantResult : Type 0 where
  pub user_id : String
  pub finish_rank : Option ℕ
  pub finish_time_ms : Option ℤ
  pub avg_pace_watt : Float64
  pub disconnected_count : ℕ

pub record RaceResultJson : Type 0 where
  pub user_id : String
  pub finish_rank : Option ℕ
  pub finish_time_ms : Option ℤ
  pub avg_pace_watt : Float64

pub record ParticipantStateJson : Type 0 where
  pub user_id : String
  pub distance_m : Float64
  pub rank : ℕ

-- The messages that a room broadcasts.
pub data Message : Type 0 where
  race_state : ℕ → List ParticipantStateJson → Message
  race_started : String → Message
  race_expired : Message
  race_finished : List RaceResultJson → Message

-- The calls that leave the actor: its seven interfaces, and the runtime's timers.
pub data Call : Type 0 where
  publish_workout_sample : String → String → Instant → ℤ → Float64 → Call
  publish_race_finished : String → List ParticipantResult → Call
  finish_race : String → ℤ → List ParticipantResult → Call
  leave_race : String → String → Call
  cancel_race : String → Call
  mark_evicted : String → String → Call
  observe_tick : ℕ → Call
  -- the grace-period timer of a participant
  after_func : ℕ → String → Call
  stop_timer : TimerId → Call
  -- the two timers of the constructor
  after_func_event : ℕ → RoomEvent → Call
  -- an answer to an eviction query, on its channel
  answer_query : ℕ → Bool → Call

pub record RoomActor : Type 0 where
  pub id : String
  pub participants : Dict ParticipantState
  pub evicted : Dict (Unit {0})
  pub departed_participants : Dict ParticipantState
  pub total_participants : ℕ
  pub distance_meters : ℤ
  pub active : Bool
  pub tick_count : ℕ
  pub inbox : List RoomEvent
  pub broadcast : List Payload
  -- whether `ctx` is done
  pub cancelled : Bool
  pub started_at : Instant
  pub finished : Bool
  pub finished_count : ℕ
  -- every call made so far and the error that it returned, the newest first
  pub calls : List (Call × Option Error)
