-- ===== src/Kafka.antt =====
-- backend/internal/kafka/producer.go: the events of a room on their way to the broker.
pub mod Delivered
use aviron.Base.{String, List, [], ◌∷◌, ◌++◌, map, Option, none, some}
use aviron.Base.Int.{ℤ}
use aviron.Room.State.{Instant, Float64, Payload, Error, ParticipantResult, RaceResultJson}
use aviron.Room.Actor.{to_json}

abbrev pub topic_workout_sample : String
topic_workout_sample = "workout.sample"

abbrev pub topic_race_finished : String
topic_race_finished = "race.finished"

pub record WorkoutSamplePayload : Type 0 where
  pub race_id : String
  pub user_id : String
  pub ts : Instant
  pub distance_m : Float64
  pub pace_watt : Float64

pub record RaceFinishedPayload : Type 0 where
  pub race_id : String
  pub results : List RaceResultJson

-- A kafka.Message as it is handed to the writer.
pub record Message : Type 0 where
  pub topic : String
  pub key : String
  pub value : Payload

-- json.Marshal of the two payloads, `none` for an error, and the conversion of an int to a float64.
pub record Encoders : Type 0 where
  pub marshal_workout_sample : WorkoutSamplePayload → Option Payload
  pub marshal_race_finished : RaceFinishedPayload → Option Payload
  pub float_of : ℤ → Float64

-- The error of WriteMessages, by what was handed on before and the message.
abbrev pub Writer : Type 0
Writer = List Message → Message → Option Error

-- WriteMessages, with the messages that the writer has taken.
unfoldable pub write_messages : Writer → Message → List Message → Option Error × List Message
write_messages writer m taken = elim (writer taken m) [
  | none ↦ (none, taken ++ m ∷ [])
  | some e ↦ (some e, taken)
]

-- PublishWorkoutSample
unfoldable pub publish_workout_sample :
    Encoders
    → Writer
    → String
    → String
    → Instant
    → ℤ
    → Float64
    → List Message
    → Option Error × List Message
publish_workout_sample enc writer race_id user_id ts words_correct pace_watt taken =
    let payload : WorkoutSamplePayload = record {
      race_id = race_id;
      user_id = user_id;
      ts = ts;
      distance_m = enc.float_of words_correct;
      pace_watt = pace_watt;
    } in
    elim (enc.marshal_workout_sample payload) [
      | none ↦ (some "kafka: marshal workout sample", taken)
      | some value ↦
          write_messages writer
            (record { topic = topic_workout_sample; key = race_id; value = value }) taken
    ]

-- PublishRaceFinished
unfoldable pub publish_race_finished :
    Encoders → Writer → String → List ParticipantResult → List Message → Option Error × List Message
publish_race_finished enc writer race_id results taken =
    let payload : RaceFinishedPayload = record {
      race_id = race_id;
      results = map to_json results;
    } in
    elim (enc.marshal_race_finished payload) [
      | none ↦ (some "kafka: marshal race finished", taken)
      | some value ↦
          write_messages writer
            (record { topic = topic_race_finished; key = race_id; value = value }) taken
    ]

-- PublishRaw
unfoldable pub publish_raw :
    Writer → String → String → Payload → List Message → Option Error × List Message
publish_raw writer topic key value taken =
    write_messages writer (record { topic = topic; key = key; value = value }) taken
