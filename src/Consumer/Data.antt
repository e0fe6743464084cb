-- ===== src/Consumer/Data.antt =====
-- backend/internal/consumer: messages, samples, and what the loops ask of others (consumer.go,
-- decode.go). A message is named by its offset in the one partition that the model follows.
use aviron.Base.{ℕ, Bool, true, false, leb, String, List, [], ◌∷◌, ◌++◌, Option, if◌then◌else◌}
use aviron.Room.State.{Instant, Float64, Payload, RaceResultJson}

pub record WorkoutSample : Type 0 where
  pub race_id : String
  pub user_id : String
  pub ts : Instant
  pub distance_m : Float64
  pub pace_watt : Float64

-- The part of a kafka.Message that the loops use.
pub record KafkaMessage : Type 0 where
  pub offset : ℕ
  pub value : Payload

pub record RaceFinished : Type 0 where
  pub race_id : String
  pub results : List RaceResultJson

-- json.Unmarshal into the two structs of decode.go, `none` for an error.
pub record Decoders : Type 0 where
  pub decode_workout_sample : Payload → Option WorkoutSample
  pub decode_race_finished : Payload → Option RaceFinished

-- How a write to Postgres ends: nil, an error that wraps ErrPermanentWrite, another error.
pub data WriteAnswer : Type 0 where
  written : WriteAnswer
  permanent : WriteAnswer
  transient : WriteAnswer

-- What a loop asks of others, with its end.
pub data Effect : Type 0 where
  -- FetchMessage returns a message
  received : KafkaMessage → Effect
  insert_batch : List WorkoutSample → WriteAnswer → Effect
  reconcile : RaceFinished → WriteAnswer → Effect
  -- PublishRaw to a topic of dead letters, and whether it succeeded
  dead_letter : KafkaMessage → Bool → Effect
  -- CommitMessages, and whether it succeeded
  commit_messages : List KafkaMessage → Bool → Effect

-- Whether PublishRaw takes a dead letter, and CommitMessages a list, in some round.
pub record Broker : Type 0 where
  pub publishes : KafkaMessage → Bool
  pub commits : List KafkaMessage → Bool

-- deadLetter, and a call of CommitMessages: their errors are only logged, the loops go on.
abbrev pub dead_letter_with : Broker → KafkaMessage → Effect
dead_letter_with b m = dead_letter m (b.publishes m)

abbrev pub commit_with : Broker → List KafkaMessage → Effect
commit_with b ms = commit_messages ms (b.commits ms)

-- The messages of a log of effects that were received, that were passed to CommitMessages, whatever
-- it returned, and those for which it succeeded; a log has its newest effect first.
unfoldable pub received_in : List Effect → List KafkaMessage
received_in [] = []
received_in (received m ∷ es) = m ∷ received_in es
received_in (_ ∷ es) = received_in es

unfoldable pub passed_in : List Effect → List KafkaMessage
passed_in [] = []
passed_in (commit_messages ms succeeded ∷ es) = ms ++ passed_in es
passed_in (_ ∷ es) = passed_in es

unfoldable pub committed_in : List Effect → List KafkaMessage
committed_in [] = []
committed_in (commit_messages ms succeeded ∷ es) =
    let rest = committed_in es in if succeeded then ms ++ rest else rest
committed_in (_ ∷ es) = committed_in es

-- The messages that are among the dead letters, and those that PublishRaw failed to put there.
unfoldable pub dead_in : List Effect → List KafkaMessage
dead_in [] = []
dead_in (dead_letter m published ∷ es) =
    let rest = dead_in es in if published then m ∷ rest else rest
dead_in (_ ∷ es) = dead_in es

unfoldable pub undelivered_in : List Effect → List KafkaMessage
undelivered_in [] = []
undelivered_in (dead_letter m published ∷ es) =
    let rest = undelivered_in es in if published then rest else m ∷ rest
undelivered_in (_ ∷ es) = undelivered_in es

-- The samples that Postgres has.
unfoldable pub stored_in : List Effect → List WorkoutSample
stored_in [] = []
stored_in (insert_batch ss written ∷ es) = ss ++ stored_in es
stored_in (_ ∷ es) = stored_in es

-- Whether a commit of some messages covers an offset: to Kafka the commit of a message is one of
-- every message with a lower offset, which is not delivered again.
abbrev pub covers : ℕ → List KafkaMessage → Bool
covers o [] = false
covers o (m ∷ ms) = if leb o m.offset then true else covers o ms
