-- ===== src/Consumer/WorkoutLoop.antt =====
-- backend/internal/consumer/workout_sample_loop.go: `runWorkoutSampleLoop`.
use aviron.Base.{Bool, List, [], ◌∷◌, none, some, if◌then◌else◌}
use aviron.Room.State.{Instant}
use aviron.Consumer.Data.{
  WorkoutSample, KafkaMessage, Decoders, WriteAnswer, written, permanent, transient, Effect,
  received, insert_batch, Broker, dead_letter_with, commit_with,
}
use aviron.Consumer.Batch.{SampleBatch, new_batch, is_empty, add, should_flush, reset}

pub record WorkoutLoop : Type 0 where
  pub batch : SampleBatch
  -- all that the loop has asked of others, the newest first
  pub log : List Effect

unfoldable pub start_loop : WorkoutLoop
start_loop = record { batch = new_batch; log = [] }

-- How FetchMessage ends.
pub data Fetch : Type 0 where
  message : KafkaMessage → Fetch
  -- context.DeadlineExceeded
  timed_out : Fetch
  -- another error, with the loop's context done
  stopped : Fetch
  -- another error
  failed : Fetch

-- InsertBatch, at some moment.
abbrev pub Insert : Type 0
Insert = List WorkoutSample → WriteAnswer

-- What a round of the loop meets.
pub record Round : Type 0 where
  -- whether the context is done at its start
  pub is_done : Bool
  pub fetch : Fetch
  -- the clock when a sample is added and when the flush is considered
  pub added_at : Instant
  pub checked_at : Instant
  -- how a write to Postgres ends, should there be one
  pub answer : Insert
  -- how a dead letter and a commit end, should there be one
  pub broker : Broker

abbrev pub note : Effect → WorkoutLoop → WorkoutLoop
note e l = record l { log = e ∷ l.log }

-- `for _, msg := range batch.messages { c.deadLetter(...) }`
unfoldable pub dead_letter_all : Broker → List KafkaMessage → List Effect → List Effect
dead_letter_all b [] log = log
dead_letter_all b (m ∷ ms) log = dead_letter_all b ms (dead_letter_with b m ∷ log)

-- The rest of flushWorkoutSampleBatch, by the error of InsertBatch.
unfoldable pub flush_with : Broker → WriteAnswer → WorkoutLoop → WorkoutLoop
flush_with b written l = record {
  batch = reset l.batch;
  log = commit_with b l.batch.messages ∷ insert_batch l.batch.samples written ∷ l.log;
}
flush_with b permanent l = record {
  batch = reset l.batch;
  log =
      commit_with b l.batch.messages
      ∷ dead_letter_all b l.batch.messages (insert_batch l.batch.samples permanent ∷ l.log);
}
flush_with b transient l = note (insert_batch l.batch.samples transient) l

-- flushWorkoutSampleBatch
unfoldable pub flush_workout_sample_batch : Round → WorkoutLoop → WorkoutLoop
flush_workout_sample_batch r l =
    if is_empty l.batch then l else flush_with r.broker (r.answer l.batch.samples) l

-- The end of a round that gets there.
unfoldable pub consider_flush : Round → WorkoutLoop → WorkoutLoop
consider_flush r l = if should_flush r.checked_at l.batch then flush_workout_sample_batch r l else l

-- A message that does not decode is dead-lettered and committed, and the round is over.
unfoldable pub drop_malformed : Broker → KafkaMessage → WorkoutLoop → WorkoutLoop
drop_malformed b m l = note (commit_with b (m ∷ [])) (note (dead_letter_with b m) l)

unfoldable pub take_message : Decoders → Round → KafkaMessage → WorkoutLoop → WorkoutLoop
take_message dec r m l = elim (dec.decode_workout_sample m.value) [
  | none ↦ drop_malformed r.broker m l
  | some s ↦ consider_flush r (record l { batch = add s m r.added_at l.batch })
]

-- A round whose context is not done at its start.
unfoldable pub fetch_round : Decoders → Round → WorkoutLoop → WorkoutLoop
fetch_round dec r l = elim r.fetch [
  | message m ↦ take_message dec r m (note (received m) l)
  | timed_out ↦ consider_flush r l
  | stopped ↦ flush_workout_sample_batch r l
  | failed ↦ l
]

-- Whether the loop returns in this round.
abbrev pub returns : Round → Bool
returns r = if r.is_done then Bool.true else elim r.fetch [ stopped ↦ Bool.true | _ ↦ Bool.false ]

unfoldable pub round : Decoders → Round → WorkoutLoop → WorkoutLoop
round dec r l = if r.is_done then flush_workout_sample_batch r l else fetch_round dec r l

-- runWorkoutSampleLoop
unfoldable pub run_workout_sample_loop : Decoders → List Round → WorkoutLoop → WorkoutLoop
run_workout_sample_loop dec [] l = l
run_workout_sample_loop dec (r ∷ rs) l =
    let rest = run_workout_sample_loop dec rs (round dec r l) in
    if returns r then round dec r l else rest
