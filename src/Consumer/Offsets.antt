-- ===== src/Consumer/Offsets.antt =====
-- What a commit says of the messages before it. To Kafka the commit of a message is one of every
-- message with a lower offset: after a restart these are not delivered again.
use aviron.Base.{
  ◌+◌, ◌-◌, ◌<◌, ◌≡◌, Bool, true, false, List, [], ◌∷◌, none, some, arith, match_rule, count_if,
}
use aviron.Consumer.Data.{
  WorkoutSample, KafkaMessage, RaceFinished, Decoders, WriteAnswer, written, permanent, transient,
  Effect, Broker, received, reconcile, passed_in, committed_in, dead_in, undelivered_in, stored_in,
  covers,
}
use aviron.Consumer.Batch.{new_batch, add, should_flush, flush_interval}
use aviron.Consumer.WorkoutLoop.{
  start_loop, message, Round, consider_flush, drop_malformed, take_message, fetch_round, round,
}
use aviron.Consumer.FinishLoop.{
  FinishRound, fetched, fetch_failed, fetch_stopped, settle, process_race_finished_message,
  run_race_finished_loop,
}

-- The results that Postgres has taken in.
unfoldable pub reconciled_in : List Effect → List RaceFinished
reconciled_in [] = []
reconciled_in (reconcile r written ∷ es) = r ∷ reconciled_in es
reconciled_in (_ ∷ es) = reconciled_in es

-- A malformed sample is committed at once. Where PublishRaw and CommitMessages succeed, and a good one
-- with a lower offset was read before it and is kept for a batch that is not yet due, this covers it:
-- it is neither stored nor dead-lettered, and is lost if the process ends before the batch is flushed.
pub malformed_covers_batch :
    (dec : Decoders) (good bad : KafkaMessage) (s : WorkoutSample) (r q : Round)
    → r.is_done ≡ false
    → r.fetch ≡ message good
    → dec.decode_workout_sample good.value ≡ some s
    → r.checked_at - r.added_at < flush_interval
    → q.is_done ≡ false
    → q.fetch ≡ message bad
    → dec.decode_workout_sample bad.value ≡ none
    → good.offset < bad.offset
    → q.broker.publishes bad ≡ true
    → q.broker.commits (bad ∷ []) ≡ true
    → let l = round dec q (round dec r start_loop) in
      (covers good.offset (committed_in l.log) ≡ true)
      × (stored_in l.log ≡ [])
      × (dead_in l.log ≡ bad ∷ [])
      × (l.batch.messages ≡ good ∷ [])
unfolding round fetch_round take_message drop_malformed consider_flush should_flush add start_loop
    new_batch committed_in stored_in dead_in
malformed_covers_batch dec good bad s r q n f d e n' f' d' o p c = ground arith

-- A test of results, as a test of messages: a malformed one fails it.
abbrev pub finishes : Decoders → (RaceFinished → Bool) → KafkaMessage → Bool
finishes dec g m = elim (dec.decode_race_finished m.value) [ none ↦ false | some x ↦ g x ]

module _ (dec : Decoders) (g : RaceFinished → Bool) where
  -- Every message that was passed to CommitMessages was taken in, is among the dead letters, or was
  -- lost to a PublishRaw that failed, under every test of results.
  abbrev Settles : List Effect → Type 0
  Settles log =
      count_if (finishes dec g) (passed_in log)
      ≡ count_if g (reconciled_in log)
        + (count_if (finishes dec g) (dead_in log) + count_if (finishes dec g) (undelivered_in log))

  process-Settles :
      (b : Broker) (m : KafkaMessage) (a : WriteAnswer) (log : List Effect)
      → Settles log
      → Settles (process_race_finished_message dec b m a (received m ∷ log))
  unfolding process_race_finished_message passed_in reconciled_in dead_in undelivered_in
  process-Settles b m a log v =
      match_rule Settles (dec.decode_race_finished m.value) (λ h. ground arith)
        (λ x h. answered x h a)
    where
      answered :
          (x : RaceFinished)
          → dec.decode_race_finished m.value ≡ some x
          → (a : WriteAnswer) → Settles (settle b m a (reconcile x a ∷ received m ∷ log))
      answered x h written = ground arith
      answered x h permanent = ground arith
      answered x h transient = ground arith

  -- Under every schedule of fetches and errors, the messages of race.finished that are passed to
  -- CommitMessages are those whose results Postgres took in, the dead letters, and those that
  -- PublishRaw failed to publish, as often under every test of results.
  pub run_race_finished_loop-Settles :
      (rs : List FinishRound) (log : List Effect)
      → Settles log
      → Settles (run_race_finished_loop dec rs log)
  unfolding run_race_finished_loop
  run_race_finished_loop-Settles [] log v = v
  run_race_finished_loop-Settles (fetched m a b ∷ rs) log v =
      run_race_finished_loop-Settles rs _ (process-Settles b m a log v)
  run_race_finished_loop-Settles (fetch_failed ∷ rs) log v = run_race_finished_loop-Settles rs log v
  run_race_finished_loop-Settles (fetch_stopped ∷ rs) log v = v

-- A message of race.finished whose reconciliation fails for the moment is left uncommitted, to be
-- delivered again; the commit of a later one, where it succeeds, covers it, though its results were
-- never taken in.
pub success_covers_transient :
    (dec : Decoders) (b c : Broker) (first second : KafkaMessage) (x y : RaceFinished)
    → dec.decode_race_finished first.value ≡ some x
    → dec.decode_race_finished second.value ≡ some y
    → first.offset < second.offset
    → c.commits (second ∷ []) ≡ true
    → let log =
        run_race_finished_loop dec (fetched first transient b ∷ fetched second written c ∷ []) [] in
      (covers first.offset (committed_in log) ≡ true)
      × (reconciled_in log ≡ y ∷ [])
      × (dead_in log ≡ [])
unfolding run_race_finished_loop process_race_finished_message committed_in reconciled_in dead_in
success_covers_transient dec b c first second x y d d' o k = ground arith
