-- ===== src/Consumer/Induction.antt =====
-- What every round of the loop keeps.
use aviron.Base.{◌≡◌, refl, List, [], ◌∷◌, none, some, All, match_rule, if_rule}
use aviron.Room.State.{Instant}
use aviron.Consumer.Data.{WorkoutSample, KafkaMessage, Decoders, Broker, received}
use aviron.Consumer.Batch.{is_empty, add, should_flush}
use aviron.Consumer.WorkoutLoop.{
  WorkoutLoop, Insert, Fetch, message, timed_out, stopped, failed, Round, note, flush_with,
  flush_workout_sample_batch, consider_flush, drop_malformed, take_message, fetch_round, returns,
  round, run_workout_sample_loop,
}

-- What is known of the answers of a round, and of the message that it fetches.
abbrev pub Meets : (Insert → Type 0) → (KafkaMessage → Type 0) → Round → Type 0
Meets Ok Known r = Ok r.answer × ((m : KafkaMessage) → r.fetch ≡ message m → Known m)

module _ (dec : Decoders) (Ok : Insert → Type 0) (Known : KafkaMessage → Type 0)
    (P : WorkoutLoop → Type 0)
    (flushed : (b : Broker) (a : Insert) (l : WorkoutLoop)
      → Ok a
      → P l
      → P (flush_with b (a l.batch.samples) l))
    (dropped : (b : Broker) (m : KafkaMessage) (l : WorkoutLoop)
      → dec.decode_workout_sample m.value ≡ none
      → Known m
      → P l
      → P (drop_malformed b m (note (received m) l)))
    (added : (m : KafkaMessage) (s : WorkoutSample) (now : Instant) (l : WorkoutLoop)
      → dec.decode_workout_sample m.value ≡ some s
      → Known m
      → P l
      → P (record { batch = add s m now l.batch; log = received m ∷ l.log })) where
  flush_keeps :
      (r : Round) (l : WorkoutLoop) → Ok r.answer → P l → P (flush_workout_sample_batch r l)
  unfolding flush_workout_sample_batch
  flush_keeps r l ok h =
      if_rule P (is_empty l.batch) (λ _. h) (λ _. flushed r.broker r.answer l ok h)

  consider_flush_keeps : (r : Round) (l : WorkoutLoop) → Ok r.answer → P l → P (consider_flush r l)
  unfolding consider_flush
  consider_flush_keeps r l ok h =
      if_rule P (should_flush r.checked_at l.batch) (λ _. flush_keeps r l ok h) (λ _. h)

  take_message_keeps :
      (r : Round) (m : KafkaMessage) (l : WorkoutLoop)
      → Ok r.answer
      → Known m
      → P l
      → P (take_message dec r m (note (received m) l))
  unfolding take_message
  take_message_keeps r m l ok known h =
      match_rule P (dec.decode_workout_sample m.value) (λ e. dropped r.broker m l e known h)
        (λ s e. consider_flush_keeps r _ ok (added m s r.added_at l e known h))

  round_keeps : (r : Round) (l : WorkoutLoop) → Meets Ok Known r → P l → P (round dec r l)
  unfolding round fetch_round
  round_keeps r l ok h =
      if_rule P r.is_done (λ _. flush_keeps r l (ok.0) h) (λ _. fetched r.fetch refl)
    where
      fetched :
          (x : Fetch)
          → r.fetch ≡ x
          → P (elim x [
            | message m ↦ take_message dec r m (note (received m) l)
            | timed_out ↦ consider_flush r l
            | stopped ↦ flush_workout_sample_batch r l
            | failed ↦ l
          ])
      fetched (message m) e = take_message_keeps r m l (ok.0) (ok.1 m e) h
      fetched timed_out e = consider_flush_keeps r l (ok.0) h
      fetched stopped e = flush_keeps r l (ok.0) h
      fetched failed e = h

  -- The rule: what a flush, a message that is dropped and one that is added keep holds after every
  -- schedule.
  pub run_keeps :
      (rs : List Round) (l : WorkoutLoop)
      → All (Meets Ok Known) rs
      → P l
      → P (run_workout_sample_loop dec rs l)
  unfolding run_workout_sample_loop
  run_keeps [] l ok h = h
  run_keeps (r ∷ rs) l ok h =
      let kept = round_keeps r l (ok.0) h in
      if_rule P (returns r) (λ _. kept) (λ _. run_keeps rs (round dec r l) (ok.1) kept)
