-- ===== src/Consumer/Accounting.antt =====
-- What becomes of the messages of workout.sample.
use aviron.Base.{
  All, ◌+◌, ◌≡◌, refl, Bool, false, List, [], ◌∷◌, none, some, arith, count_if, count_if-append,
}
use aviron.Consumer.Data.{
  WorkoutSample, KafkaMessage, Decoders, WriteAnswer, written, permanent, transient, Effect,
  insert_batch, received, Broker, dead_letter_with, received_in, passed_in, dead_in, undelivered_in,
  stored_in,
}
use aviron.Consumer.Batch.{new_batch, add, reset}
use aviron.Room.State.{Instant}
use aviron.Consumer.Induction.{Meets, run_keeps}
use aviron.Consumer.WorkoutLoop.{
  note, WorkoutLoop, start_loop, Round, dead_letter_all, flush_with, drop_malformed,
  run_workout_sample_loop,
}

-- A test of samples, as a test of messages: a malformed one fails it.
abbrev pub decodes_to : Decoders → (WorkoutSample → Bool) → KafkaMessage → Bool
decodes_to dec g m = elim (dec.decode_workout_sample m.value) [ none ↦ false | some s ↦ g s ]

-- Every message that was received was passed to CommitMessages or is in the batch, and every one that
-- was passed and decodes was stored as its sample, is among the dead letters, or was lost to a
-- PublishRaw that failed, each as often as it was received. As often means: under every test of
-- messages, and of samples.
abbrev pub IsAccounted : Decoders → WorkoutLoop → Type 0
IsAccounted dec l =
    (f : KafkaMessage → Bool) (g : WorkoutSample → Bool)
    → (count_if f (received_in l.log) ≡ count_if f (passed_in l.log) + count_if f l.batch.messages)
      × (count_if (decodes_to dec g) (passed_in l.log)
          ≡ count_if g (stored_in l.log)
            + (count_if (decodes_to dec g) (dead_in l.log)
                + count_if (decodes_to dec g) (undelivered_in l.log)))

module _ (dec : Decoders) (f : KafkaMessage → Bool) (g : WorkoutSample → Bool) where
  -- The two equations, and the batch's samples are those of its messages.
  abbrev pub Adds : WorkoutLoop → Type 0
  Adds l =
      (count_if f (received_in l.log) ≡ count_if f (passed_in l.log) + count_if f l.batch.messages)
      × (count_if (decodes_to dec g) (passed_in l.log)
          ≡ count_if g (stored_in l.log)
            + (count_if (decodes_to dec g) (dead_in l.log)
                + count_if (decodes_to dec g) (undelivered_in l.log)))
      × (count_if g l.batch.samples ≡ count_if (decodes_to dec g) l.batch.messages)

  -- Dead-lettering a list of messages adds these to the dead letters and to those that were lost, and
  -- nothing else.
  dead_letter_all-adds :
      (b : Broker) (ms : List KafkaMessage) (log : List Effect)
      → let log' = dead_letter_all b ms log in
        (received_in log' ≡ received_in log)
        × (passed_in log' ≡ passed_in log)
        × (stored_in log' ≡ stored_in log)
        × (count_if (decodes_to dec g) (dead_in log')
              + count_if (decodes_to dec g) (undelivered_in log')
            ≡ count_if (decodes_to dec g) ms
              + (count_if (decodes_to dec g) (dead_in log)
                  + count_if (decodes_to dec g) (undelivered_in log)))
  unfolding dead_letter_all received_in passed_in stored_in dead_in undelivered_in
  dead_letter_all-adds b [] log = (refl, refl, refl, omega arith)
  dead_letter_all-adds b (m ∷ ms) log =
      ground (arith, dead_letter_all-adds b ms (dead_letter_with b m ∷ log))

  flush_with-Adds :
      (b : Broker) (a : WriteAnswer) (l : WorkoutLoop) → Adds l → Adds (flush_with b a l)
  unfolding flush_with reset received_in passed_in stored_in dead_in undelivered_in
  flush_with-Adds b written l v = ground (
    arith,
    count_if-append f l.batch.messages (passed_in l.log),
    count_if-append (decodes_to dec g) l.batch.messages (passed_in l.log),
    count_if-append g l.batch.samples (stored_in l.log),
  )
  flush_with-Adds b permanent l v =
      let log = insert_batch l.batch.samples permanent ∷ l.log in
      let dead = dead_letter_all-adds b l.batch.messages log in
      ground (
        arith,
        dead,
        count_if-append f l.batch.messages (passed_in (dead_letter_all b l.batch.messages log)),
        count_if-append (decodes_to dec g) l.batch.messages
            (passed_in (dead_letter_all b l.batch.messages log)),
      )
  flush_with-Adds b transient l v = v

  drop_malformed-Adds :
      (b : Broker) (m : KafkaMessage) (l : WorkoutLoop)
      → dec.decode_workout_sample m.value ≡ none
      → Adds l
      → Adds (drop_malformed b m (note (received m) l))
  unfolding drop_malformed received_in passed_in stored_in dead_in undelivered_in
  drop_malformed-Adds b m l h v = ground arith

  add-Adds :
      (m : KafkaMessage) (s : WorkoutSample) (now : Instant) (l : WorkoutLoop)
      → dec.decode_workout_sample m.value ≡ some s
      → Adds l
      → Adds (record { batch = add s m now l.batch; log = received m ∷ l.log })
  unfolding add received_in passed_in stored_in dead_in undelivered_in
  add-Adds m s now l h v = ground (
    arith,
    count_if-append f l.batch.messages (m ∷ []),
    count_if-append g l.batch.samples (s ∷ []),
    count_if-append (decodes_to dec g) l.batch.messages (m ∷ []),
  )

  pub run-Adds :
      (rs : List Round) (l : WorkoutLoop) → Adds l → Adds (run_workout_sample_loop dec rs l)
  run-Adds rs l v =
      run_keeps dec (λ a. Unit) (λ m. Unit) Adds
        (λ b a l' _. flush_with-Adds b (a l'.batch.samples) l')
        (λ b m l' e _. drop_malformed-Adds b m l' e) (λ m s now l' e _. add-Adds m s now l' e) rs l
        (any rs) v
    where
      any : (rs : List Round) → All (Meets (λ a. Unit) (λ m. Unit)) rs
      any [] = tt
      any (r ∷ rs) = ((tt, λ m e. tt), any rs)

-- From its start on, and under every schedule of fetches and errors, also of PublishRaw and of
-- CommitMessages: every message that was received was passed to CommitMessages or is in the batch, and
-- every one that was passed and decodes was stored as its sample, is among the dead letters, or was
-- lost to a PublishRaw that failed, each as often as it was received. Lower offsets that a commit
-- covers beyond the messages that it is passed are not counted.
pub run-IsAccounted :
    (dec : Decoders) (rs : List Round) → IsAccounted dec (run_workout_sample_loop dec rs start_loop)
unfolding start_loop new_batch received_in passed_in stored_in dead_in undelivered_in
run-IsAccounted dec rs f g =
    let (kept, settled, _) = run-Adds dec f g rs start_loop (refl, refl, refl) in (kept, settled)
