-- ===== src/Consumer/Poison.antt =====
-- A sample that pgx cannot encode, in the batch of the loop of workout.sample.
use mathlib.Core.List.{append_assoc, append-nil}
use aviron.Base.{
  ◌≡◌, refl, sym, ap, ◌∙◌, subst, Bool, false, String, List, [], ◌∷◌, ◌++◌, All, In, here, there,
  In-left, arith, count_if,
}
use aviron.Room.State.{Instant}
use aviron.Consumer.Data.{
  WorkoutSample, KafkaMessage, Decoders, Broker, transient, received, passed_in, dead_in, stored_in,
}
use aviron.Consumer.Batch.{add}
use aviron.Consumer.WorkoutLoop.{
  WorkoutLoop, Insert, Round, flush_with, drop_malformed, run_workout_sample_loop,
}
use aviron.Consumer.Accounting.{decodes_to}
use aviron.Consumer.Induction.{Meets, run_keeps}
use aviron.Consumer.Repository.{Copying, copy_from, insert_batch, all}

all-false :
    {A : Type 0} (f : A → Bool) (x : A) (xs : List A) → In x xs → f x ≡ false → all f xs ≡ false
all-false f x [] i h = elim i [ ]
all-false f x (_ ∷ xs) here h = ground (arith, h)
all-false f x (y ∷ xs) (there i) h = ground (arith, all-false f x xs i h)

-- InsertBatch where pgx cannot encode some user's id.
abbrev pub Rejects : String → Insert → Type 0
Rejects user_id a = (c : Copying) × (c.is_uuid user_id ≡ false) × (a ≡ insert_batch c)

module _ (dec : Decoders) (s : WorkoutSample) (l : WorkoutLoop) (i : In s l.batch.samples)
    (g : WorkoutSample → Bool) where
  insert_batch_rejects :
      (c : Copying) (ss : List WorkoutSample)
      → c.is_uuid s.user_id ≡ false
      → In s ss
      → insert_batch c ss ≡ transient
  unfolding insert_batch copy_from
  insert_batch_rejects c ss h j =
      ground (arith, all-false (λ (s : WorkoutSample). c.is_uuid s.user_id) s ss j h)

  -- The batch of before is there, and nothing of it was settled.
  Stuck : WorkoutLoop → Type 0
  Stuck l' =
      ((ss : List WorkoutSample) × (l'.batch.samples ≡ l.batch.samples ++ ss))
      × ((ms : List KafkaMessage) × (l'.batch.messages ≡ l.batch.messages ++ ms))
      × (stored_in l'.log ≡ stored_in l.log)
      × (count_if (decodes_to dec g) (passed_in l'.log)
          ≡ count_if (decodes_to dec g) (passed_in l.log))
      × (count_if (decodes_to dec g) (dead_in l'.log) ≡ count_if (decodes_to dec g) (dead_in l.log))

  flush_with-Stuck :
      (b : Broker) (a : Insert) (l' : WorkoutLoop)
      → Rejects s.user_id a
      → Stuck l'
      → Stuck (flush_with b (a l'.batch.samples) l')
  unfolding flush_with stored_in passed_in dead_in Stuck
  flush_with-Stuck b a l' (c, h, e) (samples, messages, stored, settled, dead) =
      let j = subst (In s) (sym (samples.1)) (In-left samples.0 i) in
      subst (λ x. Stuck (flush_with b x l'))
        (sym
          (ap (λ (f : Insert). f l'.batch.samples) e ∙ insert_batch_rejects c l'.batch.samples h j))
        (samples, messages, stored, settled, dead)

  add-Stuck :
      (m : KafkaMessage) (t : WorkoutSample) (now : Instant) (l' : WorkoutLoop)
      → Stuck l'
      → Stuck (record { batch = add t m now l'.batch; log = received m ∷ l'.log })
  unfolding add stored_in passed_in dead_in Stuck
  add-Stuck m t now l' ((ss, e), (ms, f), stored, settled, dead) = (
    (ss ++ t ∷ [], ap (λ x. x ++ t ∷ []) e ∙ append_assoc l.batch.samples ss (t ∷ [])),
    (ms ++ m ∷ [], ap (λ x. x ++ m ∷ []) f ∙ append_assoc l.batch.messages ms (m ∷ [])),
    stored,
    settled,
    dead,
  )

  run-Stuck :
      (rs : List Round)
      → All (Meets (Rejects s.user_id) (λ m. Unit)) rs
      → Stuck (run_workout_sample_loop dec rs l)
  unfolding drop_malformed stored_in passed_in dead_in Stuck
  run-Stuck rs ok =
      run_keeps dec (Rejects s.user_id) (λ m. Unit) Stuck flush_with-Stuck
        (λ b m l' e _ (samples, messages, stored, settled, dead).
          (samples, messages, stored, ground (arith, e, settled), ground (arith, e, dead)))
        (λ m t now l' e _. add-Stuck m t now l') rs l ok
        (
          ([], sym (append-nil l.batch.samples)),
          ([], sym (append-nil l.batch.messages)),
          refl,
          refl,
          refl,
        )

-- Once the batch has a sample whose user's id pgx cannot encode as a UUID: under every further
-- schedule, whatever the tables hold, the batch keeps all its messages and only grows, nothing is
-- stored, and no message that decodes is passed to CommitMessages or put among the dead letters. Their
-- offsets may be covered all the same, by the commit of a malformed message that comes later.
pub poison_blocks :
    (dec : Decoders) (s : WorkoutSample) (l : WorkoutLoop) (rs : List Round)
    → In s l.batch.samples
    → All (Meets (Rejects s.user_id) (λ m. Unit)) rs
    → (g : WorkoutSample → Bool)
    → let l' = run_workout_sample_loop dec rs l in
      ((ms : List KafkaMessage) × (l'.batch.messages ≡ l.batch.messages ++ ms))
      × (stored_in l'.log ≡ stored_in l.log)
      × (count_if (decodes_to dec g) (passed_in l'.log)
          ≡ count_if (decodes_to dec g) (passed_in l.log))
      × (count_if (decodes_to dec g) (dead_in l'.log) ≡ count_if (decodes_to dec g) (dead_in l.log))
unfolding Stuck
poison_blocks dec s l rs i ok g =
    let (_, messages, stored, settled, dead) = run-Stuck dec s l i g rs ok in
    (messages, stored, settled, dead)
