-- ===== src/Consumer/Sink.antt =====
-- The loop over the repository of samples.
use aviron.Base.{
  ◌≡◌, ◌⊎◌, inl, inr, refl, sym, ap, ◌∙◌, subst, Bool, true, false, String, List, [], ◌∷◌, some,
  ◌≤◌, ◌&&◌, All, All-append, arith, count_if,
}
use aviron.Room.State.{Instant}
use aviron.Race.Data.{Database}
use aviron.Consumer.Data.{
  WorkoutSample, KafkaMessage, Decoders, Broker, written, transient, received, received_in,
  passed_in, committed_in, dead_in, undelivered_in, stored_in, covers,
}
use aviron.Consumer.Batch.{new_batch, add, reset}
use aviron.Consumer.WorkoutLoop.{
  WorkoutLoop, Insert, start_loop, Round, flush_with, run_workout_sample_loop,
}
use aviron.Consumer.Accounting.{decodes_to, run-Adds}
use aviron.Consumer.Order.{
  Descends, IsBehind, committed-IsBehind, add-IsBehind, uncovered_batch, count_if-both,
}
use aviron.Consumer.Induction.{Meets, run_keeps}
use aviron.Consumer.Repository.{copy_from, insert_batch, has_parents, all}

all-true : {A : Type 0} (f : A → Bool) (xs : List A) → All (λ x. f x ≡ true) xs → all f xs ≡ true
all-true f [] h = refl
all-true f (x ∷ xs) h = ground (arith, h.0, all-true f xs (h.1))

-- InsertBatch over tables that stay.
abbrev pub OverPostgres : (String → Bool) → Database → Insert → Type 0
OverPostgres is_uuid db a =
    (lost : Bool) × (a ≡ insert_batch (record { is_uuid = is_uuid; lost = lost; db = db }))

-- A sample of a user and a race that are there.
abbrev pub IsGood : (String → Bool) → Database → WorkoutSample → Type 0
IsGood is_uuid db s = (is_uuid s.user_id ≡ true) × (has_parents db s ≡ true)

-- A message that says such a sample.
abbrev pub IsKnown : Decoders → (String → Bool) → Database → KafkaMessage → Type 0
IsKnown dec is_uuid db m =
    (s : WorkoutSample) × (dec.decode_workout_sample m.value ≡ some s) × IsGood is_uuid db s

module _ (is_uuid : String → Bool) (db : Database) where
  uuids :
      (ss : List WorkoutSample)
      → All (IsGood is_uuid db) ss
      → all (λ (s : WorkoutSample). is_uuid s.user_id) ss ≡ true
  uuids [] h = refl
  uuids (s ∷ ss) h = ground (arith, h.0, uuids ss (h.1))

  parents : (ss : List WorkoutSample) → All (IsGood is_uuid db) ss → all (has_parents db) ss ≡ true
  parents [] h = refl
  parents (s ∷ ss) h = ground (arith, h.0, parents ss (h.1))

  insert_batch_good :
      (lost : Bool) (ss : List WorkoutSample)
      → All (IsGood is_uuid db) ss
      → let a = insert_batch (record { is_uuid = is_uuid; lost = lost; db = db }) ss in
        (a ≡ written) ⊎ (a ≡ transient)
  unfolding insert_batch copy_from
  insert_batch_good true ss h = inr refl
  insert_batch_good false ss h = ground (arith, uuids ss h, parents ss h)

  -- The batch has good samples only, there is no dead letter, and commits are in order where messages
  -- come in order.
  Clean : WorkoutLoop → Type 0
  Clean l =
      All (IsGood is_uuid db) l.batch.samples
      × (dead_in l.log ≡ [])
      × (undelivered_in l.log ≡ [])
      × (Descends (received_in l.log) → IsBehind l)

  flush_with-Clean :
      (b : Broker) (a : Insert) (l : WorkoutLoop)
      → OverPostgres is_uuid db a
      → Clean l
      → Clean (flush_with b (a l.batch.samples) l)
  unfolding flush_with reset received_in committed_in dead_in undelivered_in Clean
  flush_with-Clean b a l (lost, e) (good, none_dead, none_lost, behind) =
      let answered = ap (λ (f : Insert). f l.batch.samples) e in
      elim (insert_batch_good lost l.batch.samples good) [
        | inl w ↦
            subst (λ x. Clean (flush_with b x l)) (sym (answered ∙ w))
              (tt, none_dead, none_lost, λ d. committed-IsBehind b l (behind d))
        | inr t ↦
            subst (λ x. Clean (flush_with b x l)) (sym (answered ∙ t))
              (good, none_dead, none_lost, behind)
      ]

  add-Clean :
      (dec : Decoders) (m : KafkaMessage) (s : WorkoutSample) (now : Instant) (l : WorkoutLoop)
      → dec.decode_workout_sample m.value ≡ some s
      → IsKnown dec is_uuid db m
      → Clean l
      → Clean (record { batch = add s m now l.batch; log = received m ∷ l.log })
  unfolding add received_in committed_in dead_in undelivered_in Clean
  add-Clean dec m s now l e (t, d, is_good) (good, none_dead, none_lost, behind) =
      let same : t ≡ s = ground (arith, e, d) in
      (
        All-append (IsGood is_uuid db) l.batch.samples (s ∷ []) good
            (subst (IsGood is_uuid db) same is_good, tt),
        none_dead,
        none_lost,
        λ d. add-IsBehind m s now l (d.0) (behind (d.1)),
      )

  run-Clean :
      (dec : Decoders) (rs : List Round) (l : WorkoutLoop)
      → All (Meets (OverPostgres is_uuid db) (IsKnown dec is_uuid db)) rs
      → Clean l
      → Clean (run_workout_sample_loop dec rs l)
  run-Clean dec rs l ok h =
      run_keeps dec (OverPostgres is_uuid db) (IsKnown dec is_uuid db) Clean flush_with-Clean
        (λ b m l' e (t, d, _) c. ground (arith, e, d)) (add-Clean dec) rs l ok h

-- Under every schedule over tables that stay, with or without losses of the connection and failures
-- of CommitMessages: if every message that is fetched says a sample of a user and a race that are in
-- the tables, and messages are received in the order of their offsets, then every received message
-- whose offset a successful commit covers, be it one of a higher offset, is stored, counted under
-- every test of samples, and none went to the dead letters.
pub known_samples_are_stored :
    (dec : Decoders) (is_uuid : String → Bool) (db : Database) (rs : List Round)
    → All (Meets (OverPostgres is_uuid db) (IsKnown dec is_uuid db)) rs
    → Descends (received_in (run_workout_sample_loop dec rs start_loop).log)
    → (g : WorkoutSample → Bool)
    → let l = run_workout_sample_loop dec rs start_loop in
      (count_if
          (λ (m : KafkaMessage). covers m.offset (committed_in l.log) && decodes_to dec g m)
          (received_in l.log)
        ≤ count_if g (stored_in l.log))
      × (dead_in l.log ≡ [])
      × (undelivered_in l.log ≡ [])
unfolding start_loop new_batch received_in passed_in committed_in stored_in dead_in undelivered_in
    Clean
known_samples_are_stored dec is_uuid db rs ok in_order g =
    let l = run_workout_sample_loop dec rs start_loop in
    let f : KafkaMessage → Bool =
      λ (m : KafkaMessage). covers m.offset (committed_in l.log) && decodes_to dec g m in
    let (_, none_dead, none_lost, behind) =
      run-Clean is_uuid db dec rs start_loop ok (tt, refl, refl, λ d. (λ k h. (tt, tt), tt)) in
    let (kept, settled, _) = run-Adds dec f g rs start_loop (refl, refl, refl) in
    let waiting = uncovered_batch dec g (committed_in l.log) l.batch.messages (behind in_order).1 in
    let passed =
      count_if-both (λ (m : KafkaMessage). covers m.offset (committed_in l.log)) (decodes_to dec g)
        (passed_in l.log) in
    let dead = ap (count_if (decodes_to dec g)) none_dead in
    let undelivered = ap (count_if (decodes_to dec g)) none_lost in
    (omega (arith, kept, settled, waiting, passed, dead, undelivered), none_dead, none_lost)
