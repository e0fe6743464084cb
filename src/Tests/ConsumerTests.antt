-- ===== src/Tests/ConsumerTests.antt =====
-- The Kafka consumer, backend/internal/consumer.
use aviron.Base.{
  ◌&&◌, ◌≤◌, ap, Bool, List, here, count_if, subst, ◌≡◌, refl, true, false, [], ◌∷◌, none, some,
  arith,
}
use aviron.Consumer.Data.{
  WorkoutSample, KafkaMessage, Decoders, Broker, written, received_in, passed_in, committed_in,
  dead_in, undelivered_in, stored_in, covers,
}
use aviron.Consumer.WorkoutLoop.{
  WorkoutLoop, Round, Fetch, message, stopped, start_loop, round, fetch_round, take_message,
  consider_flush, flush_workout_sample_batch, flush_with, run_workout_sample_loop,
}
use aviron.Consumer.Accounting.{decodes_to, IsAccounted, run-IsAccounted}
use aviron.Consumer.Repository.{has_parents, insert_batch, copy_from}
use aviron.Consumer.Batch.{new_batch, add, reset, should_flush}
use aviron.Consumer.Sink.{IsGood, IsKnown, known_samples_are_stored}
use aviron.Consumer.Poison.{poison_blocks}
use aviron.Tests.RaceFixtures.{tables}
use aviron.Race.Repository.Tables.{find_race}
use aviron.Base.Dict

abbrev ann_sample : WorkoutSample
ann_sample = record { race_id = "r1"; user_id = "ann"; ts = 1; distance_m = 2; pace_watt = 60 }

-- Every payload but the empty one decodes.
abbrev decoders : Decoders
decoders = record {
  decode_workout_sample = λ bytes. elim bytes [ [] ↦ none | b ∷ bs ↦ some ann_sample ];
  decode_race_finished =
      λ bytes. elim bytes [ [] ↦ none | b ∷ bs ↦ some (record { race_id = "r1"; results = [] }) ];
}

abbrev good : KafkaMessage
good = record { offset = 7; value = 1 ∷ [] }

abbrev bad : KafkaMessage
bad = record { offset = 8; value = [] }

-- Kafka takes everything, or nothing.
abbrev willing : Broker
willing = record { publishes = λ m. true; commits = λ ms. true }

abbrev refusing_all : Broker
refusing_all = record { publishes = λ m. false; commits = λ ms. false }

abbrev good_round : Round
good_round = record {
  is_done = false;
  fetch = message good;
  added_at = 5;
  checked_at = 6;
  answer = λ ss. written;
  broker = willing;
}

abbrev bad_round : Round
bad_round = record good_round { fetch = message bad; broker = refusing_all }

abbrev last_round : Round
last_round = record good_round { fetch = stopped }

run-IsAccounted_example :
    IsAccounted decoders
      (run_workout_sample_loop decoders (good_round ∷ bad_round ∷ last_round ∷ []) start_loop)
run-IsAccounted_example = run-IsAccounted decoders (good_round ∷ bad_round ∷ last_round ∷ [])

abbrev next : KafkaMessage
next = record { offset = 9; value = 2 ∷ [] }

-- The tables have a race and Ann, and every id is a UUID.
abbrev over_tables : Bool → Round → Round
over_tables lost r = record r {
  answer = insert_batch (record { is_uuid = λ s. true; lost = lost; db = tables });
}

abbrev next_round : Round
next_round = record good_round { fetch = message next; broker = refusing_all }

-- Two messages are received, and the flush at the end stores and commits them.
abbrev lossy_day : List Round
lossy_day =
    over_tables true good_round ∷ over_tables false next_round ∷ over_tables false last_round ∷ []

ann_sample-IsGood : IsGood (λ s. true) tables ann_sample
unfolding has_parents find_race Dict.has Dict.get Dict.store Dict.empty
ann_sample-IsGood = (refl, refl)

fetched-IsKnown :
    (m m' : KafkaMessage)
    → decoders.decode_workout_sample m.value ≡ some ann_sample
    → message m ≡ message m'
    → IsKnown decoders (λ s. true) tables m'
fetched-IsKnown m m' d e =
    subst (IsKnown decoders (λ s. true) tables)
      (ap (λ (x : Fetch). elim x as (λ _. KafkaMessage) [ message n ↦ n | _ ↦ m ]) e)
      (ann_sample, d, ann_sample-IsGood)

last_fetches_none : (m : KafkaMessage) → stopped ≡ message m → IsKnown decoders (λ s. true) tables m
last_fetches_none m e = ground (arith, e)

known_samples_are_stored_example :
    let l = run_workout_sample_loop decoders lossy_day start_loop in
    (count_if
        (λ (m : KafkaMessage).
          covers m.offset (committed_in l.log) && decodes_to decoders (λ s. true) m)
        (received_in l.log)
      ≤ count_if (λ s. true) (stored_in l.log))
    × (dead_in l.log ≡ [])
    × (undelivered_in l.log ≡ [])
unfolding run_workout_sample_loop round fetch_round take_message consider_flush should_flush
    flush_workout_sample_batch flush_with start_loop new_batch add reset insert_batch copy_from
    received_in has_parents find_race Dict.has Dict.store
known_samples_are_stored_example =
    known_samples_are_stored decoders (λ s. true) tables lossy_day
      (
        ((true, refl), λ m e. fetched-IsKnown good m refl e),
        (
          ((false, refl), λ m e. fetched-IsKnown next m refl e),
          (((false, refl), λ m e. last_fetches_none m e), tt),
        ),
      )
      ((omega arith, tt), (tt, tt)) (λ s. true)

-- Ann's id is no UUID.
abbrev ann_waits : WorkoutLoop
ann_waits = record {
  batch = record { samples = ann_sample ∷ []; messages = good ∷ []; opened_at = 0 };
  log = [];
}

abbrev refusing : Round → Round
refusing r = record r {
  answer = insert_batch (record { is_uuid = λ s. false; lost = false; db = tables });
}

poison_blocks_example :
    let l =
      run_workout_sample_loop decoders (refusing bad_round ∷ refusing last_round ∷ []) ann_waits in
    ((ms : List KafkaMessage) × (l.batch.messages ≡ good ∷ ms))
    × (stored_in l.log ≡ [])
    × (count_if (decodes_to decoders (λ s. true)) (passed_in l.log) ≡ 0)
    × (count_if (decodes_to decoders (λ s. true)) (dead_in l.log) ≡ 0)
unfolding stored_in passed_in dead_in
poison_blocks_example =
    poison_blocks decoders ann_sample ann_waits (refusing bad_round ∷ refusing last_round ∷ []) here
      (
        ((record { is_uuid = λ s. false; lost = false; db = tables }, refl, refl), λ m e. tt),
        (((record { is_uuid = λ s. false; lost = false; db = tables }, refl, refl), λ m e. tt), tt),
      )
      (λ s. true)
