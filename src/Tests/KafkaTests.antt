-- ===== src/Tests/KafkaTests.antt =====
-- Results on their way through Kafka, backend/internal/kafka and backend/internal/consumer.
use text.Mathlib.Text.{◌==◌}
use text.Mathlib.TextEquality.{eq_iff}
use aviron.Base.{
  ℕ, String, ◌≡◌, refl, sym, ap, Bool, true, false, ◌&&◌, List, [], ◌∷◌, map, Option, none, some,
  arith,
}
use aviron.Base.Int.{ℤ, pos, negsuc}
use aviron.Base.Dict
use aviron.Room.State.{Payload, RaceResultJson}
use aviron.Room.Actor.{to_json}
use aviron.Race.Data.{Postgres}
use aviron.Race.Repository.Finishing.{
  finish_race, finish_results, upsert_leaderboard, reconcile_participant_results,
}
use aviron.Consumer.Data.{KafkaMessage, RaceFinished, Decoders, Broker}
use aviron.Consumer.FinishLoop.{process_race_finished_message}
use aviron.Kafka.{Encoders, Message, publish_race_finished, write_messages, topic_race_finished}
use aviron.Kafka.Delivered.{ReadsFinished, answer_of, EndsBy, published_race_settles}
use aviron.Tests.RaceFixtures.{steady, tables, ann_wins}

-- The results of a race "r1" that Ann has run alone, as three numbers.
abbrev encode_fields : Bool → Option ℕ → Option ℤ → ℕ → Option Payload
encode_fields true (some rank) (some (pos time)) pace = some (rank ∷ time ∷ pace ∷ [])
encode_fields _ _ _ _ = none

abbrev encode_results : String → List RaceResultJson → Option Payload
encode_results id [] = none
encode_results id (x ∷ []) =
    encode_fields (id == "r1" && x.user_id == "ann") x.finish_rank x.finish_time_ms x.avg_pace_watt
encode_results id (x ∷ y ∷ zs) = none

abbrev finished_alone : Option ℕ → Option ℤ → ℕ → RaceFinished
finished_alone rank time pace = record {
  race_id = "r1";
  results =
      record { user_id = "ann"; finish_rank = rank; finish_time_ms = time; avg_pace_watt = pace }
      ∷ [];
}

abbrev decode_fields : Payload → Option RaceFinished
decode_fields (rank ∷ time ∷ pace ∷ []) = some (finished_alone (some rank) (some (pos time)) pace)
decode_fields _ = none

abbrev to_numbers : Encoders
to_numbers = record {
  marshal_workout_sample = λ p. none;
  marshal_race_finished = λ p. encode_results p.race_id p.results;
  float_of = λ n. 0;
}

abbrev from_numbers : Decoders
from_numbers = record {
  decode_workout_sample = λ bytes. none;
  decode_race_finished = decode_fields;
}

fields-read :
    (b : Bool) (rank : Option ℕ) (time : Option ℤ) (pace : ℕ) (bytes : Payload)
    → encode_fields b rank time pace ≡ some bytes
    → (b ≡ true) × (decode_fields bytes ≡ some (finished_alone rank time pace))
fields-read true (some rank) (some (pos time)) pace bytes h =
    let same : rank ∷ time ∷ pace ∷ [] ≡ bytes = ground (arith, h) in
    (refl, ap decode_fields (sym same))
fields-read true (some rank) (some (negsuc n)) pace bytes h = ground (arith, h)
fields-read true (some rank) none pace bytes h = ground (arith, h)
fields-read true none time pace bytes h = ground (arith, h)
fields-read false rank time pace bytes h = ground (arith, h)

results-read :
    (id : String) (results : List RaceResultJson) (bytes : Payload)
    → encode_results id results ≡ some bytes
    → decode_fields bytes ≡ some (record { race_id = id; results = results })
results-read id [] bytes h = ground (arith, h)
results-read id (x ∷ y ∷ zs) bytes h = ground (arith, h)
results-read id (x ∷ []) bytes h =
    let (named, read) =
      fields-read (id == "r1" && x.user_id == "ann") x.finish_rank x.finish_time_ms x.avg_pace_watt
        bytes h in
    ground (arith, named, read, eq_iff id "r1", eq_iff x.user_id "ann")

numbers-read : ReadsFinished to_numbers from_numbers
numbers-read p bytes h = results-read p.race_id p.results bytes h

abbrev sent : Message
sent = record { topic = topic_race_finished; key = "r1"; value = 1 ∷ 900 ∷ 60 ∷ [] }

abbrev fetched : KafkaMessage
fetched = record { offset = 3; value = 1 ∷ 900 ∷ 60 ∷ [] }

-- Kafka takes everything.
abbrev willing : Broker
willing = record { publishes = λ m. true; commits = λ ms. true }

-- Postgres cannot be reached any more.
abbrev gone : Postgres
gone = record steady { fault = λ db i. some "connection refused" }

published_race_settles_example :
    let tx = (finish_race steady "r1" (pos 3) ann_wins tables).1 in
    let (returned, end) = reconcile_participant_results gone "r1" (map to_json ann_wins) tx in
    (sent.key ≡ "r1")
    × (end ≡ tx)
    × EndsBy willing fetched
        (record { race_id = "r1"; results = map to_json ann_wins })
        []
        (process_race_finished_message from_numbers willing fetched (answer_of returned) [])
        returned
unfolding finish_race finish_results upsert_leaderboard Dict.get Dict.has Dict.store Dict.empty
    publish_race_finished write_messages
published_race_settles_example =
    published_race_settles to_numbers from_numbers numbers-read (λ taken m. none) steady gone
      (pos 3) "r1" ann_wins tables (refl, tt) refl sent refl fetched refl willing []
