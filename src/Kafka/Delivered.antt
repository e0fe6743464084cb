-- ===== src/Kafka/Delivered.antt =====
-- What the consumer makes of the results that a room has published.
use aviron.Base.{String, ◌≡◌, ap, ◌∙◌, List, [], ◌∷◌, map, Option, none, some, arith, match_rule}
use aviron.Base.Int.{ℤ}
use aviron.Room.State.{Error, Payload, ParticipantResult}
use aviron.Room.Actor.{to_json}
use aviron.Race.Data.{Database, Postgres, Result, ok, err}
use aviron.Race.Repository.Finishing.{finish_race, reconcile_participant_results}
use aviron.Race.Repository.Reconciling.{AllRanked, reconcile-finish_race}
use aviron.Consumer.Data.{
  KafkaMessage, RaceFinished, Decoders, WriteAnswer, written, transient, Effect, Broker, reconcile,
  commit_with,
}
use aviron.Consumer.FinishLoop.{process_race_finished_message}
use aviron.Kafka.{
  RaceFinishedPayload, Message, Encoders, Writer, write_messages, publish_race_finished,
  topic_race_finished,
}

-- The two structs have the same JSON tags: what one end encodes, the other decodes field by field.
abbrev pub ReadsFinished : Encoders → Decoders → Type 0
ReadsFinished enc dec =
    (p : RaceFinishedPayload) (bytes : Payload)
    → enc.marshal_race_finished p ≡ some bytes
    → dec.decode_race_finished bytes ≡ some (record { race_id = p.race_id; results = p.results })

-- What a message that was handed on holds.
publish_race_finished-sent :
    (enc : Encoders) (writer : Writer) (id : String) (results : List ParticipantResult)
    (m : Message)
    → publish_race_finished enc writer id results [] ≡ (none, m ∷ [])
    → (m.key ≡ id)
      × (enc.marshal_race_finished (record { race_id = id; results = map to_json results })
          ≡ some m.value)
unfolding publish_race_finished write_messages
publish_race_finished-sent enc writer id results m =
    match_rule P (enc.marshal_race_finished payload) (λ _ f. ground (arith, f))
      (λ value e.
        match_rule P (writer [] (record { topic = topic_race_finished; key = id; value = value }))
          (λ _ f. ground (arith, e, f)) (λ _ _ f. ground (arith, f)))
  where
    payload : RaceFinishedPayload
    payload = record { race_id = id; results = map to_json results }

    P : Option Error × List Message → Type 0
    P x = x ≡ (none, m ∷ []) → (m.key ≡ id) × (enc.marshal_race_finished payload ≡ some m.value)

-- The loop's view of what ReconcileParticipantResults returns: none of its errors wraps
-- ErrPermanentWrite.
abbrev pub answer_of : Result (Unit {0}) → WriteAnswer
answer_of (ok t) = written
answer_of (err e) = transient

-- How the consumer ends with a message, by what the reconciliation has returned: without an error the
-- message is passed to CommitMessages; with one it is not, and is no dead letter either.
abbrev pub EndsBy :
    Broker → KafkaMessage → RaceFinished → List Effect → List Effect → Result (Unit {0}) → Type 0
EndsBy b k decoded log log' (ok t) = log' ≡ commit_with b (k ∷ []) ∷ reconcile decoded written ∷ log
EndsBy b k decoded log log' (err e) = log' ≡ reconcile decoded transient ∷ log

-- Once FinishRace has stored results that all have a rank, and PublishRaceFinished has handed them to
-- the writer, and the consumer's decoder reads what the producer's encoder writes: the message is keyed
-- by the race, and the consumer that receives it reconciles these results with the tables that
-- FinishRace has left, over a Postgres that may fail by then in any way. That reconciliation leaves the
-- tables as they are, whether it returns an error or not; the message is passed to CommitMessages if it
-- returns none, and is neither committed nor dead-lettered if it returns one.
pub published_race_settles :
    (enc : Encoders) (dec : Decoders) (reads : ReadsFinished enc dec) (writer : Writer)
    (pg later : Postgres) (d : ℤ) (id : String) (results : List ParticipantResult) (db : Database)
    → AllRanked results
    → (finish_race pg id d results db).0 ≡ ok tt
    → (m : Message) → publish_race_finished enc writer id results [] ≡ (none, m ∷ [])
    → (k : KafkaMessage) → k.value ≡ m.value
    → (b : Broker) (log : List Effect)
    → let tx = (finish_race pg id d results db).1 in
      let (returned, end) = reconcile_participant_results later id (map to_json results) tx in
      let decoded : RaceFinished = record { race_id = id; results = map to_json results } in
      (m.key ≡ id)
      × (end ≡ tx)
      × EndsBy b k decoded log
          (process_race_finished_message dec b k (answer_of returned) log)
          returned
unfolding process_race_finished_message
published_race_settles enc dec reads writer pg later d id results db ranked stored m sent k same b
      log =
    let (keyed, encoded) = publish_race_finished-sent enc writer id results m sent in
    let read = ap dec.decode_race_finished same ∙ reads _ m.value encoded in
    let tx = (finish_race pg id d results db).1 in
    (
      keyed,
      reconcile-finish_race pg later d id results db ranked stored,
      ends read (reconcile_participant_results later id (map to_json results) tx).0,
    )
  where
    decoded : RaceFinished
    decoded = record { race_id = id; results = map to_json results }

    ends :
        dec.decode_race_finished k.value ≡ some decoded
        → (returned : Result (Unit {0}))
        → EndsBy b k decoded log
            (process_race_finished_message dec b k (answer_of returned) log)
            returned
    ends read (ok t) = ground (arith, read)
    ends read (err e) = ground (arith, read)
