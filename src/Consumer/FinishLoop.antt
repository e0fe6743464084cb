-- ===== src/Consumer/FinishLoop.antt =====
-- backend/internal/consumer/race_finished_loop.go: `runRaceFinishedLoop`.
use aviron.Base.{List, [], ◌∷◌, none, some}
use aviron.Consumer.Data.{
  KafkaMessage, Decoders, WriteAnswer, written, permanent, transient, Effect, received, reconcile,
  Broker, dead_letter_with, commit_with,
}

-- How a round's FetchMessage ends, and the write, the dead letter and the commit that a message leads
-- to.
pub data FinishRound : Type 0 where
  fetched : KafkaMessage → WriteAnswer → Broker → FinishRound
  -- an error, with the context not done
  fetch_failed : FinishRound
  -- an error, with the context done
  fetch_stopped : FinishRound

-- The end of a message whose reconciliation ended with an answer; the log's newest effect is first.
abbrev pub settle : Broker → KafkaMessage → WriteAnswer → List Effect → List Effect
settle b m written log = commit_with b (m ∷ []) ∷ log
settle b m permanent log = commit_with b (m ∷ []) ∷ dead_letter_with b m ∷ log
settle b m transient log = log

-- processRaceFinishedMessage
unfoldable pub process_race_finished_message :
    Decoders → Broker → KafkaMessage → WriteAnswer → List Effect → List Effect
process_race_finished_message dec b m answer log = elim (dec.decode_race_finished m.value) [
  | none ↦ commit_with b (m ∷ []) ∷ dead_letter_with b m ∷ log
  | some decoded ↦ settle b m answer (reconcile decoded answer ∷ log)
]

-- runRaceFinishedLoop
unfoldable pub run_race_finished_loop : Decoders → List FinishRound → List Effect → List Effect
run_race_finished_loop dec [] log = log
run_race_finished_loop dec (fetched m answer b ∷ rs) log =
    run_race_finished_loop dec rs (process_race_finished_message dec b m answer (received m ∷ log))
run_race_finished_loop dec (fetch_failed ∷ rs) log = run_race_finished_loop dec rs log
run_race_finished_loop dec (fetch_stopped ∷ rs) log = log
