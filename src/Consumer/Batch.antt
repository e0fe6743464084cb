-- ===== src/Consumer/Batch.antt =====
-- backend/internal/consumer/batch.go: `sampleBatch`.
use aviron.Base.{ℕ, ◌-◌, Bool, false, ◌||◌, List, [], ◌∷◌, ◌++◌, length, leb, ◌==◌, if◌then◌else◌}
use aviron.Room.State.{Instant}
use aviron.Consumer.Data.{WorkoutSample, KafkaMessage}

abbrev pub flush_batch_size : ℕ
flush_batch_size = 200

-- in nanoseconds
abbrev pub flush_interval : ℕ
flush_interval = 3000000000

pub record SampleBatch : Type 0 where
  pub samples : List WorkoutSample
  pub messages : List KafkaMessage
  pub opened_at : Instant

abbrev pub is_empty : SampleBatch → Bool
is_empty b = length b.samples == 0

unfoldable pub add : WorkoutSample → KafkaMessage → Instant → SampleBatch → SampleBatch
add s msg now b = record {
  samples = b.samples ++ s ∷ [];
  messages = b.messages ++ msg ∷ [];
  opened_at = if is_empty b then now else b.opened_at;
}

unfoldable pub should_flush : Instant → SampleBatch → Bool
should_flush now b =
    if is_empty b
    then false
    else leb flush_batch_size (length b.samples) || leb flush_interval (now - b.opened_at)

unfoldable pub reset : SampleBatch → SampleBatch
reset b = record b { samples = []; messages = [] }

unfoldable pub new_batch : SampleBatch
new_batch = record { samples = []; messages = []; opened_at = 0 }
