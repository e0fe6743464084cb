-- ===== src/Consumer.antt =====
-- The Kafka consumer, backend/internal/consumer: the topics workout.sample and race.finished on
-- their way into Postgres.
pub mod Data
pub mod Batch
pub mod WorkoutLoop
pub mod FinishLoop
pub mod Induction
pub mod Repository
pub mod Accounting
pub mod Sink
pub mod Poison
pub mod Offsets
pub mod Order
