-- ===== src/Race.antt =====
-- Races as they are stored and served: backend/internal/race, and its side of Postgres.
pub mod Data
pub mod Repository
pub mod Service
pub mod Ids
pub mod Handler
pub mod Prompt
