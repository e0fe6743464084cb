-- ===== src/Rooms.antt =====
-- The rooms of one process and their way out to the bus: backend/internal/room/registry.go.
pub mod Registry
pub mod Drain
pub mod Feed
pub mod Buffers
