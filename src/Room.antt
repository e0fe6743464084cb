-- ===== src/Room.antt =====
-- The room actor.
pub mod State
pub mod Env
pub mod Actor
pub mod Apply
pub mod Run
pub mod Board
pub mod Refines
pub mod Ranks
pub mod Induction
pub mod Settle
pub mod Events
pub mod Inbox
pub mod Endings
pub mod Results
pub mod Fairness
pub mod Racing
pub mod Grace
pub mod Snapshot
pub mod Pending
pub mod Returning
