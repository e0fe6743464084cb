-- ===== src/Room/Board.antt =====
-- The standings of a room apart from its channels, calls and flags, and what may happen to them:
-- the specification that the events of backend/internal/room/room.go refine.
pub mod Keeps
mod Unique
use aviron.Base.{ℕ, suc, ◌+◌, ◌≤◌, String, ◌≡◌, Bool, Option, none, some, count_if, is_some}
use aviron.Base.Dict
use aviron.Base.Dict.{Dict}
use aviron.Room.State.{ParticipantState, RoomActor}
use aviron.Room.Actor.{is_racing}

pub record Board : Type 0 where
  pub live : Dict ParticipantState
  pub gone : Dict ParticipantState
  pub seen : ℕ
  pub finishers : ℕ

abbrev pub board : RoomActor → Board
board r = record {
  live = r.participants;
  gone = r.departed_participants;
  seen = r.total_participants;
  finishers = r.finished_count;
}

pub data BoardStep (b : Board) : Board → Type 0 where
  -- a user who is not here comes in, unfinished
  enters :
      (u : String) (p : ParticipantState)
      → Dict.get b.live u ≡ none
      → p.finish_rank ≡ none
      → p.finished_at ≡ none
      → BoardStep b (record b { live = Dict.store b.live u p; seen = b.seen + 1 })
  -- progress or presence changes, and the finish does not
  updates :
      (u : String) (p q : ParticipantState)
      → Dict.get b.live u ≡ some p
      → q.finish_rank ≡ p.finish_rank
      → q.finished_at ≡ p.finished_at
      → BoardStep b (record b { live = Dict.store b.live u q })
  -- someone unfinished takes the next rank
  finishes :
      (u : String) (p q : ParticipantState) (t : ℕ)
      → Dict.get b.live u ≡ some p
      → p.finish_rank ≡ none
      → q.finish_rank ≡ some (b.finishers + 1)
      → q.finished_at ≡ some t
      → BoardStep b (record b { live = Dict.store b.live u q; finishers = b.finishers + 1 })
  -- someone leaves with a result to keep
  departs :
      (u : String) (p : ParticipantState)
      → Dict.get b.live u ≡ some p
      → BoardStep b (record b { live = Dict.delete b.live u; gone = Dict.store b.gone u p })
  -- someone leaves without
  leaves : (u : String) → BoardStep b (record b { live = Dict.delete b.live u })

-- What one event may do to the board: some steps, or none.
pub data BoardSteps (b : Board) : Board → Type 0 where
  stays : BoardSteps b b
  moves : {c d : Board} → BoardSteps b c → BoardStep c d → BoardSteps b d

-- Where a participant stands: still in the room, or among the departed.
pub data Slot : Type 0 where
  here : String → Slot
  away : String → Slot

abbrev pub slot : Board → Slot → Option ParticipantState
slot b (here u) = Dict.get b.live u
slot b (away u) = Dict.get b.gone u

-- Finish ranks are handed out once each, to finishers only, and never to more people than came.
pub record IsRanked (b : Board) : Type 0 where
  pub paired :
      (s : Slot) (p : ParticipantState)
      → slot b s ≡ some p
      → is_some p.finished_at ≡ is_some p.finish_rank
  pub bounded :
      (s : Slot) (p : ParticipantState) (n : ℕ)
      → slot b s ≡ some p
      → p.finish_rank ≡ some n
      → (1 ≤ n) × (n ≤ b.finishers)
  pub unique :
      (s t : Slot) (p q : ParticipantState) (n : ℕ)
      → slot b s ≡ some p
      → slot b t ≡ some q
      → p.finish_rank ≡ some n
      → q.finish_rank ≡ some n
      → s ≡ t
  pub counted :
      count_if is_racing (Dict.values b.live)
        + count_if is_racing (Dict.values b.gone)
        + b.finishers
      ≤ b.seen
