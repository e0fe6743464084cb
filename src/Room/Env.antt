-- ===== src/Room/Env.antt =====
-- What a room actor depends on and the repository does not implement in this package, or the
-- language leaves open: the clock, the order in which Go walks a map, the errors of the interfaces
-- behind the actor, and the JSON encoding. Each may depend on the whole state of the actor, so on
-- everything that happened before.
use aviron.Base.{List, Option, Perm}
use aviron.Base.Int.{ℤ}
use aviron.Room.State.{Instant, Float64, Payload, Error, ParticipantState, Message, Call, RoomActor}

pub record Env : Type 0 where
  -- time.Now()
  pub now : RoomActor → Instant
  -- the order in which `range` visits the values of a map
  pub order : RoomActor → List ParticipantState → List ParticipantState
  -- the error that a call returns, `none` for nil
  pub answer : RoomActor → Call → Option Error
  -- json.Marshal, `none` for an error
  pub marshal : Message → Option Payload
  -- float64(n)
  pub float64 : ℤ → Float64
  -- `range` visits every value once.
  pub order-perm : (r : RoomActor) (ps : List ParticipantState) → Perm (order r ps) ps
