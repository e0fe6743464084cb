-- ===== src/Room/Run.antt =====
-- backend/internal/room/room.go: the loop `Run`, and the goroutines at the ends of its channels.
use aviron.Base.{◌-◌, Bool, true, false, List, [], ◌∷◌, ◌++◌, length, ltb, if◌then◌else◌}
use aviron.Room.State.{RoomEvent, observe_tick, RoomActor}
use aviron.Room.Env.{Env}
use aviron.Room.Actor.{inbox_size, perform, broadcast_snapshot}
use aviron.Room.Apply.{apply_event}

-- One turn: a case of the loop's `select`, or a step of another goroutine at a channel or at the
-- context.
pub data Turn : Type 0 where
  -- case ev := <-r.inbox
  receive : Turn
  -- case <-ticker.C
  tick : Turn
  -- case <-r.ctx.Done()
  done : Turn
  -- Send: the event is enqueued, if there is room; without room the sender waits
  send : RoomEvent → Turn
  -- the fan-out takes a message from the broadcast channel
  drain : Turn
  -- the registry cancels the context
  cancel : Turn

-- Send, by the case of its `select` that enqueues; the other, a done context, changes nothing.
unfoldable pub send_event : RoomEvent → RoomActor → RoomActor
send_event ev r =
    if ltb (length r.inbox) inbox_size then record r { inbox = r.inbox ++ ev ∷ [] } else r

unfoldable pub on_tick : Env → RoomActor → RoomActor
on_tick env r =
    let shown = broadcast_snapshot env r in
    perform env (observe_tick (env.now shown - env.now r)) shown

unfoldable pub receive_event : Env → RoomActor → RoomActor
receive_event env r = elim r.inbox [
  | [] ↦ r
  | ev ∷ rest ↦ apply_event env ev (record r { inbox = rest })
]

abbrev drain_one : RoomActor → RoomActor
drain_one r = elim r.broadcast [ [] ↦ r | m ∷ rest ↦ record r { broadcast = rest } ]

unfoldable pub take_turn : Env → Turn → RoomActor → RoomActor
take_turn env receive r = receive_event env r
take_turn env tick r = on_tick env r
take_turn env done r = r
take_turn env (send ev) r = send_event ev r
take_turn env drain r = drain_one r
take_turn env cancel r = record r { cancelled = true }

-- Whether the loop returns at this turn.
abbrev pub returns_at : Turn → RoomActor → Bool
returns_at done r = r.cancelled
returns_at _ r = false

-- Run, under a schedule of turns.
unfoldable pub run : Env → List Turn → RoomActor → RoomActor
run env [] r = r
run env (t ∷ ts) r = let rest = run env ts (take_turn env t r) in if returns_at t r then r else rest
