-- ===== src/Room/Induction.antt =====
-- What every event and every tick keeps, and what does not look at the channels, holds under every
-- schedule of the loop in backend/internal/room/room.go.
use aviron.Room.Actor.{inbox_size}
use aviron.Base.{true, List, [], ◌∷◌, ◌++◌, ltb, length, if_rule, list_rule}
use aviron.Room.State.{Payload, RoomEvent, RoomActor}
use aviron.Room.Env.{Env}
use aviron.Room.Apply.{apply_event}
use aviron.Room.Run.{
  Turn, receive, tick, done, send, drain, cancel, send_event, on_tick, receive_event, take_turn,
  returns_at, run,
}

module _ {ℓ} (env : Env) (P : RoomActor → Type ℓ)
    (events : (ev : RoomEvent) (r : RoomActor) → P r → P (apply_event env ev r))
    (ticks : (r : RoomActor) → P r → P (on_tick env r))
    (channels : (r : RoomActor) (evs : List RoomEvent) (ms : List Payload)
      → P r
      → P (record r { inbox = evs; broadcast = ms }))
    (stops : (r : RoomActor) → P r → P (record r { cancelled = true })) where
  pub take_turn-keeps : (t : Turn) (r : RoomActor) → P r → P (take_turn env t r)
  unfolding take_turn receive_event send_event
  take_turn-keeps receive r v =
      list_rule P r.inbox v (λ ev rest _. events ev _ (channels r rest r.broadcast v))
  take_turn-keeps tick r v = ticks r v
  take_turn-keeps done r v = v
  take_turn-keeps (send ev) r v =
      if_rule P (ltb (length r.inbox) inbox_size)
        (λ _. channels r (r.inbox ++ ev ∷ []) r.broadcast v) (λ _. v)
  take_turn-keeps drain r v = list_rule P r.broadcast v (λ m rest _. channels r r.inbox rest v)
  take_turn-keeps cancel r v = stops r v

  pub run-keeps : (ts : List Turn) (r : RoomActor) → P r → P (run env ts r)
  unfolding run
  run-keeps [] r v = v
  run-keeps (t ∷ ts) r v =
      if_rule P (returns_at t r) (λ _. v)
        (λ _. run-keeps ts (take_turn env t r) (take_turn-keeps t r v))
