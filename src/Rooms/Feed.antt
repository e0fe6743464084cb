-- ===== src/Rooms/Feed.antt =====
-- The way in of a room: the subscription of backend/internal/roomrelay/bus.go, the loop of
-- backend/internal/roombus/adapter.go behind it, and `feedInbox` of
-- backend/internal/room/registry.go. Each is a goroutine, and each hands on over a channel without a
-- buffer, so that it holds one element while it waits. Their context is the one that Spawn is given,
-- which is never done: cmd/server passes context.Background().
pub mod Order
pub mod Landing
use aviron.Base.{
  ℕ, Bool, true, false, ◌&&◌, List, [], ◌∷◌, ◌++◌, Option, none, some, length, ltb, if◌then◌else◌,
}
use aviron.Room.State.{Payload, RoomEvent, RoomActor}
use aviron.Room.Actor.{inbox_size}
use aviron.Room.Env.{Env}
use aviron.Room.Run.{Turn, send_event, take_turn}
use aviron.Room.Inbox.{taken_at}
use aviron.Protocol.{Codec, InboundEnvelope, to_room_event}

abbrev pub subscription_buffer : ℕ
subscription_buffer = 64

pub record Feed : Type 0 where
  pub actor : RoomActor
  -- what NATS has put into the channel of the subscription
  pub msgs : List Payload
  -- what the goroutine of `subscribe` offers, that of SubscribeIn, and feedInbox in its call of Send
  pub relayed : Option InboundEnvelope
  pub adapted : Option RoomEvent
  pub sending : Option RoomEvent
  -- every message that the channel has taken, and every event whose Send has returned, be it enqueued
  -- or discarded
  pub arrived : List Payload
  pub handed : List RoomEvent
  -- every event that Run has received from the inbox, whoever has sent it
  pub received : List RoomEvent

-- Spawn, as far as the way in
abbrev pub new_feed : RoomActor → Feed
new_feed actor = record {
  actor = actor;
  msgs = [];
  relayed = none;
  adapted = none;
  sending = none;
  arrived = [];
  handed = [];
  received = [];
}

pub data FeedTurn : Type 0 where
  -- NATS has a message; it is dropped if the channel is full
  arrives : Payload → FeedTurn
  -- case msg := <-msgs
  relay : FeedTurn
  -- the loop of SubscribeIn receives
  adapt : FeedTurn
  -- feedInbox receives, and calls Send
  feed : FeedTurn
  -- Send enqueues
  enqueue : FeedTurn
  -- Send finds the actor's context done
  give_up : FeedTurn
  -- a turn of Run, or of another goroutine at the room
  room_turn : Turn → FeedTurn

unfoldable pub take_arrival : Payload → Feed → Feed
take_arrival p f =
    if ltb (length f.msgs) subscription_buffer
    then record f { msgs = f.msgs ++ p ∷ []; arrived = f.arrived ++ p ∷ [] }
    else f

unfoldable pub relay_next : (Payload → Option InboundEnvelope) → Feed → Feed
relay_next unmarshal f = elim f.relayed [
  | some env ↦ f
  | none ↦ elim f.msgs [
    | [] ↦ f
    | p ∷ rest ↦ elim (unmarshal p) [
      | none ↦ record f { msgs = rest }
      | some env ↦ record f { msgs = rest; relayed = some env }
    ]
  ]
]

unfoldable pub adapt_next : Codec → Feed → Feed
adapt_next codec f = elim f.adapted [
  | some ev ↦ f
  | none ↦ elim f.relayed [
    | none ↦ f
    | some env ↦ record f { relayed = none; adapted = to_room_event codec env }
  ]
]

unfoldable pub feed_next : Feed → Feed
feed_next f = elim f.sending [
  | some ev ↦ f
  | none ↦ record f { sending = f.adapted; adapted = none }
]

-- Send returns for the event that it has, where a case of its `select` is ready.
unfoldable pub return_from_send : Bool → RoomActor → Feed → Feed
return_from_send ready actor f = elim f.sending [
  | none ↦ f
  | some ev ↦
      if ready then record f { actor = actor; sending = none; handed = f.handed ++ ev ∷ [] } else f
]

unfoldable pub enqueue_next : Feed → Feed
enqueue_next f = elim f.sending [
  | none ↦ f
  | some ev ↦ return_from_send (ltb (length f.actor.inbox) inbox_size) (send_event ev f.actor) f
]

unfoldable pub take_room_turn : Env → Turn → Feed → Feed
take_room_turn env t f = record f {
  actor = take_turn env t f.actor;
  received = f.received ++ taken_at t f.actor.inbox;
}

module _ (env : Env) (codec : Codec) (unmarshal : Payload → Option InboundEnvelope) where
  unfoldable pub feed_turn : FeedTurn → Feed → Feed
  feed_turn (arrives p) f = take_arrival p f
  feed_turn relay f = relay_next unmarshal f
  feed_turn adapt f = adapt_next codec f
  feed_turn feed f = feed_next f
  feed_turn enqueue f = enqueue_next f
  feed_turn give_up f = return_from_send f.actor.cancelled f.actor f
  feed_turn (room_turn t) f = take_room_turn env t f

  -- The three loops, under a schedule of turns.
  unfoldable pub feed_inbox : List FeedTurn → Feed → Feed
  feed_inbox [] f = f
  feed_inbox (t ∷ ts) f = feed_inbox ts (feed_turn t f)
