-- ===== src/Relay.antt =====
-- The way out of a room: PublishOut and PublishRoomClosed of backend/internal/roombus/adapter.go, and
-- `publish` and the subjects of backend/internal/roomrelay, to the subscription of a gateway.
pub mod Players
pub mod Inbound
use Prim.Native.String.{◌++◌ as ◌then◌}
use text.Mathlib.Text.{◌==◌}
use aviron.Base.{String, List, [], ◌∷◌, ◌++◌, Option, none, some, if◌then◌else◌}
use aviron.Room.State.{Payload, Error}
use aviron.Rooms.Drain.{BusCall, publish_out, publish_room_closed}
use aviron.Gateway.Hub.{OutboundEnvelope, broadcast, room_closed}

-- inSubject, outSubject
abbrev pub in_subject : String → String
in_subject race_id = ("room." then race_id) then ".in"

abbrev pub out_subject : String → String
out_subject race_id = ("room." then race_id) then ".out"

pub record Msg : Type 0 where
  pub subject : String
  pub bytes : Payload

-- json.Marshal and json.Unmarshal of an envelope, `none` for an error, and the error of PublishMsg, by
-- what was published before and the message.
pub record Nats : Type 0 where
  pub marshal : OutboundEnvelope → Option Payload
  pub unmarshal : Payload → Option OutboundEnvelope
  pub publish_msg : List Msg → Msg → Option Error

-- publish, under a context with an error or none; with the messages published so far
unfoldable pub publish :
    Nats → Option Error → String → OutboundEnvelope → List Msg → Option Error × List Msg
publish nats (some e) subject env sent = (some e, sent)
publish nats none subject env sent = elim (nats.marshal env) [
  | none ↦ (some "roomrelay: marshal envelope", sent)
  | some bytes ↦
      let m : Msg = record { subject = subject; bytes = bytes } in
      elim (nats.publish_msg sent m) [ some e ↦ (some e, sent) | none ↦ (none, sent ++ m ∷ []) ]
]

-- The envelope that a call to the bus becomes.
abbrev pub outbound : BusCall → OutboundEnvelope
outbound (publish_out payload) = broadcast payload
outbound publish_room_closed = room_closed

-- The calls of a room to its bus, under context.Background(); their errors are only logged.
unfoldable pub publish_all : Nats → String → List BusCall → List Msg → List Msg
publish_all nats race_id [] sent = sent
publish_all nats race_id (c ∷ cs) sent =
    publish_all nats race_id cs (publish nats none (out_subject race_id) (outbound c) sent).1

-- What the loop of `subscribe` hands on, of the messages of one subject; one that cannot be read is
-- left out.
unfoldable pub relayed : Nats → String → List Msg → List OutboundEnvelope
relayed nats subject [] = []
relayed nats subject (m ∷ ms) =
    let rest = relayed nats subject ms in
    if m.subject == subject
    then elim (nats.unmarshal m.bytes) [ none ↦ rest | some env ↦ env ∷ rest ]
    else rest
