-- ===== src/Protocol.antt =====
-- What a client's frame becomes in a room: backend/internal/ws/protocol.go, and the inbound half of
-- backend/internal/roombus/adapter.go.
pub mod Decoding
use text.Mathlib.Text.{◌==◌}
use aviron.Base.{ℕ, String, Bool, true, false, List, [], ◌∷◌, Option, none, some, if◌then◌else◌}
use aviron.Base.Int.{ℤ}
use aviron.Room.State.{
  Float64, Payload, RoomEvent, participant_joined, telemetry_received, participant_left,
  participant_disconnected,
}

-- ClientMessage; its `RaceID` and `TS` are not read on.
pub record ClientMessage : Type 0 where
  pub type : String
  pub seq : ℤ
  pub distance_m : Float64
  pub pace_watt : Float64

-- encoding/json and the conversion of a float64 to an int.
pub record Codec : Type 0 where
  -- json.Unmarshal into a ClientMessage, `none` for an error
  pub unmarshal : Payload → Option ClientMessage
  -- int(f)
  pub int_of : Float64 → ℤ

-- The types that DecodeClientMessage lets through.
abbrev pub is_known : String → Bool
is_known t = if t == "join_race" then true else if t == "telemetry" then true else t == "leave_race"

-- DecodeClientMessage, `none` for an error
unfoldable pub decode_client_message : Codec → Payload → Option ClientMessage
decode_client_message codec bytes = elim (codec.unmarshal bytes) [
  | none ↦ none
  | some m ↦ if is_known m.type then some m else none
]

-- ToRoomEvent, `none` for an error
unfoldable pub message_to_room_event : Codec → ClientMessage → String → String → Option RoomEvent
message_to_room_event codec m user_id display_name =
    if m.type == "join_race"
    then some (participant_joined user_id display_name)
    else if m.type == "telemetry"
    then some (telemetry_received user_id m.seq (codec.int_of m.distance_m) m.pace_watt)
    else if m.type == "leave_race"
    then some (participant_left user_id)
    else none

-- An envelope on the way in.
pub data InboundKind : Type 0 where
  kind_message : InboundKind
  kind_disconnected : InboundKind
  kind_other : InboundKind

pub record InboundEnvelope : Type 0 where
  pub kind : InboundKind
  pub user_id : String
  pub display_name : String
  pub message : Payload

-- The error of one step is that of the chain.
abbrev decoded_event : Codec → InboundEnvelope → Option RoomEvent
decoded_event codec env = elim (decode_client_message codec env.message) [
  | none ↦ none
  | some m ↦ message_to_room_event codec m env.user_id env.display_name
]

-- toRoomEvent of the adapter, `none` for a frame that is dropped
unfoldable pub to_room_event : Codec → InboundEnvelope → Option RoomEvent
to_room_event codec env = elim env.kind [
  | kind_message ↦ decoded_event codec env
  | kind_disconnected ↦ some (participant_disconnected env.user_id)
  | kind_other ↦ none
]

-- The loop of SubscribeIn, over the envelopes that come before the context is done.
unfoldable pub forward : Codec → List InboundEnvelope → List RoomEvent
forward codec [] = []
forward codec (env ∷ envs) =
    let rest = forward codec envs in
    elim (to_room_event codec env) [ none ↦ rest | some ev ↦ ev ∷ rest ]
