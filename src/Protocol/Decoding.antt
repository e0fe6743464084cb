-- ===== src/Protocol/Decoding.antt =====
-- For whom a frame speaks, and which frames are dropped.
use aviron.Base.{
  String, ◌≡◌, refl, true, List, [], ◌∷◌, map, Option, none, some, is_some, arith, match_rule,
  if◌then◌else◌,
}
use aviron.Room.State.{
  Payload, RoomEvent, participant_joined, telemetry_received, participant_left,
  participant_disconnected,
}
use aviron.Protocol.{
  ClientMessage, Codec, decode_client_message, message_to_room_event, InboundEnvelope,
  to_room_event, forward,
}

-- The user of an event that a player can cause; there is none for the events of the server's own
-- timers, requests and queries.
abbrev pub player_of : RoomEvent → Option String
player_of (participant_joined u name) = some u
player_of (telemetry_received u seq words pace) = some u
player_of (participant_disconnected u) = some u
player_of (participant_left u) = some u
player_of _ = none

-- The event of an envelope is one of its own user.
pub to_room_event-player :
    (codec : Codec) (env : InboundEnvelope) (ev : RoomEvent)
    → to_room_event codec env ≡ some ev
    → player_of ev ≡ some env.user_id
unfolding to_room_event decode_client_message message_to_room_event
to_room_event-player codec env ev h = ground arith

-- The users of some envelopes that are not dropped.
abbrev pub senders : Codec → List InboundEnvelope → List (Option String)
senders codec [] = []
senders codec (env ∷ envs) =
    let rest = senders codec envs in
    if is_some (to_room_event codec env) then some env.user_id ∷ rest else rest

-- Whatever bytes clients send, the events that reach a room are, one for one and in order, events
-- of the users that the gateway wrote on the envelopes, and never an eviction, a start, an expiry
-- or a query: no client can speak for another, or for the server.
pub forward-senders :
    (codec : Codec) (envs : List InboundEnvelope)
    → map player_of (forward codec envs) ≡ senders codec envs
unfolding forward
forward-senders codec [] = refl
forward-senders codec (env ∷ envs) =
    match_rule (λ x. map player_of x ≡ senders codec (env ∷ envs)) (to_room_event codec env)
      (λ h. ground (arith, forward-senders codec envs))
      (λ ev h. ground (arith, to_room_event-player codec env ev h, forward-senders codec envs))

-- A message that DecodeClientMessage lets through always becomes an event: the second test of its
-- type does not fail.
pub decoded_becomes_event :
    (codec : Codec) (bytes : Payload) (m : ClientMessage) (user_id display_name : String)
    → decode_client_message codec bytes ≡ some m
    → is_some (message_to_room_event codec m user_id display_name) ≡ true
unfolding decode_client_message message_to_room_event
decoded_becomes_event codec bytes m user_id display_name h = ground arith
