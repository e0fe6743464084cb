-- ===== src/Gateway/Session.antt =====
-- backend/internal/wsgateway/endpoint.go: the checks before a connection is served, and the loop that
-- reads its frames.
pub mod Frames
pub mod Evicted
pub mod Writing
use text.Mathlib.Text.{◌==◌}
use aviron.Base.{ℕ, String, Bool, true, false, List, [], ◌∷◌, Option, none, some, if◌then◌else◌}
use aviron.Locator.{Answer, failure, answer}
use aviron.Room.State.{Payload}
use aviron.Protocol.{
  ClientMessage, Codec, decode_client_message, InboundEnvelope, kind_message, kind_disconnected,
}

-- How a handshake ends.
pub data Handshake : Type 0 where
  unauthorized : Handshake
  routing_lookup_failed : Handshake
  race_not_found : Handshake
  -- Accept has answered with an error
  not_accepted : Handshake
  -- the connection of a user is served
  served : String → Handshake

-- What ServeHTTP asks of others about a handshake.
pub record Checks : Type 0 where
  -- verifySessionToken: the user and the race of a token, `none` for an error
  pub verify_session_token : String → Option (String × String)
  -- Owner: whether an instance holds the race
  pub owner : String → Answer Bool
  -- IsEvicted
  pub is_evicted : String → String → Answer Bool
  -- whether websocket.Accept succeeds
  pub accepts : Bool

unfoldable pub serve_evicted : Checks → String → String → Handshake
serve_evicted checks race_id user_id = elim (checks.is_evicted race_id user_id) [
  | failure ↦ routing_lookup_failed
  | answer evicted ↦
      if evicted then unauthorized else if checks.accepts then served user_id else not_accepted
]

unfoldable pub serve_owner : Checks → String → String → Handshake
serve_owner checks race_id user_id = elim (checks.owner race_id) [
  | failure ↦ routing_lookup_failed
  | answer found ↦ if found then serve_evicted checks race_id user_id else race_not_found
]

-- ServeHTTP, up to the connection that it serves
unfoldable pub serve_http : Checks → String → String → Handshake
serve_http checks race_id session_token = elim (checks.verify_session_token session_token) [
  | none ↦ unauthorized
  | some token ↦ if token.1 == race_id then serve_owner checks race_id token.0 else unauthorized
]

-- A call of `conn.Read`, and whether the publishing that follows it succeeds.
pub data Read : Type 0 where
  frame : Payload → Bool → Read
  -- an error, whether the hub is closed by then, and the same about the publishing
  read_error : Bool → Bool → Read

abbrev message_envelope : String → String → Payload → InboundEnvelope
message_envelope user_id display_name bytes = record {
  kind = kind_message;
  user_id = user_id;
  display_name = display_name;
  message = bytes;
}

abbrev disconnected_envelope : String → String → InboundEnvelope
disconnected_envelope user_id display_name = record {
  kind = kind_disconnected;
  user_id = user_id;
  display_name = display_name;
  message = [];
}

-- `if msg.Type == "leave_race" { return }`, behind a publishing that succeeded
abbrev ends_session : ClientMessage → Bool → Bool
ends_session m published = if published then m.type == "leave_race" else false

-- readLoop: the envelopes that it publishes, each with whether that succeeds
unfoldable pub read_loop : Codec → String → String → List Read → List (InboundEnvelope × Bool)
read_loop codec user_id display_name [] = []
read_loop codec user_id display_name (read_error hub_closed published ∷ reads) =
    if hub_closed then [] else (disconnected_envelope user_id display_name, published) ∷ []
read_loop codec user_id display_name (frame bytes published ∷ reads) =
    let rest = read_loop codec user_id display_name reads in
    elim (decode_client_message codec bytes) [
      | none ↦ rest
      | some m ↦
          (message_envelope user_id display_name bytes, published)
          ∷ (if ends_session m published then [] else rest)
    ]
