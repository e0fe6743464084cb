-- ===== src/Gateway/Session/Frames.antt =====
-- Who is let in, and what a connection publishes.
use text.Mathlib.TextEquality.{eq_iff}
use aviron.Base.{
  String, ◌≡◌, ◌↔◌, refl, Bool, true, false, List, [], ◌∷◌, some, arith, match_rule, if◌then◌else◌,
  length,
}
use aviron.Room.State.{RoomEvent, participant_left, participant_disconnected}
use aviron.Protocol.{
  Codec, decode_client_message, message_to_room_event, InboundEnvelope, to_room_event, forward,
}
use aviron.Protocol.Decoding.{decoded_becomes_event}
use aviron.Gateway.Session.{
  Checks, Handshake, served, serve_http, serve_owner, serve_evicted, Read, frame, read_error,
  read_loop,
}
use aviron.Locator.{answer}

-- A connection is served exactly if its token is one of the user for the race that it asks for, some
-- instance holds that race, the user was not evicted from it, and the upgrade succeeds.
pub serve_http_lem :
    (checks : Checks) (race_id session_token user_id : String)
    → (serve_http checks race_id session_token ≡ served user_id) ↔ (
        (checks.verify_session_token session_token ≡ some (user_id, race_id))
        × (checks.owner race_id ≡ answer true)
        × (checks.is_evicted race_id user_id ≡ answer false)
        × (checks.accepts ≡ true))
unfolding serve_http serve_owner serve_evicted
serve_http_lem checks race_id session_token user_id = (
  match_rule P (checks.verify_session_token session_token) (λ _ e. ground arith)
      (λ token t. ground (arith, eq_iff token.1 race_id)),
  λ h. ground (arith, eq_iff race_id race_id),
)
  where
    P : Handshake → Type 0
    P x =
        x ≡ served user_id
        → (checks.verify_session_token session_token ≡ some (user_id, race_id))
          × (checks.owner race_id ≡ answer true)
          × (checks.is_evicted race_id user_id ≡ answer false)
          × (checks.accepts ≡ true)

-- Whether an event says that its player is gone.
abbrev pub is_goodbye : RoomEvent → Bool
is_goodbye (participant_left u) = true
is_goodbye (participant_disconnected u) = true
is_goodbye _ = false

-- The envelopes of a connection that reached the bus.
abbrev pub sent : List (InboundEnvelope × Bool) → List InboundEnvelope
sent [] = []
sent ((env, published) ∷ envs) = let rest = sent envs in if published then env ∷ rest else rest

-- A goodbye comes last.
abbrev pub EndsWithGoodbye : List RoomEvent → Type 0
EndsWithGoodbye [] = Unit
EndsWithGoodbye (ev ∷ evs) = (is_goodbye ev ≡ true → evs ≡ []) × EndsWithGoodbye evs

module _ (codec : Codec) (user_id display_name : String) where
  -- Of the frames of a connection that reach the bus, the room drops none.
  pub read_loop-forwarded :
      (reads : List Read)
      → let envs = sent (read_loop codec user_id display_name reads) in
        length (forward codec envs) ≡ length envs
  unfolding read_loop forward to_room_event
  read_loop-forwarded [] = refl
  read_loop-forwarded (read_error hub_closed published ∷ reads) = ground arith
  read_loop-forwarded (frame bytes published ∷ reads) =
      match_rule Kept (decode_client_message codec bytes) (λ _. read_loop-forwarded reads)
        (λ m e. ground (
          arith,
          read_loop-forwarded reads,
          decoded_becomes_event codec bytes m user_id display_name e,
        ))
    where
      Kept : List (InboundEnvelope × Bool) → Type 0
      Kept l = length (forward codec (sent l)) ≡ length (sent l)

  -- Whatever a client sends, and whatever fails, of the events that its connection causes in the
  -- room only the last can say that the player left or is disconnected.
  pub read_loop-EndsWithGoodbye :
      (reads : List Read)
      → EndsWithGoodbye (forward codec (sent (read_loop codec user_id display_name reads)))
  unfolding read_loop forward to_room_event message_to_room_event
  read_loop-EndsWithGoodbye [] = tt
  read_loop-EndsWithGoodbye (read_error hub_closed published ∷ reads) = ground arith
  read_loop-EndsWithGoodbye (frame bytes published ∷ reads) =
      match_rule (λ (l : List (InboundEnvelope × Bool)). EndsWithGoodbye (forward codec (sent l)))
        (decode_client_message codec bytes) (λ _. read_loop-EndsWithGoodbye reads)
        (λ m e. ground (arith, read_loop-EndsWithGoodbye reads, eq_iff m.type "leave_race"))
