-- ===== src/Rooms/Drain/Delivery.antt =====
-- What reaches the bus of what a room has broadcast.
use mathlib.Core.List.{append_assoc}
use aviron.Base.{
  ℕ, zero, suc, ◌<◌, ◌≡◌, refl, sym, ap, ◌∙◌, true, false, List, [], ◌∷◌, ◌++◌, map, some, length,
  ltb, arith, if_rule, list_rule, match_rule,
}
use aviron.Room.State.{Payload, RoomActor, race_finished, ParticipantResult}
use aviron.Room.Env.{Env}
use aviron.Room.Actor.{announce_finish, broadcast_buffer_size, to_json, send_message, offer}
use aviron.Rooms.Drain.{
  BusCall, publish_out, publish_room_closed, Drain, Pick, message, done, take_message, take_done,
  drain_rest, drain_turn, drain_broadcast,
}

-- Calls to publish some messages, then further calls.
abbrev pub published : List Payload → List BusCall → List BusCall
published [] calls = calls
published (m ∷ ms) calls = publish_out m ∷ published ms calls

drain_rest_lem :
    (ms : List Payload) (calls : List BusCall)
    → drain_rest ms calls ≡ calls ++ published ms (publish_room_closed ∷ [])
unfolding drain_rest
drain_rest_lem [] calls = refl
drain_rest_lem (m ∷ ms) calls =
    drain_rest_lem ms (calls ++ publish_out m ∷ [])
    ∙ append_assoc calls (publish_out m ∷ []) (published ms (publish_room_closed ∷ []))

-- After its return a drain does nothing.
drain_returned : (ps : List Pick) (d : Drain) → d.returned ≡ true → drain_broadcast ps d ≡ d
unfolding drain_broadcast
drain_returned [] d h = refl
drain_returned (p ∷ ps) d h = rw h

-- `n` messages picked before the context.
abbrev pub messages : ℕ → List Pick → List Pick
messages zero ps = ps
messages (suc n) ps = message ∷ messages n ps

drain_goes_on :
    (p : Pick) (ps : List Pick) (d : Drain)
    → d.returned ≡ false
    → drain_broadcast (p ∷ ps) d ≡ drain_broadcast ps (drain_turn p d)
unfolding drain_broadcast
drain_goes_on p ps d f =
    if_rule (λ x. x ≡ drain_broadcast ps (drain_turn p d)) d.returned (λ t. cc) (λ _. refl)

-- The calls to the bus that publish the rest of a channel and close the room.
abbrev pub rest_of : Drain → List BusCall
rest_of d = d.bus_calls ++ published d.actor.broadcast (publish_room_closed ∷ [])

take_done-rest_of :
    (later : List Pick) (d : Drain)
    → d.actor.cancelled ≡ true
    → (drain_broadcast later (take_done d)).bus_calls ≡ rest_of d
take_done-rest_of later d c =
    if_rule (λ (x : Drain). (drain_broadcast later x).bus_calls ≡ rest_of d) d.actor.cancelled
      (λ _.
        ap (λ (x : Drain). x.bus_calls) (drain_returned later _ refl)
        ∙ drain_rest_lem d.actor.broadcast d.bus_calls)
      (λ f. ground arith)

take_message-rest_of :
    (d : Drain)
    → (rest_of (take_message d) ≡ rest_of d)
      × ((take_message d).returned ≡ d.returned)
      × ((take_message d).actor.cancelled ≡ d.actor.cancelled)
take_message-rest_of d =
    list_rule
      (λ (x : Drain).
        (rest_of x ≡ rest_of d)
        × (x.returned ≡ d.returned)
        × (x.actor.cancelled ≡ d.actor.cancelled))
      d.actor.broadcast (refl, refl, refl)
      (λ m ms e. (
        append_assoc d.bus_calls (publish_out m ∷ []) (published ms (publish_room_closed ∷ []))
            ∙ sym (ap (λ l. d.bus_calls ++ published l (publish_room_closed ∷ [])) e),
        refl,
        refl,
      ))

-- What a room broadcast before its context was done reaches the bus: however many messages the
-- `select` picks before it picks the context, every message in the channel is published, in its
-- order, then the end of the room, once, and nothing after it.
pub drain_broadcast_lem :
    (n : ℕ) (later : List Pick) (d : Drain)
    → d.returned ≡ false
    → d.actor.cancelled ≡ true
    → (drain_broadcast (messages n (done ∷ later)) d).bus_calls
      ≡ d.bus_calls ++ published d.actor.broadcast (publish_room_closed ∷ [])
unfolding drain_broadcast drain_turn
drain_broadcast_lem zero later d f c =
    ap (λ (x : Drain). x.bus_calls) (drain_goes_on done later d f) ∙ take_done-rest_of later d c
drain_broadcast_lem (suc n) later d f c =
    let (same, f', c') = take_message-rest_of d in
    ap (λ (x : Drain). x.bus_calls) (drain_goes_on message (messages n (done ∷ later)) d f)
    ∙ drain_broadcast_lem n later (take_message d) (f' ∙ f) (c' ∙ c)
    ∙ same

module _ (env : Env) where
  -- Where the results are encoded and the channel has room, they are behind what it had.
  pub broadcast-announce_finish :
      (results : List ParticipantResult) (r : RoomActor) (body : Payload)
      → env.marshal (race_finished (map to_json results)) ≡ some body
      → length r.broadcast < broadcast_buffer_size
      → (announce_finish env results r).broadcast ≡ r.broadcast ++ body ∷ []
  unfolding announce_finish send_message offer
  broadcast-announce_finish results r body e l =
      match_rule Sent (env.marshal (race_finished (map to_json results))) (λ h. ground arith)
        (λ b h.
          if_rule Sent (ltb (length r.broadcast) broadcast_buffer_size) (λ _. ground arith)
            (λ f. ground arith))
    where
      Sent : RoomActor → Type 0
      Sent x = x.broadcast ≡ r.broadcast ++ body ∷ []

  -- The end of a race reaches the bus: when the results are encoded and the channel has room, the
  -- room's context is done once they are announced, and then, however many messages the `select`
  -- picks before it picks the context, all that was in the channel is published, then the results,
  -- then the end of the room, and nothing after it.
  pub results_reach_bus :
      (n : ℕ) (later : List Pick) (results : List ParticipantResult) (r : RoomActor)
      (body : Payload)
      → env.marshal (race_finished (map to_json results)) ≡ some body
      → length r.broadcast < broadcast_buffer_size
      → let d : Drain = record {
        actor = announce_finish env results r;
        bus_calls = [];
        returned = false;
      } in
        (drain_broadcast (messages n (done ∷ later)) d).bus_calls
        ≡ published (r.broadcast ++ body ∷ []) (publish_room_closed ∷ [])
  unfolding announce_finish
  results_reach_bus n later results r body e l =
      let d : Drain = record {
        actor = announce_finish env results r;
        bus_calls = [];
        returned = false;
      } in
      drain_broadcast_lem n later d refl refl
      ∙ ap (λ ms. published ms (publish_room_closed ∷ []))
          (broadcast-announce_finish results r body e l)
