-- ===== src/Relay/Players.antt =====
-- From a room to the connections of a gateway.
use mathlib.Core.List.{append_assoc, append-nil}
use text.Mathlib.TextEquality.{eq_iff}
use aviron.Base.{
  ℕ, ◌<◌, String, ◌≡◌, refl, sym, ap, ◌∙◌, subst, Bool, true, false, List, [], ◌∷◌, ◌++◌, map, none,
  some, length, arith, All,
}
use aviron.Room.State.{Payload, RoomActor, race_finished, ParticipantResult}
use aviron.Room.Env.{Env}
use aviron.Room.Actor.{announce_finish, broadcast_buffer_size, to_json}
use aviron.Rooms.Drain.{
  BusCall, publish_out, publish_room_closed, Drain, Pick, done, drain_broadcast,
}
use aviron.Rooms.Drain.Delivery.{published, messages, results_reach_bus}
use aviron.Gateway.Hub.{OutboundEnvelope, broadcast, RaceHub, HubInput, envelope, room_closed, run}
use aviron.Gateway.Hub.Delivery.{broadcasts, queue_all, HasRoom, closing_delivers_all}
use aviron.Relay.{Nats, Msg, publish, publish_all, relayed, out_subject, outbound}

-- A NATS that takes every message, and the encoding of envelopes. The payload of a broadcast is a
-- json.RawMessage with omitempty: it is read as it was written where it is a JSON value in the form
-- that json.Marshal writes, which no empty payload is; nothing is said of other payloads.
pub record Carries (nats : Nats) : Type 0 where
  pub is_json : Payload → Bool
  pub encodes_broadcast :
      (p : Payload)
      → is_json p ≡ true
      → (bytes : Payload) × (nats.marshal (broadcast p) ≡ some bytes)
        × (nats.unmarshal bytes ≡ some (broadcast p))
  pub encodes_closed :
      (bytes : Payload) × (nats.marshal room_closed ≡ some bytes)
      × (nats.unmarshal bytes ≡ some room_closed)
  pub takes : (sent : List Msg) (m : Msg) → nats.publish_msg sent m ≡ none

module _ (nats : Nats) (carries : Carries nats) (race_id : String) where
  relayed-append :
      (ms : List Msg) (m : Msg) (env : OutboundEnvelope)
      → m.subject ≡ out_subject race_id
      → nats.unmarshal m.bytes ≡ some env
      → relayed nats (out_subject race_id) (ms ++ m ∷ [])
        ≡ relayed nats (out_subject race_id) ms ++ env ∷ []
  unfolding relayed
  relayed-append [] m env s u = ground (arith, s, u, eq_iff m.subject (out_subject race_id))
  relayed-append (x ∷ ms) m env s u = ground (arith, relayed-append ms m env s u)

  abbrev IsJson : Payload → Type 0
  IsJson p = carries.is_json p ≡ true

  -- A call whose envelope is encoded.
  abbrev IsEncoded : BusCall → Type 0
  IsEncoded (publish_out p) = IsJson p
  IsEncoded publish_room_closed = Unit

  outbound_read :
      (c : BusCall)
      → IsEncoded c
      → (bytes : Payload) × (nats.marshal (outbound c) ≡ some bytes)
        × (nats.unmarshal bytes ≡ some (outbound c))
  outbound_read (publish_out p) h = carries.encodes_broadcast p h
  outbound_read publish_room_closed h = carries.encodes_closed

  relayed-publish_all :
      (calls : List BusCall) (sent : List Msg)
      → All IsEncoded calls
      → relayed nats (out_subject race_id) (publish_all nats race_id calls sent)
        ≡ relayed nats (out_subject race_id) sent ++ map outbound calls
  unfolding publish_all publish relayed
  relayed-publish_all [] sent h = sym (append-nil _)
  relayed-publish_all (c ∷ cs) sent h =
      let (bytes, encoded, read) = outbound_read c (h.0) in
      let m : Msg = record { subject = out_subject race_id; bytes = bytes } in
      let one : (publish nats none (out_subject race_id) (outbound c) sent).1 ≡ sent ++ m ∷ [] =
        ground (arith, encoded, carries.takes sent m) in
      relayed-publish_all cs _ (h.1)
      ∙ ap (λ ms. relayed nats (out_subject race_id) ms ++ map outbound cs) one
      ∙ ap (λ es. es ++ map outbound cs) (relayed-append sent m (outbound c) refl read)
      ∙ append_assoc (relayed nats (out_subject race_id) sent) (outbound c ∷ []) (map outbound cs)

  published-IsEncoded :
      (ms : List Payload) → All IsJson ms → All IsEncoded (published ms (publish_room_closed ∷ []))
  published-IsEncoded [] h = (tt, tt)
  published-IsEncoded (m ∷ ms) h = (h.0, published-IsEncoded ms (h.1))

  inputs_of :
      (ms : List Payload) (later : List HubInput)
      → map envelope (map outbound (published ms (publish_room_closed ∷ []))) ++ later
        ≡ broadcasts ms ++ envelope room_closed ∷ later
  inputs_of [] later = refl
  inputs_of (m ∷ ms) later =
      ap (λ xs. envelope (outbound (BusCall.publish_out m)) ∷ xs) (inputs_of ms later)

  -- The end of a race reaches the players: when the results are encoded, the room's channel has room
  -- for them, the channel's messages and the results are JSON as json.Marshal writes it, NATS takes
  -- and carries every message, and a gateway's hub runs, with room at each connection for what is in
  -- the channel and one more: once the results are announced, however many messages the room's `select` picks
  -- before it picks the context, and whatever the hub receives after the room's messages, every
  -- connection has all of the channel queued, then the results, behind what it had, and the hub is
  -- closed.
  pub results_reach_players :
      (env : Env) (n : ℕ) (picks : List Pick) (results : List ParticipantResult) (r : RoomActor)
      (body : Payload)
      → env.marshal (race_finished (map to_json results)) ≡ some body
      → length r.broadcast < broadcast_buffer_size
      → All (λ p. carries.is_json p ≡ true) (r.broadcast ++ body ∷ [])
      → (later : List HubInput) (h : RaceHub) → h.closed ≡ false
      → HasRoom (length (r.broadcast ++ body ∷ [])) h.conns
      → let d : Drain = record {
        actor = announce_finish env results r;
        bus_calls = [];
        returned = false;
      } in
        let calls = (drain_broadcast (messages n (done ∷ picks)) d).bus_calls in
        let received = relayed nats (out_subject race_id) (publish_all nats race_id calls []) in
        let h' = run (map envelope received ++ later) h in
        (h'.conns ≡ queue_all (r.broadcast ++ body ∷ []) h.conns) × (h'.closed ≡ true)
  unfolding relayed
  results_reach_players env n picks results r body e l json later h f room =
      let all = r.broadcast ++ body ∷ [] in
      let called = results_reach_bus env n picks results r body e l in
      let came =
        ap (λ cs. relayed nats (out_subject race_id) (publish_all nats race_id cs [])) called
        ∙ relayed-publish_all (published all (publish_room_closed ∷ [])) []
            (published-IsEncoded all json) in
      let fed = ap (λ es. map envelope es ++ later) came ∙ inputs_of all later in
      subst (λ is. ((run is h).conns ≡ queue_all all h.conns) × ((run is h).closed ≡ true))
        (sym fed) (closing_delivers_all all later h f room)
