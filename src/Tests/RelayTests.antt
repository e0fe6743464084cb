-- ===== src/Tests/RelayTests.antt =====
-- From a room to the players, backend/internal/roomrelay and backend/internal/roombus.
use aviron.Base.{
  Bool, List, length, zero, suc, ◌≡◌, refl, true, false, [], ◌∷◌, ◌++◌, map, Option, none, some,
  arith,
}
use aviron.Room.State.{Payload}
use aviron.Room.Actor.{announce_finish, new_room_actor}
use aviron.Rooms.Drain.{Drain, done, drain_broadcast}
use aviron.Rooms.Drain.Delivery.{messages}
use aviron.Gateway.Hub.{
  RaceHub, OutboundEnvelope, broadcast, room_closed, other, envelope, register, run,
}
use aviron.Gateway.Hub.Delivery.{queue_all}
use aviron.Relay.{Nats, publish_all, relayed, out_subject}
use aviron.Relay.Players.{Carries, results_reach_players}
use aviron.Base.Dict
use aviron.Base.Int.{pos}
use aviron.Protocol.{
  Codec, message_to_room_event, InboundEnvelope, kind_message, kind_disconnected, forward,
  decode_client_message, to_room_event,
}
use aviron.Gateway.Session.{frame, read_loop}
use aviron.Gateway.Session.Frames.{sent, EndsWithGoodbye}
use aviron.Room.Run.{send_event, take_turn, receive_event, receive, send}
use aviron.Room.Apply.{apply_event, on_disconnected}
use aviron.Room.State.{no_show_timeout}
use aviron.Rooms.Feed.{
  FeedTurn, arrives, relay, adapt, feed, enqueue, new_feed, feed_inbox, feed_turn, take_arrival,
  relay_next, adapt_next, feed_next, enqueue_next, return_from_send, room_turn, take_room_turn,
}
use aviron.Rooms.Feed.Order.{on_the_way}
use aviron.Rooms.Feed.Landing.{of_player}
use aviron.Relay.Inbound.{encoded, frames_reach_room}
use aviron.Tests.Fixtures.{calm, room_with, bob_only}

-- A tag, and the payload of a broadcast; one without a payload is refused.
abbrev tagged : OutboundEnvelope → Option Payload
tagged (broadcast []) = none
tagged (broadcast (b ∷ bs)) = some (0 ∷ b ∷ bs)
tagged room_closed = some (1 ∷ [])
tagged other = some (2 ∷ [])

abbrev untagged : Payload → Option OutboundEnvelope
untagged [] = none
untagged (zero ∷ p) = some (broadcast p)
untagged (suc zero ∷ p) = some room_closed
untagged (suc (suc n) ∷ p) = some other

abbrev faithful : Nats
faithful = record { marshal = tagged; unmarshal = untagged; publish_msg = λ sent m. none }

abbrev is_some_json : Payload → Bool
is_some_json [] = false
is_some_json (b ∷ bs) = true

untagged-tagged :
    (p : Payload)
    → is_some_json p ≡ true
    → (bytes : Payload) × (tagged (broadcast p) ≡ some bytes)
      × (untagged bytes ≡ some (broadcast p))
untagged-tagged [] h = ground (arith, h)
untagged-tagged (b ∷ bs) h = (0 ∷ b ∷ bs, refl, refl)

abbrev carried : Carries faithful
carried = record {
  is_json = is_some_json;
  encodes_broadcast = untagged-tagged;
  encodes_closed = (1 ∷ [], refl, refl);
  takes = λ sent m. refl;
}

abbrev two_players : RaceHub
two_players = record {
  conns =
      record { ch = 1; queue = []; cancelled = false }
      ∷ record { ch = 2; queue = (9 ∷ []) ∷ []; cancelled = false }
      ∷ [];
  conn_count = 2;
  closed = false;
}

results_reach_players_example :
    let d : Drain = record {
      actor = announce_finish calm [] (room_with true bob_only);
      bus_calls = [];
      returned = false;
    } in
    let calls = (drain_broadcast (messages 0 (done ∷ [])) d).bus_calls in
    let received = relayed faithful (out_subject "r1") (publish_all faithful "r1" calls []) in
    let end = run (map envelope received ++ register 3 ∷ []) two_players in
    (end.conns ≡ queue_all ((4 ∷ []) ∷ []) two_players.conns) × (end.closed ≡ true)
results_reach_players_example =
    results_reach_players faithful carried "r1" calm 0 [] [] (room_with true bob_only) (4 ∷ []) refl
      (omega arith) (refl, tt) (register 3 ∷ []) two_players refl (omega arith, (omega arith, tt))

-- Every frame says that its player leaves.
abbrev all_leave : Codec
all_leave = record {
  unmarshal =
      λ bytes. some (record { type = "leave_race"; seq = pos 0; distance_m = 0; pace_watt = 0 });
  int_of = λ f. pos f;
}

-- Ann leaves, and Bob's connection is lost.
abbrev ann_leaves : InboundEnvelope
ann_leaves = record { kind = kind_message; user_id = "ann"; display_name = "Ann"; message = 7 ∷ [] }

abbrev bob_lost : InboundEnvelope
bob_lost = record { kind = kind_disconnected; user_id = "bob"; display_name = "Bob"; message = [] }

abbrev written : InboundEnvelope → Option Payload
written env = elim env.message [ [] ↦ some (2 ∷ []) | b ∷ bs ↦ some (1 ∷ []) ]

abbrev read : Payload → Option InboundEnvelope
read [] = none
read (zero ∷ p) = none
read (suc zero ∷ p) = some ann_leaves
read (suc (suc n) ∷ p) = some bob_lost

-- Run receives the first of the two events, and the other one is offered to the inbox.
abbrev both_arrive : List FeedTurn
both_arrive =
    arrives (2 ∷ [])
    ∷ arrives (1 ∷ [])
    ∷ relay
    ∷ adapt
    ∷ relay
    ∷ feed
    ∷ enqueue
    ∷ room_turn receive
    ∷ room_turn (send no_show_timeout)
    ∷ adapt
    ∷ feed
    ∷ enqueue
    ∷ []

frames_reach_room_example :
    let f =
      feed_inbox calm all_leave read both_arrive (new_feed (new_room_actor calm "r1" (pos 3) 0)) in
    let published = sent (read_loop all_leave "ann" "Ann" (frame (7 ∷ []) true ∷ [])) in
    let evs = of_player "ann" ((f.received ++ f.actor.inbox) ++ on_the_way all_leave read f) in
    (evs ≡ forward all_leave published) × (length evs ≡ length published) × EndsWithGoodbye evs
unfolding feed_inbox feed_turn take_arrival relay_next adapt_next feed_next enqueue_next
    return_from_send take_room_turn send_event take_turn receive_event apply_event encoded read_loop
    decode_client_message to_room_event new_room_actor message_to_room_event on_disconnected
    Dict.get Dict.empty
frames_reach_room_example =
    frames_reach_room all_leave written read calm "ann" "Ann" (frame (7 ∷ []) true ∷ []) both_arrive
      "r1" (pos 3) 0 (bob_lost ∷ ann_leaves ∷ [])
      ((2 ∷ [], bob_lost, refl, refl, refl), ((1 ∷ [], ann_leaves, refl, refl, refl), tt))
      (tt, (tt, (tt, (tt, (tt, (tt, (tt, (tt, (refl, (tt, (tt, (tt, tt)))))))))))) refl refl refl
