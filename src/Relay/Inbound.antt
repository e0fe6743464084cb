-- ===== src/Relay/Inbound.antt =====
-- From a connection of a gateway to its room.
use text.Mathlib.Text.{◌==◌}
use aviron.Base.{
  All, String, ◌≡◌, refl, sym, ap, ◌∙◌, subst, false, List, [], ◌∷◌, ◌++◌, Option, none, some,
  length, arith, match_rule, if◌then◌else◌,
}
use aviron.Base.Int.{ℤ}
use aviron.Room.State.{Payload, Instant}
use aviron.Room.Env.{Env}
use aviron.Room.Actor.{new_room_actor}
use aviron.Protocol.{Codec, InboundEnvelope, to_room_event, forward}
use aviron.Protocol.Decoding.{to_room_event-player}
use aviron.Gateway.Session.{Read, read_loop}
use aviron.Gateway.Session.Frames.{
  sent, EndsWithGoodbye, read_loop-forwarded, read_loop-EndsWithGoodbye,
}
use aviron.Rooms.Feed.{FeedTurn, new_feed, feed_inbox}
use aviron.Rooms.Feed.Landing.{of_player, of_player-append, Serves, feed_inbox-Lands}
use aviron.Rooms.Feed.Order.{events_of, on_the_way, feed_inbox-IsInOrder}

-- What PublishIn puts on the bus for some envelopes.
unfoldable pub encoded : (InboundEnvelope → Option Payload) → List InboundEnvelope → List Payload
encoded marshal [] = []
encoded marshal (env ∷ envs) =
    let rest = encoded marshal envs in
    elim (marshal env) [ none ↦ rest | some bytes ↦ bytes ∷ rest ]

-- The envelopes of a user.
abbrev pub of_user : String → List InboundEnvelope → List InboundEnvelope
of_user u [] = []
of_user u (env ∷ envs) = let rest = of_user u envs in if env.user_id == u then env ∷ rest else rest

module _ (codec : Codec) where
  of_player-forward :
      (u : String) (envs : List InboundEnvelope)
      → of_player u (forward codec envs) ≡ forward codec (of_user u envs)
  unfolding forward
  of_player-forward u [] = refl
  of_player-forward u (env ∷ envs) =
      match_rule (λ x. of_player u x ≡ forward codec (of_user u (env ∷ envs)))
        (to_room_event codec env) (λ n. ground (arith, n, of_player-forward u envs))
        (λ ev e. ground (arith, e, to_room_event-player codec env ev e, of_player-forward u envs))

  module _ (marshal : InboundEnvelope → Option Payload)
      (unmarshal : Payload → Option InboundEnvelope) where
    -- An envelope that is encoded, and is read as one that says the same to the room: its message is a
    -- json.RawMessage, of which json.Marshal may change the white space.
    abbrev pub ReadsBack : InboundEnvelope → Type 0
    ReadsBack env =
        (bytes : Payload) × (read : InboundEnvelope) × (marshal env ≡ some bytes)
        × (unmarshal bytes ≡ some read)
        × (to_room_event codec read ≡ to_room_event codec env)

    events_of-encoded :
        (envs : List InboundEnvelope)
        → All ReadsBack envs
        → events_of codec unmarshal (encoded marshal envs) ≡ forward codec envs
    unfolding encoded forward
    events_of-encoded [] h = refl
    events_of-encoded (env ∷ envs) ((bytes, read, e, u, same), h) =
        ground (arith, e, u, same, events_of-encoded envs h)

    -- What a player does reaches the room: where envelopes are encoded and say the same when they are
    -- read, and the subscription has taken the envelopes of any players in some order, among them, in
    -- their order, those that the player's connection has published. From a new room on, under every
    -- schedule of the goroutines, of NATS and of the room in which nobody else sends events of players,
    -- and as long as the room's context is not done: the player's events that Run has received, then
    -- those in the inbox, then those on the way to it, are the events of these envelopes, one for each:
    -- none is dropped, doubled or overtaken, and only the last can say that the player is gone.
    pub frames_reach_room :
        (env : Env) (user_id display_name : String) (reads : List Read) (turns : List FeedTurn)
        (id : String) (distance_meters : ℤ) (started_at : Instant) (envs : List InboundEnvelope)
        → All ReadsBack envs
        → All Serves turns
        → (feed_inbox env codec unmarshal turns
            (new_feed (new_room_actor env id distance_meters started_at))).arrived
          ≡ encoded marshal envs
        → of_user user_id envs ≡ sent (read_loop codec user_id display_name reads)
        → (feed_inbox env codec unmarshal turns
            (new_feed (new_room_actor env id distance_meters started_at))).actor.cancelled
          ≡ false
        → let f =
            feed_inbox env codec unmarshal turns
              (new_feed (new_room_actor env id distance_meters started_at)) in
          let published = sent (read_loop codec user_id display_name reads) in
          let evs =
            of_player user_id ((f.received ++ f.actor.inbox) ++ on_the_way codec unmarshal f) in
          (evs ≡ forward codec published) × (length evs ≡ length published) × EndsWithGoodbye evs
    unfolding new_room_actor
    frames_reach_room env user_id display_name reads turns id distance_meters started_at envs
          read_back serves taken own running =
        let actor = new_room_actor env id distance_meters started_at in
        let f = feed_inbox env codec unmarshal turns (new_feed actor) in
        let way = on_the_way codec unmarshal f in
        let published = sent (read_loop codec user_id display_name reads) in
        let landed =
          feed_inbox-Lands user_id env codec unmarshal turns (new_feed actor) serves (λ _. refl)
            running in
        let order =
          sym (feed_inbox-IsInOrder codec unmarshal env turns actor)
          ∙ ap (events_of codec unmarshal) taken
          ∙ events_of-encoded envs read_back in
        let same =
          of_player-append user_id (f.received ++ f.actor.inbox) way
          ∙ ap (λ xs. xs ++ of_player user_id way) (sym landed)
          ∙ sym (of_player-append user_id f.handed way)
          ∙ ap (of_player user_id) order
          ∙ of_player-forward user_id envs
          ∙ ap (forward codec) own in
        (
          same,
          ap length same ∙ read_loop-forwarded codec user_id display_name reads,
          subst EndsWithGoodbye (sym same)
              (read_loop-EndsWithGoodbye codec user_id display_name reads),
        )
