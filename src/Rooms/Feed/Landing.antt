-- ===== src/Rooms/Feed/Landing.antt =====
-- From Send into the inbox of a room, and out of it.
use mathlib.Core.List.{append_assoc, append-nil}
use text.Mathlib.Text.{◌==◌}
use aviron.Base.{
  All, String, ◌≡◌, refl, sym, ap, ◌∙◌, Bool, true, false, List, [], ◌∷◌, ◌++◌, Option, none, some,
  length, ltb, arith, if_rule, match_rule, list_rule, if◌then◌else◌,
}
use aviron.Room.State.{Payload, RoomEvent, RoomActor}
use aviron.Room.Env.{Env}
use aviron.Room.Actor.{inbox_size}
use aviron.Room.Run.{Turn, receive, tick, done, send, drain, cancel, send_event, take_turn}
use aviron.Room.Inbox.{taken_at, accepted, take_turn_inbox}
use aviron.Protocol.{Codec, InboundEnvelope}
use aviron.Protocol.Decoding.{player_of}
use aviron.Rooms.Feed.{
  Feed, FeedTurn, arrives, relay, adapt, feed, enqueue, give_up, room_turn, subscription_buffer,
  take_arrival, relay_next, adapt_next, feed_next, return_from_send, enqueue_next, take_room_turn,
  feed_turn, feed_inbox,
}

-- The events of a player.
abbrev pub is_of : String → RoomEvent → Bool
is_of u ev = elim (player_of ev) [ none ↦ false | some v ↦ v == u ]

abbrev pub of_player : String → List RoomEvent → List RoomEvent
of_player u [] = []
of_player u (ev ∷ evs) = let rest = of_player u evs in if is_of u ev then ev ∷ rest else rest

pub of_player-append :
    (u : String) (xs ys : List RoomEvent)
    → of_player u (xs ++ ys) ≡ of_player u xs ++ of_player u ys
of_player-append u [] ys = refl
of_player-append u (x ∷ xs) ys =
    if_rule
      (λ zs. zs ≡ (if is_of u x then x ∷ of_player u xs else of_player u xs) ++ of_player u ys)
      (is_of u x) (λ e. rw e (ap (λ zs. x ∷ zs) (of_player-append u xs ys)))
      (λ e. rw e (of_player-append u xs ys))

-- The other callers of Send are timers and handlers of the server: no event of theirs is a player's
-- message or lost connection.
abbrev pub Serves : FeedTurn → Type 0
Serves (room_turn (send ev)) = player_of ev ≡ none
Serves _ = Unit

module _ (u : String) where
  -- As long as the room's context is not done, the player's events whose Send has returned are those
  -- that Run has received, then those in the inbox.
  abbrev pub Lands : Feed → Type 0
  Lands f =
      f.actor.cancelled ≡ false → of_player u f.handed ≡ of_player u (f.received ++ f.actor.inbox)

  take_arrival-Lands : (p : Payload) (f : Feed) → Lands f → Lands (take_arrival p f)
  unfolding take_arrival
  take_arrival-Lands p f v =
      if_rule Lands (ltb (length f.msgs) subscription_buffer) (λ _. v) (λ _. v)

  relay_next-Lands :
      (unmarshal : Payload → Option InboundEnvelope) (f : Feed)
      → Lands f
      → Lands (relay_next unmarshal f)
  unfolding relay_next
  relay_next-Lands unmarshal f v =
      match_rule Lands f.relayed
        (λ _.
          list_rule Lands f.msgs v (λ p rest _. match_rule Lands (unmarshal p) (λ _. v) (λ _ _. v)))
        (λ _ _. v)

  adapt_next-Lands : (codec : Codec) (f : Feed) → Lands f → Lands (adapt_next codec f)
  unfolding adapt_next
  adapt_next-Lands codec f v =
      match_rule Lands f.adapted (λ _. match_rule Lands f.relayed (λ _. v) (λ _ _. v)) (λ _ _. v)

  feed_next-Lands : (f : Feed) → Lands f → Lands (feed_next f)
  unfolding feed_next
  feed_next-Lands f v = match_rule Lands f.sending (λ _. v) (λ _ _. v)

  -- An event that is put into the inbox.
  enqueued :
      (ev : RoomEvent) (f : Feed)
      → Lands f
      → ltb (length f.actor.inbox) inbox_size ≡ true
      → Lands
          (record f { actor = send_event ev f.actor; sending = none; handed = f.handed ++ ev ∷ [] })
  unfolding send_event
  enqueued ev f v room =
      let r = f.actor in
      if_rule
        (λ (a : RoomActor).
          Lands (record f { actor = a; sending = none; handed = f.handed ++ ev ∷ [] }))
        (ltb (length r.inbox) inbox_size)
        (λ _ c.
          of_player-append u f.handed (ev ∷ [])
          ∙ ap (λ xs. xs ++ of_player u (ev ∷ [])) (v c)
          ∙ sym (of_player-append u (f.received ++ r.inbox) (ev ∷ []))
          ∙ ap (of_player u) (append_assoc f.received r.inbox (ev ∷ [])))
        (λ full. ground (arith, room, full))

  enqueue_next-Lands : (f : Feed) → Lands f → Lands (enqueue_next f)
  unfolding enqueue_next return_from_send
  enqueue_next-Lands f = by_case f.sending
    where
      by_case :
          (s : Option RoomEvent)
          → Lands (record f { sending = s })
          → Lands (enqueue_next (record f { sending = s }))
      by_case none v = v
      by_case (some ev) v =
          if_rule Lands (ltb (length f.actor.inbox) inbox_size) (enqueued ev f v) (λ _. v)

  -- An event that is discarded, in a room whose context is done.
  give_up-Lands : (f : Feed) → Lands f → Lands (return_from_send f.actor.cancelled f.actor f)
  unfolding return_from_send
  give_up-Lands f v =
      match_rule Lands f.sending (λ _. v)
        (λ ev _. if_rule Lands f.actor.cancelled (λ e c. ground (arith, e, c)) (λ _. v))

  accepted-Serves :
      (t : Turn) (r : RoomActor) → Serves (room_turn t) → of_player u (accepted t r) ≡ []
  accepted-Serves (send ev) r h =
      if_rule (λ xs. of_player u xs ≡ []) (ltb (length r.inbox) inbox_size) (λ _. ground (arith, h))
        (λ _. refl)
  accepted-Serves receive r h = refl
  accepted-Serves tick r h = refl
  accepted-Serves done r h = refl
  accepted-Serves drain r h = refl
  accepted-Serves cancel r h = refl

  before : (b b' : Bool) → (b ≡ true → b' ≡ true) → b' ≡ false → b ≡ false
  before true b' h c = ground (arith, h refl, c)
  before false b' h c = refl

  take_room_turn-Lands :
      (env : Env) (t : Turn) (f : Feed)
      → Serves (room_turn t)
      → Lands f
      → Lands (take_room_turn env t f)
  unfolding take_room_turn
  take_room_turn-Lands env t f serves v c =
      let r = f.actor in
      let r' = take_turn env t r in
      let (moved, stops) = take_turn_inbox env t r in
      let inbox =
        append_assoc f.received (taken_at t r.inbox) r'.inbox
        ∙ ap (λ xs. f.received ++ xs) moved
        ∙ sym (append_assoc f.received r.inbox (accepted t r)) in
      v (before r.cancelled r'.cancelled stops c)
      ∙ sym (append-nil (of_player u (f.received ++ r.inbox)))
      ∙ ap (λ xs. of_player u (f.received ++ r.inbox) ++ xs) (sym (accepted-Serves t r serves))
      ∙ sym (of_player-append u (f.received ++ r.inbox) (accepted t r))
      ∙ ap (of_player u) (sym inbox)

  module _ (env : Env) (codec : Codec) (unmarshal : Payload → Option InboundEnvelope) where
    feed_turn-Lands :
        (t : FeedTurn) (f : Feed) → Serves t → Lands f → Lands (feed_turn env codec unmarshal t f)
    unfolding feed_turn
    feed_turn-Lands (arrives p) f h v = take_arrival-Lands p f v
    feed_turn-Lands relay f h v = relay_next-Lands unmarshal f v
    feed_turn-Lands adapt f h v = adapt_next-Lands codec f v
    feed_turn-Lands feed f h v = feed_next-Lands f v
    feed_turn-Lands enqueue f h v = enqueue_next-Lands f v
    feed_turn-Lands give_up f h v = give_up-Lands f v
    feed_turn-Lands (room_turn t) f h v = take_room_turn-Lands env t f h v

    -- Under every schedule in which no other goroutine
    -- sends a player's events, and as long as the room's context is not done, the events of a player
    -- whose Send has returned are, in their order, those of the player that Run has received, then
    -- those in the inbox.
    pub feed_inbox-Lands :
        (turns : List FeedTurn) (f : Feed)
        → All Serves turns
        → Lands f
        → Lands (feed_inbox env codec unmarshal turns f)
    unfolding feed_inbox
    feed_inbox-Lands [] f h v = v
    feed_inbox-Lands (t ∷ ts) f h v =
        feed_inbox-Lands ts (feed_turn env codec unmarshal t f) (h.1) (feed_turn-Lands t f (h.0) v)
