-- ===== src/Rooms/Feed/Order.antt =====
-- The order of events between the subscription and the inbox.
use mathlib.Core.List.{append_assoc, append-nil}
use aviron.Base.{
  ◌≡◌, refl, sym, ap, ◌∙◌, Bool, List, [], ◌∷◌, ◌++◌, Option, none, some, length, ltb, if_rule,
  match_rule,
}
use aviron.Room.State.{Payload, RoomEvent, RoomActor}
use aviron.Room.Actor.{inbox_size}
use aviron.Room.Env.{Env}
use aviron.Room.Run.{send_event}
use aviron.Protocol.{Codec, InboundEnvelope, to_room_event}
use aviron.Rooms.Feed.{
  Feed, FeedTurn, arrives, relay, adapt, feed, enqueue, give_up, room_turn, new_feed,
  subscription_buffer, take_arrival, relay_next, adapt_next, feed_next, return_from_send,
  take_room_turn, enqueue_next, feed_turn, feed_inbox,
}

-- An optional element as a list.
abbrev pub held {ℓ} : {A : Type ℓ} → Option A → List A
held none = []
held (some a) = a ∷ []

module _ (codec : Codec) (unmarshal : Payload → Option InboundEnvelope) where
  -- The event of an envelope, and the events of messages.
  abbrev pub event_of : Option InboundEnvelope → List RoomEvent
  event_of none = []
  event_of (some env) = held (to_room_event codec env)

  abbrev pub events_of : List Payload → List RoomEvent
  events_of [] = []
  events_of (p ∷ ps) = event_of (unmarshal p) ++ events_of ps

  -- What is on the way, the oldest first.
  abbrev pub on_the_way : Feed → List RoomEvent
  on_the_way f = held f.sending ++ (held f.adapted ++ (event_of f.relayed ++ events_of f.msgs))

  abbrev pub IsInOrder : Feed → Type 0
  IsInOrder f = events_of f.arrived ≡ f.handed ++ on_the_way f

  events_of-added :
      (ps : List Payload) (p : Payload)
      → events_of (ps ++ p ∷ []) ≡ events_of ps ++ event_of (unmarshal p)
  events_of-added [] p = append-nil (event_of (unmarshal p))
  events_of-added (q ∷ ps) p =
      ap (λ xs. event_of (unmarshal q) ++ xs) (events_of-added ps p)
      ∙ sym (append_assoc (event_of (unmarshal q)) (events_of ps) (event_of (unmarshal p)))

  -- What comes last comes behind all that is on the way.
  behind :
      (h s a r e x : List RoomEvent)
      → (h ++ (s ++ (a ++ (r ++ e)))) ++ x ≡ h ++ (s ++ (a ++ (r ++ (e ++ x))))
  behind h s a r e x =
      append_assoc h (s ++ (a ++ (r ++ e))) x
      ∙ ap (λ ys. h ++ ys)
          (append_assoc s (a ++ (r ++ e)) x
            ∙ ap (λ ys. s ++ ys)
                (append_assoc a (r ++ e) x ∙ ap (λ ys. a ++ ys) (append_assoc r e x)))

  take_arrival-IsInOrder : (p : Payload) (f : Feed) → IsInOrder f → IsInOrder (take_arrival p f)
  unfolding take_arrival
  take_arrival-IsInOrder p f v =
      let x = event_of (unmarshal p) in
      if_rule IsInOrder (ltb (length f.msgs) subscription_buffer)
        (λ _.
          events_of-added f.arrived p
          ∙ ap (λ ys. ys ++ x) v
          ∙ behind f.handed (held f.sending) (held f.adapted) (event_of f.relayed)
              (events_of f.msgs) x
          ∙ ap
              (λ ys. f.handed ++ (held f.sending ++ (held f.adapted ++ (event_of f.relayed ++ ys))))
              (sym (events_of-added f.msgs p)))
        (λ _. v)

  relay_next-IsInOrder : (f : Feed) → IsInOrder f → IsInOrder (relay_next unmarshal f)
  unfolding relay_next
  relay_next-IsInOrder f = by_case f.relayed f.msgs
    where
      decoded :
          (o : Option InboundEnvelope) (rest : List Payload)
          → events_of f.arrived
            ≡ f.handed ++ (held f.sending ++ (held f.adapted ++ (event_of o ++ events_of rest)))
          → IsInOrder (elim o as (λ _. Feed) [
            | none ↦ record f { relayed = none; msgs = rest }
            | some env ↦ record f { msgs = rest; relayed = some env }
          ])
      decoded none rest v = v
      decoded (some env) rest v = v

      by_case :
          (r : Option InboundEnvelope) (ms : List Payload)
          → IsInOrder (record f { relayed = r; msgs = ms })
          → IsInOrder (relay_next unmarshal (record f { relayed = r; msgs = ms }))
      by_case (some env) ms v = v
      by_case none [] v = v
      by_case none (p ∷ rest) v = decoded (unmarshal p) rest v

  adapt_next-IsInOrder : (f : Feed) → IsInOrder f → IsInOrder (adapt_next codec f)
  unfolding adapt_next
  adapt_next-IsInOrder f = by_case f.adapted f.relayed
    where
      by_case :
          (a : Option RoomEvent) (r : Option InboundEnvelope)
          → IsInOrder (record f { adapted = a; relayed = r })
          → IsInOrder (adapt_next codec (record f { adapted = a; relayed = r }))
      by_case (some ev) r v = v
      by_case none none v = v
      by_case none (some env) v = v

  feed_next-IsInOrder : (f : Feed) → IsInOrder f → IsInOrder (feed_next f)
  unfolding feed_next
  feed_next-IsInOrder f = by_case f.sending f.adapted
    where
      by_case :
          (s a : Option RoomEvent)
          → IsInOrder (record f { sending = s; adapted = a })
          → IsInOrder (feed_next (record f { sending = s; adapted = a }))
      by_case (some ev) a v = v
      by_case none a v = v

  return_from_send-IsInOrder :
      (ready : Bool) (actor : RoomActor) (f : Feed)
      → IsInOrder f
      → IsInOrder (return_from_send ready actor f)
  unfolding return_from_send
  return_from_send-IsInOrder ready actor f = by_case f.sending
    where
      by_case :
          (s : Option RoomEvent)
          → IsInOrder (record f { sending = s })
          → IsInOrder (return_from_send ready actor (record f { sending = s }))
      by_case none v = v
      by_case (some ev) v =
          if_rule IsInOrder ready
            (λ _.
              v
              ∙ sym (
                  append_assoc f.handed (ev ∷ [])
                    (held f.adapted ++ (event_of f.relayed ++ events_of f.msgs))))
            (λ _. v)

  enqueue_next-IsInOrder : (f : Feed) → IsInOrder f → IsInOrder (enqueue_next f)
  unfolding enqueue_next
  enqueue_next-IsInOrder f v =
      match_rule IsInOrder f.sending (λ _. v)
        (λ ev _.
          return_from_send-IsInOrder (ltb (length f.actor.inbox) inbox_size) (send_event ev f.actor)
            f v)

  feed_turn-IsInOrder :
      (env : Env) (t : FeedTurn) (f : Feed)
      → IsInOrder f
      → IsInOrder (feed_turn env codec unmarshal t f)
  unfolding feed_turn take_room_turn
  feed_turn-IsInOrder env (arrives p) f v = take_arrival-IsInOrder p f v
  feed_turn-IsInOrder env relay f v = relay_next-IsInOrder f v
  feed_turn-IsInOrder env adapt f v = adapt_next-IsInOrder f v
  feed_turn-IsInOrder env feed f v = feed_next-IsInOrder f v
  feed_turn-IsInOrder env enqueue f v = enqueue_next-IsInOrder f v
  feed_turn-IsInOrder env give_up f v = return_from_send-IsInOrder f.actor.cancelled f.actor f v
  feed_turn-IsInOrder env (room_turn t) f v = v

  feed_inbox-keeps :
      (env : Env) (turns : List FeedTurn) (f : Feed)
      → IsInOrder f
      → IsInOrder (feed_inbox env codec unmarshal turns f)
  unfolding feed_inbox
  feed_inbox-keeps env [] f v = v
  feed_inbox-keeps env (t ∷ ts) f v = feed_inbox-keeps env ts _ (feed_turn-IsInOrder env t f v)

  -- From Spawn on, under every schedule of the goroutines, of NATS and of the room: the events of the
  -- messages that the subscription has taken are, in their order, those for which Send has returned,
  -- then those on the way.
  pub feed_inbox-IsInOrder :
      (env : Env) (turns : List FeedTurn) (actor : RoomActor)
      → IsInOrder (feed_inbox env codec unmarshal turns (new_feed actor))
  feed_inbox-IsInOrder env turns actor = feed_inbox-keeps env turns (new_feed actor) refl
