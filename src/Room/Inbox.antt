-- ===== src/Room/Inbox.antt =====
-- The inbox of a room, backend/internal/room/room.go: only the `select` of Run takes events out, and
-- only Send puts them in.
use mathlib.Core.List.{append-nil}
use aviron.Base.{
  ◌≡◌, refl, sym, ap, ◌∙◌, Bool, true, List, [], ◌∷◌, ◌++◌, ltb, length, if_rule, list_rule,
  if◌then◌else◌,
}
use aviron.Room.State.{RoomEvent, RoomActor}
use aviron.Room.Env.{Env}
use aviron.Room.Actor.{inbox_size, race_results, expire_pending_room, check_race_finished}
use aviron.Room.Apply.{apply_event}
use aviron.Room.Events.{apply_event-keeps}
use aviron.Room.Endings.{
  broadcast_snapshot_rule, expire_pending_room_rule, finish_race_with_rule,
  check_race_finished_rule,
}
use aviron.Room.Run.{
  Turn, receive, tick, done, send, drain, cancel, send_event, on_tick, receive_event, take_turn,
}

-- What a turn takes out of an inbox, and what it puts in.
abbrev pub taken_at : Turn → List RoomEvent → List RoomEvent
taken_at receive (ev ∷ evs) = ev ∷ []
taken_at _ _ = []

abbrev pub accepted : Turn → RoomActor → List RoomEvent
accepted (send ev) r = if ltb (length r.inbox) inbox_size then ev ∷ [] else []
accepted _ r = []

module _ (env : Env) (evs : List RoomEvent) (was : Bool) where
  -- The inbox is that one, and a context that was done is done.
  abbrev Stays : RoomActor → Type 0
  Stays r = (r.inbox ≡ evs) × (was ≡ true → r.cancelled ≡ true)

  expire_pending_room-Stays : (r : RoomActor) → Stays r → Stays (expire_pending_room env r)
  expire_pending_room-Stays r v =
      expire_pending_room_rule env Stays r (λ e. v) (λ ms. (v.0, λ _. refl))

  check_race_finished-Stays : (r : RoomActor) → Stays r → Stays (check_race_finished env r)
  check_race_finished-Stays r v =
      check_race_finished_rule env Stays r v
        (λ _ _ _.
          finish_race_with_rule env Stays (race_results env r) r (λ ms e s _. v)
            (λ ms a. (v.0, λ _. refl)))
        (λ _ _ _. expire_pending_room-Stays r v)

  apply_event-Stays : (ev : RoomEvent) (r : RoomActor) → Stays r → Stays (apply_event env ev r)
  apply_event-Stays ev r v =
      apply_event-keeps env Stays (λ _. Unit) (λ r' live gone out seen ticks count ms w. w)
        (λ c r' _ w. w) (λ r' w. w) (λ r' _ _ w. expire_pending_room-Stays r' w)
        (λ r' _ w. check_race_finished-Stays r' w) ev r v tt

  on_tick-Stays : (r : RoomActor) → Stays r → Stays (on_tick env r)
  unfolding on_tick
  on_tick-Stays r v = broadcast_snapshot_rule env Stays r (λ ms. v)

-- What a turn of the loop, or of another goroutine, does to the inbox and the context.
pub take_turn_inbox :
    (env : Env) (t : Turn) (r : RoomActor)
    → (taken_at t r.inbox ++ (take_turn env t r).inbox ≡ r.inbox ++ accepted t r)
      × (r.cancelled ≡ true → (take_turn env t r).cancelled ≡ true)
unfolding take_turn receive_event send_event
take_turn_inbox env receive r = by_case r.inbox refl
  where
    by_case :
        (evs : List RoomEvent)
        → r.inbox ≡ evs
        → let r' = elim evs as (λ _. RoomActor) [
          | [] ↦ r
          | ev ∷ rest ↦ apply_event env ev (record r { inbox = rest })
        ] in
          (taken_at receive evs ++ r'.inbox ≡ evs ++ [])
          × (r.cancelled ≡ true → r'.cancelled ≡ true)
    by_case [] e = (e, λ c. c)
    by_case (ev ∷ rest) e =
        let (same, stops) =
          apply_event-Stays env rest r.cancelled ev (record r { inbox = rest }) (refl, λ c. c) in
        (ap (λ es. ev ∷ es) same ∙ sym (append-nil (ev ∷ rest)), stops)
take_turn_inbox env tick r =
    let (same, stops) = on_tick-Stays env r.inbox r.cancelled r (refl, λ c. c) in
    (same ∙ sym (append-nil r.inbox), stops)
take_turn_inbox env done r = (sym (append-nil r.inbox), λ c. c)
take_turn_inbox env (send ev) r =
    if_rule
      (λ (x : RoomActor).
        (x.inbox ≡ r.inbox ++ accepted (send ev) r) × (r.cancelled ≡ true → x.cancelled ≡ true))
      (ltb (length r.inbox) inbox_size) (λ e. (rw e refl, λ c. c))
      (λ e. (rw e (sym (append-nil r.inbox)), λ c. c))
take_turn_inbox env drain r =
    list_rule
      (λ (x : RoomActor). (x.inbox ≡ r.inbox ++ []) × (r.cancelled ≡ true → x.cancelled ≡ true))
      r.broadcast (sym (append-nil r.inbox), λ c. c) (λ m ms _. (sym (append-nil r.inbox), λ c. c))
take_turn_inbox env cancel r = (sym (append-nil r.inbox), λ c. refl)
