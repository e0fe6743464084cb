-- ===== src/Room/Endings.antt =====
-- Rules for the parts of backend/internal/room/room.go that end a race: to prove a property of the
-- state behind them, prove it of each state that they can leave.
use aviron.Base.{
  ◌+◌, ◌≡◌, true, false, List, [], ◌∷◌, ◌++◌, Option, none, some, ltb, length, if_rule, match_rule,
  map,
}
use aviron.Base.Dict
use aviron.Room.State.{
  Payload, Error, ParticipantResult, Message, race_expired, race_finished, publish_race_finished,
  finish_race, cancel_race, RoomActor,
}
use aviron.Room.Env.{Env}
use aviron.Room.Actor.{
  broadcast_buffer_size, to_json, perform, offer, send_message, broadcast_race_expired,
  expire_pending_room, snapshot, broadcast_snapshot, race_results, announce_finish,
  finish_race_with, any_racing, check_race_finished,
}

module _ (env : Env) where
  -- A broadcast changes the broadcast channel alone.
  pub send_message_rule {ℓ} :
      (P : RoomActor → Type ℓ) (m : Message) (r : RoomActor)
      → ((ms : List Payload) → P (record r { broadcast = ms }))
      → P (send_message env m r)
  unfolding send_message offer
  send_message_rule P m r any =
      match_rule P (env.marshal m) (λ _. any r.broadcast)
        (λ b _.
          if_rule P (ltb (length r.broadcast) broadcast_buffer_size)
            (λ _. any (r.broadcast ++ b ∷ [])) (λ _. any r.broadcast))

  pub broadcast_snapshot_rule {ℓ} :
      (P : RoomActor → Type ℓ) (r : RoomActor)
      → ((ms : List Payload) → P (record r { tick_count = r.tick_count + 1; broadcast = ms }))
      → P (broadcast_snapshot env r)
  unfolding broadcast_snapshot
  broadcast_snapshot_rule P r any = send_message_rule P (snapshot env r) _ any

  pub expire_pending_room_rule {ℓ} :
      (P : RoomActor → Type ℓ) (r : RoomActor)
      → ((e : Error) → P (record r { calls = (cancel_race r.id, some e) ∷ r.calls }))
      → ((ms : List Payload)
          → P (record r {
            broadcast = ms;
            finished = true;
            cancelled = true;
            calls = (cancel_race r.id, none) ∷ r.calls;
          }))
      → P (expire_pending_room env r)
  unfolding expire_pending_room broadcast_race_expired
  expire_pending_room_rule P r failed done =
      match_rule P (env.answer r (cancel_race r.id))
        (λ e.
          send_message_rule (λ s. P (record s { finished = true; cancelled = true })) race_expired
            (perform env (cancel_race r.id) r) (λ ms. rw e (done ms)))
        (λ x e. rw e (failed x))

  announce_finish_rule {ℓ} :
      (P : RoomActor → Type ℓ) (results : List ParticipantResult) (r : RoomActor)
      → ((ms : List Payload) (answer : Option Error)
          → P (record r {
            broadcast = ms;
            finished = true;
            cancelled = true;
            calls = (publish_race_finished r.id results, answer) ∷ r.calls;
          }))
      → P (announce_finish env results r)
  unfolding announce_finish
  announce_finish_rule P results r done =
      let marked : RoomActor = record r { finished = true } in
      send_message_rule (λ s. P (record s { cancelled = true }))
        (race_finished (map to_json results))
        (perform env (publish_race_finished r.id results) marked) (λ ms. done ms _)

  pub finish_race_with_rule {ℓ} :
      (P : RoomActor → Type ℓ) (results : List ParticipantResult) (r : RoomActor)
      → ((ms : List Payload) (e : Error) (s : RoomActor)
          → env.answer s (finish_race r.id r.distance_meters results) ≡ some e
          → P (record r {
            tick_count = r.tick_count + 1;
            broadcast = ms;
            calls = (finish_race r.id r.distance_meters results, some e) ∷ r.calls;
          }))
      → ((ms : List Payload) (answer : Option Error)
          → P (record r {
            tick_count = r.tick_count + 1;
            broadcast = ms;
            finished = true;
            cancelled = true;
            calls =
                (publish_race_finished r.id results, answer)
                ∷ (finish_race r.id r.distance_meters results, none)
                ∷ r.calls;
          }))
      → P (finish_race_with env results r)
  unfolding finish_race_with
  finish_race_with_rule P results r failed done =
      broadcast_snapshot_rule
        (λ s. P (
          let call = finish_race s.id s.distance_meters results in
          elim (env.answer s call) [
            | some e ↦ perform env call s
            | none ↦ announce_finish env results (perform env call s)
          ]))
        r
        (λ ms.
          match_rule P
            (env.answer (record r { tick_count = r.tick_count + 1; broadcast = ms })
              (finish_race r.id r.distance_meters results))
            (λ e. announce_finish_rule P results _ (λ ms' a. rw e (done ms' a)))
            (λ x e. rw e (failed ms x _ e)))

  -- The race ends only in a room that is not finished, and where nobody is racing any more.
  pub check_race_finished_rule {ℓ} :
      (P : RoomActor → Type ℓ) (r : RoomActor)
      → P r
      → (r.finished ≡ false
          → any_racing (Dict.values r.participants) ≡ false
          → r.active ≡ true
          → P (finish_race_with env (race_results env r) r))
      → (r.finished ≡ false
          → any_racing (Dict.values r.participants) ≡ false
          → r.active ≡ false
          → P (expire_pending_room env r))
      → P (check_race_finished env r)
  unfolding check_race_finished
  check_race_finished_rule P r same finishes expires =
      if_rule P r.finished (λ _. same)
        (λ f.
          if_rule P (any_racing (Dict.values r.participants)) (λ _. same)
            (λ n. if_rule P r.active (finishes f n) (expires f n)))
