-- ===== src/Room/Grace.antt =====
-- Reconnecting, and the grace period: ParticipantJoined, ParticipantDisconnected and
-- ParticipantEvicted of backend/internal/room/room.go.
use text.Mathlib.TextEquality.{eq_iff}
use aviron.Base.{
  String, ◌≡◌, refl, ap, ◌∙◌, true, false, Option, none, some, arith, is_some, if◌then◌else◌,
  length,
}
use aviron.Base.Dict
use aviron.Base.Dict.{Dict, get-store, get-delete}
use aviron.Room.State.{
  ParticipantState, participant_joined, participant_disconnected, participant_evicted, RoomActor,
}
use aviron.Room.Env.{Env}
use aviron.Room.Apply.{
  apply_event, on_joined, join, rejoin, on_disconnected, start_grace_period, on_evicted, reattached,
  detached, stop_grace_timer,
}
use aviron.Room.Board.{Board}
use aviron.Room.Refines.{board-broadcast_snapshot, board-depart_participant}

-- The participant whom a room holds under a name.
abbrev pub live : RoomActor → String → Option ParticipantState
live r u = Dict.get r.participants u

module _ (env : Env) where
  live-rejoin :
      (r : RoomActor) (u : String) (p : ParticipantState)
      → live r u ≡ some p
      → live (rejoin env u p r) u ≡ some (if is_some p.disconnected_at then reattached p else p)
  unfolding rejoin
  live-rejoin r u p e = ground (arith, get-store r.participants u u (reattached p), eq_iff u u)

  live-join :
      (r : RoomActor) (u name : String) (p : ParticipantState)
      → live r u ≡ some p
      → live (join env u name r) u ≡ some (if is_some p.disconnected_at then reattached p else p)
  unfolding join
  live-join r u name p e = rw (e, join) (live-rejoin r u p e)

  -- A known participant who joins again is there afterwards, and is not disconnected.
  live-joined :
      (r : RoomActor) (u name : String) (p : ParticipantState)
      → live r u ≡ some p
      → live (apply_event env (participant_joined u name) r) u
        ≡ some (if is_some p.disconnected_at then reattached p else p)
  unfolding apply_event on_joined
  live-joined r u name p e =
      ap (λ (b : Board). Dict.get b.live u) (board-broadcast_snapshot env (join env u name r))
      ∙ live-join r u name p e

  live-evicted_attached :
      (r : RoomActor) (u : String) (p : ParticipantState)
      → live r u ≡ some p
      → is_some p.disconnected_at ≡ false
      → apply_event env (participant_evicted u) r ≡ r
  unfolding apply_event on_evicted
  live-evicted_attached r u p e h = ground arith

  -- Whoever reconnects before a grace-period expiry is applied stays: the expiry that comes after
  -- changes nothing, and the reconnected participant has the progress, the finish and the count of
  -- disconnects of before, and is not disconnected.
  pub reconnect_survives_expiry :
      (r : RoomActor) (u name : String) (p : ParticipantState)
      → live r u ≡ some p
      → let back = apply_event env (participant_joined u name) r in
        (apply_event env (participant_evicted u) back ≡ back)
        × (live back u ≡ some (if is_some p.disconnected_at then reattached p else p))
  reconnect_survives_expiry r u name p e =
      let there = live-joined r u name p e in
      (live-evicted_attached _ u _ there (ground arith), there)

  live-evicted_detached :
      (r : RoomActor) (u : String) (p : ParticipantState)
      → live r u ≡ some p
      → is_some p.disconnected_at ≡ true
      → live (apply_event env (participant_evicted u) r) u ≡ none
  unfolding apply_event on_evicted
  live-evicted_detached r u p e h =
      rw (e, h, on_evicted)
        (ap (λ (b : Board). Dict.get b.live u) (board-depart_participant env u p r)
          ∙ ground (arith, get-delete r.participants u u, eq_iff u u))

  live-disconnected :
      (r : RoomActor) (u : String) (p : ParticipantState)
      → live r u ≡ some p
      → (q : ParticipantState) × (live (apply_event env (participant_disconnected u) r) u ≡ some q)
        × (is_some q.disconnected_at ≡ true)
  unfolding apply_event on_disconnected start_grace_period
  live-disconnected r u p e =
      let q = detached env r (length (stop_grace_timer env p r).calls) p in
      (q, ground (arith, get-store (stop_grace_timer env p r).participants u u q, eq_iff u u), refl)

  -- The guard of an expiry cannot tell one disconnect from the next: if a participant reconnects
  -- and drops again before an expiry that was already under way is applied, that expiry removes
  -- them, though their new grace period has only begun.
  pub stale_expiry_removes :
      (r : RoomActor) (u name : String) (p : ParticipantState)
      → live r u ≡ some p
      → live
          (apply_event env (participant_evicted u) (
            apply_event env
              (participant_disconnected u)
              (apply_event env (participant_joined u name) r)))
          u
        ≡ none
  stale_expiry_removes r u name p e =
      let (q, there, off) = live-disconnected _ u _ (live-joined r u name p e) in
      live-evicted_detached _ u q there off
