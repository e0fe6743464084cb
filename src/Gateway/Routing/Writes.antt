-- ===== src/Gateway/Routing/Writes.antt =====
-- The steps of a gateway, and what its requests have yet to write into the cache.
use aviron.Base.{
  zero, suc, ℕ, String, ◌≡◌, ◌⊎◌, inl, inr, refl, subst, List, [], ◌∷◌, Option, none, some, length,
  arith, ◌==◌, if_rule, match_rule, All, All-map,
}
use aviron.Room.State.{Instant}
use aviron.Locator.{Answer, failure, answer}
use aviron.Gateway.Routing.{
  Router, Found, pending_at, pending_without, write_back, Request, Routed, new_gateway,
  next_backend, extract_race_id, fresh_entry, resolve_target, route, watch_room_event,
}
use aviron.Locator.{RoomEvent, created, removed, other_event}

-- What happens to a gateway: a request up to its answer, the write of a request that has called
-- Owner, or a message of room:events, the latter two at some time.
pub data GatewayStep : Type 0 where
  request : Request → GatewayStep
  write : ℕ → Instant → GatewayStep
  room_event : RoomEvent → Instant → GatewayStep

unfoldable pub take_step : ℕ → GatewayStep → Router → Router
take_step cache_ttl (request r) gw = (route r gw).1
take_step cache_ttl (write i now) gw = write_back cache_ttl i now gw
take_step cache_ttl (room_event e now) gw = watch_room_event cache_ttl e now gw

-- A gateway after some steps, the newest first.
unfoldable pub after : ℕ → List GatewayStep → Router
after cache_ttl [] = new_gateway
after cache_ttl (s ∷ past) = take_step cache_ttl s (after cache_ttl past)

-- The locator has named the instance of a race, in answer to some request.
abbrev pub Asked : List GatewayStep → String → String → Type 0
Asked [] race_id instance_id = ⊥
Asked (request r ∷ past) race_id instance_id =
    ((extract_race_id r.path ≡ some race_id) × (r.owner ≡ answer (some instance_id)))
    ⊎ Asked past race_id instance_id
Asked (write i now ∷ past) race_id instance_id = Asked past race_id instance_id
Asked (room_event e now ∷ past) race_id instance_id = Asked past race_id instance_id

-- What is pending has been answered.
abbrev pub Answered : List GatewayStep → Found → Type 0
Answered past p = Asked past p.race_id p.instance_id

pub pending_at-All :
    (P : Found → Type 0) (ps : List Found) (i : ℕ) (p : Found)
    → All P ps
    → pending_at ps i ≡ some p
    → P p
unfolding pending_at
pending_at-All P [] i p h e = ground (arith, e)
pending_at-All P (q ∷ ps) zero p h e = subst P (ground (arith, e)) (h.0)
pending_at-All P (q ∷ ps) (suc i) p h e = pending_at-All P ps i p (h.1) e

pending_without-All :
    (P : Found → Type 0) (ps : List Found) (i : ℕ) → All P ps → All P (pending_without ps i)
unfolding pending_without
pending_without-All P [] i h = tt
pending_without-All P (q ∷ ps) zero h = h.1
pending_without-All P (q ∷ ps) (suc i) h = (h.0, pending_without-All P ps i (h.1))

requested-Answered :
    (r : Request) (past : List GatewayStep) (gw : Router)
    → All (Answered past) gw.pending
    → All (Answered (request r ∷ past)) (route r gw).1.pending
unfolding route next_backend resolve_target
requested-Answered r past gw v =
    match_rule (λ (x : Routed × Router). P x.1) (extract_race_id r.path)
      (λ _.
        if_rule (λ (x : Option String × Router). P x.1) (length r.backends == 0) (λ _. kept)
          (λ _. kept))
      (λ race_id h.
        match_rule (λ (x : Answer (Option String) × Router). P x.1)
          (fresh_entry r.asked_at race_id gw) (λ _. asked race_id h r.owner refl) (λ _ _. kept))
  where
    P : Router → Type 0
    P gw' = All (Answered (request r ∷ past)) gw'.pending

    kept : All (Answered (request r ∷ past)) gw.pending
    kept = All-map (Answered past) (Answered (request r ∷ past)) gw.pending (λ p a. inr a) v

    asked :
        (race_id : String)
        → extract_race_id r.path ≡ some race_id
        → (o : Answer (Option String)) → r.owner ≡ o
        → P (
            (elim o as (λ _. Answer (Option String) × Router) [
              | failure ↦ (failure, gw)
              | answer none ↦ (answer none, gw)
              | answer (some instance_id) ↦ (
                answer (some instance_id),
                record gw {
                  pending = record { race_id = race_id; instance_id = instance_id } ∷ gw.pending;
                },
              )
            ]).1)
    asked race_id h failure o = kept
    asked race_id h (answer none) o = kept
    asked race_id h (answer (some a)) o = (inl (h, o), kept)

-- After any steps, what is pending has been answered by the locator before.
pub after-Answered :
    (cache_ttl : ℕ) (past : List GatewayStep) → All (Answered past) (after cache_ttl past).pending
unfolding after take_step write_back watch_room_event
after-Answered cache_ttl [] = tt
after-Answered cache_ttl (request r ∷ past) =
    requested-Answered r past (after cache_ttl past) (after-Answered cache_ttl past)
after-Answered cache_ttl (write i now ∷ past) =
    let gw = after cache_ttl past in
    match_rule (λ (x : Router). All (Answered past) x.pending) (pending_at gw.pending i)
      (λ _. after-Answered cache_ttl past)
      (λ _ _. pending_without-All (Answered past) gw.pending i (after-Answered cache_ttl past))
after-Answered cache_ttl (room_event (created race_id instance_id) now ∷ past) =
    after-Answered cache_ttl past
after-Answered cache_ttl (room_event (removed race_id instance_id) now ∷ past) =
    after-Answered cache_ttl past
after-Answered cache_ttl (room_event other_event now ∷ past) = after-Answered cache_ttl past
