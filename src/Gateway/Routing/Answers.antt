-- ===== src/Gateway/Routing/Answers.antt =====
-- What each answer of the gateway to a request says.
use native.Mathlib.Nat.{mod-lt}
use aviron.Base.{
  ℕ, zero, suc, ◌<◌, String, ◌≡◌, ◌⊎◌, inl, inr, refl, sym, subst, true, List, [], ◌∷◌, Option,
  none, some, Mem, length, arith, ◌==◌, if_rule, match_rule,
}
use mathlib.Core.List.{mem-cons_of_mem, mem-cons_self}
use aviron.Locator.{Answer, failure, answer}
use aviron.Gateway.Routing.{
  Router, Request, Routed, race_not_found, routing_lookup_failed, proxied, succ_uint64, pick,
  pred_uint64, next_backend, backend_at, extract_race_id, fresh_entry, resolve_target,
  serve_room_less, serve_room, route,
}

in_pool :
    (bs : List String) (i : ℕ)
    → i < length bs
    → (b : String) × (backend_at bs i ≡ some b) × Mem b bs
unfolding backend_at
in_pool [] i h = absurd (omega (arith, h))
in_pool (b ∷ bs) zero h = (b, refl, mem-cons_self)
in_pool (b ∷ bs) (suc i) h =
    let (x, e, m) = in_pool bs i (omega (arith, h)) in (x, e, mem-cons_of_mem b m)

no_backends : (bs : List String) → (length bs == 0) ≡ true → bs ≡ []
no_backends [] h = refl
no_backends (b ∷ bs) h = ground arith

module _ (r : Request) (gw : Router) where
  -- What an answer says: 404, that the request is for a race of which the cache has no entry that is
  -- still good, and the locator no owner; 503, that the pool is empty, or there is no such entry and
  -- the locator has failed. An address is one of the pool, or that of the entry, or the owner's.
  abbrev pub Explains : Routed × Router → Type 0
  Explains (race_not_found, gw') =
      (gw' ≡ gw)
      × ((race_id : String) × (extract_race_id r.path ≡ some race_id)
          × (fresh_entry r.asked_at race_id gw ≡ none)
          × (r.owner ≡ answer none))
  Explains (routing_lookup_failed, gw') =
      (gw' ≡ gw)
      × (((extract_race_id r.path ≡ none) × (r.backends ≡ []))
          ⊎ ((race_id : String) × (extract_race_id r.path ≡ some race_id)
              × (fresh_entry r.asked_at race_id gw ≡ none)
              × (r.owner ≡ failure)))
  Explains (proxied address, gw') =
      ((extract_race_id r.path ≡ none) × Mem address r.backends)
      ⊎ ((race_id : String) × (extract_race_id r.path ≡ some race_id)
          × (((fresh_entry r.asked_at race_id gw ≡ some address) × (gw' ≡ gw))
              ⊎ ((fresh_entry r.asked_at race_id gw ≡ none) × (r.owner ≡ answer (some address)))))

  room_less-Explains :
      extract_race_id r.path ≡ none
      → let (address, gw') = next_backend r.backends gw in Explains (serve_room_less address, gw')
  unfolding next_backend serve_room_less
  room_less-Explains h =
      let size = length r.backends in
      let P : Option String × Router → Type 0 = λ x. Explains (serve_room_less x.0, x.1) in
      if_rule P (size == 0) (λ e. (refl, inl (h, no_backends r.backends e)))
        (λ e.
          let i = pick (succ_uint64 gw.next) size in
          let (b, at, m) =
            in_pool r.backends i (mod-lt (pred_uint64 (succ_uint64 gw.next)) (ground arith)) in
          subst (λ o. P (o, record gw { next = succ_uint64 gw.next })) (sym at) (inl (h, m)))

  room-Explains :
      (race_id : String)
      → extract_race_id r.path ≡ some race_id
      → let (target, gw') = resolve_target r race_id gw in Explains (serve_room target, gw')
  unfolding resolve_target serve_room
  room-Explains race_id h =
      match_rule P (fresh_entry r.asked_at race_id gw) (λ e. asked e r.owner refl)
        (λ a e. inr (race_id, h, inl (e, refl)))
    where
      P : Answer (Option String) × Router → Type 0
      P x = Explains (serve_room x.0, x.1)

      asked :
          fresh_entry r.asked_at race_id gw ≡ none
          → (o : Answer (Option String)) → r.owner ≡ o
          → P (elim o [
            | failure ↦ (failure, gw)
            | answer none ↦ (answer none, gw)
            | answer (some instance_id) ↦ (
              answer (some instance_id),
              record gw {
                pending = record { race_id = race_id; instance_id = instance_id } ∷ gw.pending;
              },
            )
          ])
      asked e failure o = (refl, inr (race_id, h, e, o))
      asked e (answer none) o = (refl, (race_id, h, e, o))
      asked e (answer (some a)) o = inr (race_id, h, inr (e, o))

  -- The answer to a request, by its cause; an error leaves the gateway as it is.
  pub route_lem : Explains (route r gw)
  unfolding route
  route_lem = match_rule Explains (extract_race_id r.path) room_less-Explains room-Explains
