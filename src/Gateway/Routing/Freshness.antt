-- ===== src/Gateway/Routing/Freshness.antt =====
-- How old the knowledge is by which a request is proxied.
use text.Mathlib.Text.{◌==◌ as ◌is_same◌}
use text.Mathlib.TextEquality.{eq_iff}
use aviron.Base.{
  ℕ, ◌+◌, ◌<◌, String, ◌≡◌, ◌⊎◌, inl, inr, refl, sym, subst, Bool, false, List, [], ◌∷◌, Option,
  none, some, length, arith, ltb, ◌==◌, if_rule, match_rule, if◌then◌else◌,
}
use aviron.Base.Dict
use aviron.Room.State.{Instant}
use aviron.Locator.{Answer, failure, answer}
use aviron.Gateway.Routing.Answers.{Explains, route_lem}
use aviron.Gateway.Routing.{
  Router, CacheEntry, pending_at, pending_without, write_back, Request, Routed, proxied,
  next_backend, extract_race_id, fresh_entry, remember, resolve_target, route, watch_room_event,
}
use aviron.Locator.{created, removed, other_event}
use aviron.Gateway.Routing.Writes.{
  GatewayStep, request, write, room_event, after, take_step, Asked, Answered, pending_at-All,
  after-Answered,
}

-- A step, after others, that writes the instance of a race into the cache at some time: for a message
-- that names it, or for a request to which the locator had named it before.
abbrev pub Names : ℕ → GatewayStep → List GatewayStep → String → String → Instant → Type 0
Names cache_ttl (request r) past race_id instance_id at = ⊥
Names cache_ttl (write i now) past race_id instance_id at =
    (pending_at (after cache_ttl past).pending i
      ≡ some (record { race_id = race_id; instance_id = instance_id }))
    × Asked past race_id instance_id
    × (now ≡ at)
Names cache_ttl (room_event (created race_id' instance_id') now) past race_id instance_id at =
    (race_id' ≡ race_id) × (instance_id' ≡ instance_id) × (now ≡ at)
Names cache_ttl (room_event (removed race_id' instance_id') now) past race_id instance_id at = ⊥
Names cache_ttl (room_event other_event now) past race_id instance_id at = ⊥

abbrev pub removes : GatewayStep → String → Bool
removes (room_event (removed race_id' instance_id') now) race_id = race_id' is_same race_id
removes (request r) race_id = false
removes (write i now) race_id = false
removes (room_event (created race_id' instance_id) now) race_id = false
removes (room_event other_event now) race_id = false

-- Some step has written the instance of a race at some time, and none after it removed the race.
abbrev pub Stands : ℕ → List GatewayStep → String → String → Instant → Type 0
Stands cache_ttl [] race_id instance_id at = ⊥
Stands cache_ttl (s ∷ past) race_id instance_id at =
    Names cache_ttl s past race_id instance_id at
    ⊎ ((removes s race_id ≡ false) × Stands cache_ttl past race_id instance_id at)

module _ (cache_ttl : ℕ) (race_id : String) where
  -- Where an entry of the race is from.
  abbrev HasOrigin : List GatewayStep → Option CacheEntry → Type 0
  HasOrigin past none = Unit
  HasOrigin past (some entry) =
      (at : Instant) × Stands cache_ttl past race_id entry.instance_id at
      × (entry.expires_at ≡ at + cache_ttl)

  older :
      (s : GatewayStep) (past : List GatewayStep) (o : Option CacheEntry)
      → removes s race_id ≡ false
      → HasOrigin past o
      → HasOrigin (s ∷ past) o
  older s past none h v = tt
  older s past (some entry) h (at, stands, e) = (at, inr (h, stands), e)

  remembered :
      (s : GatewayStep) (past : List GatewayStep) (race_id' instance_id : String) (now : Instant)
      (gw : Router)
      → removes s race_id ≡ false
      → Names cache_ttl s past race_id' instance_id now
      → HasOrigin past (Dict.get gw.cache race_id)
      → HasOrigin
          (s ∷ past)
          (Dict.get (remember cache_ttl race_id' instance_id now gw).cache race_id)
  remembered s past race_id' instance_id now gw h names v =
      subst (HasOrigin (s ∷ past)) (sym (Dict.get-store gw.cache race_id' race_id _)) (
        if_rule (HasOrigin (s ∷ past)) (race_id' is_same race_id)
          (λ e.
            let same : race_id' ≡ race_id = (eq_iff race_id' race_id).0 e in
            (now, inl (subst (λ r. Names cache_ttl s past r instance_id now) same names), refl))
          (λ _. older s past (Dict.get gw.cache race_id) h v))

  requested :
      (r : Request) (past : List GatewayStep) (gw : Router)
      → HasOrigin past (Dict.get gw.cache race_id)
      → HasOrigin (request r ∷ past) (Dict.get (route r gw).1.cache race_id)
  unfolding route next_backend resolve_target
  requested r past gw v =
      match_rule (λ (x : Routed × Router). P x.1) (extract_race_id r.path)
        (λ _.
          if_rule (λ (x : Option String × Router). P x.1) (length r.backends == 0) (λ _. kept)
            (λ _. kept))
        (λ race_id' h.
          match_rule (λ (x : Answer (Option String) × Router). P x.1)
            (fresh_entry r.asked_at race_id' gw) (λ _. asked race_id' h r.owner refl) (λ _ _. kept))
    where
      P : Router → Type 0
      P gw' = HasOrigin (request r ∷ past) (Dict.get gw'.cache race_id)

      kept : P gw
      kept = older (request r) past (Dict.get gw.cache race_id) refl v

      asked :
          (race_id' : String)
          → extract_race_id r.path ≡ some race_id'
          → (o : Answer (Option String)) → r.owner ≡ o
          → P (
              (elim o as (λ _. Answer (Option String) × Router) [
                | failure ↦ (failure, gw)
                | answer none ↦ (answer none, gw)
                | answer (some instance_id) ↦ (
                  answer (some instance_id),
                  record gw {
                    pending = record { race_id = race_id'; instance_id = instance_id } ∷ gw.pending;
                  },
                )
              ]).1)
      asked race_id' h failure o = kept
      asked race_id' h (answer none) o = kept
      asked race_id' h (answer (some a)) o = kept

  after-HasOrigin :
      (past : List GatewayStep) → HasOrigin past (Dict.get (after cache_ttl past).cache race_id)
  unfolding after take_step write_back watch_room_event
  after-HasOrigin [] = subst (HasOrigin []) (sym (Dict.get-empty race_id)) tt
  after-HasOrigin (request r ∷ past) =
      requested r past (after cache_ttl past) (after-HasOrigin past)
  after-HasOrigin (write i now ∷ past) =
      let gw = after cache_ttl past in
      let s = write i now in
      match_rule (λ (x : Router). HasOrigin (s ∷ past) (Dict.get x.cache race_id))
        (pending_at gw.pending i)
        (λ _. older s past (Dict.get gw.cache race_id) refl (after-HasOrigin past))
        (λ found e.
          remembered s past found.race_id found.instance_id now
            (record gw { pending = pending_without gw.pending i }) refl
            (
              e,
              pending_at-All (Answered past) gw.pending i found (after-Answered cache_ttl past) e,
              refl,
            )
            (after-HasOrigin past))
  after-HasOrigin (room_event (created race_id' instance_id) now ∷ past) =
      remembered (room_event (created race_id' instance_id) now) past race_id' instance_id now
        (after cache_ttl past) refl (refl, refl, refl) (after-HasOrigin past)
  after-HasOrigin (room_event (removed race_id' instance_id') now ∷ past) =
      let s = room_event (removed race_id' instance_id') now in
      let o = Dict.get (after cache_ttl past).cache race_id in
      subst (HasOrigin (s ∷ past))
        (sym (Dict.get-delete (after cache_ttl past).cache race_id' race_id))
        (if_rule (HasOrigin (s ∷ past)) (race_id' is_same race_id) (λ _. tt)
          (λ e. older s past o e (after-HasOrigin past)))
  after-HasOrigin (room_event other_event now ∷ past) =
      older (room_event other_event now) past (Dict.get (after cache_ttl past).cache race_id) refl
        (after-HasOrigin past)

  -- The instance that a fresh entry names was named less than a TTL before.
  fresh-Stands :
      (past : List GatewayStep) (now : Instant) (o : Option CacheEntry) (address : String)
      → HasOrigin past o
      → (elim o as (λ _. Option String) [
        | none ↦ none
        | some entry ↦ if ltb now entry.expires_at then some entry.instance_id else none
      ])
        ≡ some address
      → (at : Instant) × Stands cache_ttl past race_id address at × (now < at + cache_ttl)
  fresh-Stands past now none address v h = ground arith
  fresh-Stands past now (some entry) address (at, stands, e) h =
      let fresh : now < entry.expires_at = ground arith in
      let named : entry.instance_id ≡ address = ground arith in
      (at, subst (λ a. Stands cache_ttl past race_id a at) named stands, omega (arith, e, fresh))

  -- After any requests, writes of requests and messages, interleaved in any way, a request for a race
  -- goes to the instance that the locator names to it, or to one that was written into the cache less
  -- than a TTL before, with no removal of the race since that write. It was written for a message that
  -- named it for this race, or for a request to which the locator had named it for this race earlier;
  -- a removal may lie between that answer and the write.
  pub target_is_current :
      (past : List GatewayStep) (r : Request) (address : String)
      → extract_race_id r.path ≡ some race_id
      → (route r (after cache_ttl past)).0 ≡ proxied address
      → (r.owner ≡ answer (some address))
        ⊎ ((at : Instant) × Stands cache_ttl past race_id address at
            × (r.asked_at < at + cache_ttl))
  unfolding fresh_entry
  target_is_current past r address h p =
      let gw = after cache_ttl past in
      let x = route r gw in
      elim (subst (λ z. Explains r gw (z, x.1)) p (route_lem r gw)) [
        | inl (n, _) ↦ ground (arith, h, n)
        | inr (race_id', h', inr (_, o)) ↦ inl o
        | inr (race_id', h', inl (f, _)) ↦
            let same : race_id' ≡ race_id = ground (arith, h, h') in
            inr (
              fresh-Stands past r.asked_at (Dict.get gw.cache race_id) address
                (after-HasOrigin past)
                (subst (λ k. fresh_entry r.asked_at k gw ≡ some address) same f))
      ]
