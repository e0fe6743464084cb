-- ===== src/Locator/Claims.antt =====
-- What a claim of a room is worth, and what the heartbeat of backend/internal/room/registry.go does
-- for it.
use aviron.Base.{
  ℕ, String, ◌≡◌, ◌⊎◌, inl, inr, refl, ◌∙◌, Bool, true, false, List, [], ◌∷◌, Option, none, some,
  arith, Bool-cases, if_rule, match_rule, All,
}
use Prim.Native.String.{◌++◌}
use aviron.Base.Strings.{trim_prefix-append}
use aviron.Room.State.{Payload}
use aviron.Locator.{
  Answer, failure, answer, answer_rule, Redis, RoomEvent, created, Locator, room_key, claim_ttl,
  room_events_channel, Claimed, publish, claim, refresh, owner,
}

-- What Redis documents of its commands, over the strings and the sets that a server holds. Any
-- command may fail instead of answering.
pub record RedisLaws {S : Type 0} (redis : Redis S) : Type 0 where
  pub holds : S → String → Option String
  pub members : S → String → String → Bool
  pub get-reads :
      (k : String) (s : S) → (redis.get k s ≡ failure) ⊎ (redis.get k s ≡ answer (holds s k))
  -- SET NX answers yes only for a key that was not there, which then has the value
  pub set_nx-sets :
      (k v : String) (ttl : ℕ) (s : S)
      → (redis.set_nx k v ttl s).0 ≡ answer true
      → (holds s k ≡ none) × (holds (redis.set_nx k v ttl s).1 k ≡ some v)
  -- EXPIRE does not make a key that is not there, and does not answer yes for it
  pub expire-missing :
      (k : String) (ttl : ℕ) (s : S)
      → holds s k ≡ none
      → (((redis.expire k ttl s).0 ≡ failure) ⊎ ((redis.expire k ttl s).0 ≡ answer false))
        × (holds (redis.expire k ttl s).1 k ≡ none)
  pub publish-keeps :
      (c : String) (p : Payload) (s : S) (k : String) → holds (redis.publish c p s).1 k ≡ holds s k
  pub s_add-adds :
      (k x : String) (s : S)
      → (redis.s_add k x s).0 ≡ answer tt
      → members (redis.s_add k x s).1 k x ≡ true
  pub s_is_member-reads :
      (k x : String) (s : S)
      → (redis.s_is_member k x s ≡ failure) ⊎ (redis.s_is_member k x s ≡ answer (members s k x))

-- The loop of heartbeat: each element is what happens to the server before a tick.
unfoldable pub heartbeat : {S : Type 0} → Redis S → Locator → String → List (S → S) → S → S
heartbeat redis l race_id [] s = s
heartbeat redis l race_id (pause ∷ ticks) s =
    heartbeat redis l race_id ticks (refresh redis l race_id (pause s)).1

module _ {S : Type 0} (redis : Redis S) (laws : RedisLaws redis) (race_id : String) where
  publish-holds :
      (l : Locator) (ev : RoomEvent) (s : S) (k : String)
      → laws.holds (publish redis l ev s).1 k ≡ laws.holds s k
  unfolding publish
  publish-holds l ev s k =
      match_rule (λ (x : Bool × S). laws.holds x.1 k ≡ laws.holds s k) (l.marshal ev) (λ _. refl)
        (λ payload _.
          let kept = laws.publish-keeps room_events_channel payload s k in
          answer_rule (λ (x : Bool × S). laws.holds x.1 k ≡ laws.holds s k)
            (redis.publish room_events_channel payload s).0 (λ _. kept) (λ _ _. kept))

  -- Owner reads what is under the key.
  owner-none :
      (s : S)
      → laws.holds s (room_key race_id) ≡ none
      → (owner redis race_id s ≡ failure) ⊎ (owner redis race_id s ≡ answer none)
  unfolding owner
  owner-none s h = elim (laws.get-reads (room_key race_id) s) [
    | inl e ↦ inl (ground (arith, e))
    | inr e ↦ inr (ground (arith, e, h))
  ]

  owner-some :
      (s : S) (id : String)
      → laws.holds s (room_key race_id) ≡ some ("instance:" ++ id)
      → (owner redis race_id s ≡ failure) ⊎ (owner redis race_id s ≡ answer (some id))
  unfolding owner
  owner-some s id h = elim (laws.get-reads (room_key race_id) s) [
    | inl e ↦ inl (ground (arith, e))
    | inr e ↦ inr (ground (arith, e, h, trim_prefix-append "instance:" id))
  ]

  claim-holds :
      (l : Locator) (s : S)
      → (claim redis l race_id s).0.claimed ≡ true
      → (laws.holds s (room_key race_id) ≡ none)
        × (laws.holds (claim redis l race_id s).1 (room_key race_id)
            ≡ some ("instance:" ++ l.instance_id))
  unfolding claim
  claim-holds l s =
      answer_rule P set.0 (λ _ h. ground arith)
        (λ b e.
          if_rule P b
            (λ t h.
              let (was, is) =
                laws.set_nx-sets (room_key race_id) ("instance:" ++ l.instance_id) claim_ttl s
                  (ground (arith, e, t)) in
              (was, publish-holds l (created race_id l.instance_id) set.1 (room_key race_id) ∙ is))
            (λ _ h. ground arith))
    where
      set : Answer Bool × S
      set = redis.set_nx (room_key race_id) ("instance:" ++ l.instance_id) claim_ttl s

      P : Claimed × S → Type 0
      P x =
          x.0.claimed ≡ true
          → (laws.holds s (room_key race_id) ≡ none)
            × (laws.holds x.1 (room_key race_id) ≡ some ("instance:" ++ l.instance_id))

  -- After a claim has succeeded, Owner answers with the claiming instance, if Redis answers at all,
  -- and no instance's claim succeeds on that state.
  pub claim_is_exclusive :
      (l l' : Locator) (s : S)
      → (claim redis l race_id s).0.claimed ≡ true
      → let s' = (claim redis l race_id s).1 in
        ((owner redis race_id s' ≡ failure)
          ⊎ (owner redis race_id s' ≡ answer (some l.instance_id)))
        × ((claim redis l' race_id s').0.claimed ≡ false)
  claim_is_exclusive l l' s h =
      let (_, held) = claim-holds l s h in
      (
        owner-some _ l.instance_id held,
        elim (Bool-cases (claim redis l' race_id (claim redis l race_id s).1).0.claimed) [
          | inl again ↦
              let (gone, _) = claim-holds l' (claim redis l race_id s).1 again in
              ground (arith, gone, held)
          | inr refused ↦ refused
        ],
      )

  refresh-missing :
      (l : Locator) (s : S)
      → laws.holds s (room_key race_id) ≡ none
      → ((refresh redis l race_id s).0 ≡ false)
        × (laws.holds (refresh redis l race_id s).1 (room_key race_id) ≡ none)
  unfolding refresh
  refresh-missing l s h =
      let (refused, still) = laws.expire-missing (room_key race_id) claim_ttl s h in
      answer_rule P (redis.expire (room_key race_id) claim_ttl s).0 (λ _. (refl, still))
        (λ b e.
          (elim refused [ inl f ↦ ground (arith, f, e) | inr f ↦ ground (arith, f, e) ], still))
    where
      P : Bool × S → Type 0
      P x = (x.0 ≡ false) × (laws.holds x.1 (room_key race_id) ≡ none)

  -- What may happen between two ticks, short of a claim: the key is not made.
  abbrev pub DoesNotClaim : (S → S) → Type 0
  DoesNotClaim pause =
      (s : S)
      → laws.holds s (room_key race_id) ≡ none
      → laws.holds (pause s) (room_key race_id) ≡ none

  heartbeat-missing :
      (l : Locator) (pauses : List (S → S)) (s : S)
      → All DoesNotClaim pauses
      → laws.holds s (room_key race_id) ≡ none
      → laws.holds (heartbeat redis l race_id pauses s) (room_key race_id) ≡ none
  unfolding heartbeat
  heartbeat-missing l [] s quiet h = h
  heartbeat-missing l (pause ∷ pauses) s quiet h =
      heartbeat-missing l pauses _ quiet.1 (refresh-missing l (pause s) (quiet.0 s h)).1

  -- Once the claim of a room is not there, because it lapsed or was never made, however often the
  -- heartbeat ticks, and if nobody claims the room in between, Refresh still returns an error and
  -- Owner finds nobody.
  pub lapsed_claim_stays_lost :
      (l : Locator) (pauses : List (S → S)) (s : S)
      → All DoesNotClaim pauses
      → laws.holds s (room_key race_id) ≡ none
      → let s' = heartbeat redis l race_id pauses s in
        ((refresh redis l race_id s').0 ≡ false)
        × ((owner redis race_id s' ≡ failure) ⊎ (owner redis race_id s' ≡ answer none))
  lapsed_claim_stays_lost l pauses s quiet h =
      let missing = heartbeat-missing l pauses s quiet h in
      ((refresh-missing l (heartbeat redis l race_id pauses s) missing).0, owner-none _ missing)
