-- ===== src/Rooms/Registry/Identity.antt =====
-- Whose entry an actor takes away from the registry when it ends.
use text.Mathlib.Text.{◌==◌ as ◌is_same◌}
use text.Mathlib.TextEquality.{eq_iff}
use aviron.Base.{◌<◌, String, ◌≡◌, true, false, ◌&&◌, none, some, arith, if◌then◌else◌, match_rule}
use aviron.Base.Dict
use aviron.Base.Dict.{Dict, get-store, get-delete, get-empty}
use aviron.Rooms.Registry.{
  ActorRef, is_actor, Registry, new_registry, is_among, spawn, get, remove, forget_actor,
  cleanup_when_done, spawns, removes, ends, cleans, Reachable, start, step,
}

-- An entry stands under its own race, and for an actor that was spawned and not yet cleaned up.
abbrev pub Owned : Registry → String → ActorRef → Type 0
Owned reg race_id a =
    (a.race_id ≡ race_id) × (a.number < reg.spawned) × (is_among a reg.cleaned ≡ false)

-- The actors that have ended were spawned.
abbrev Ended : Registry → Type 0
Ended reg =
    ((a : ActorRef) → is_among a reg.cancelled ≡ true → a.number < reg.spawned)
    × ((a : ActorRef) → is_among a reg.cleaned ≡ true → a.number < reg.spawned)

record IsKept (reg : Registry) : Type 0 where
  owned : (race_id : String) (a : ActorRef) → get race_id reg ≡ some a → Owned reg race_id a
  ended : Ended reg

get-forget_actor :
    (actor : ActorRef) (rooms : Dict ActorRef) (race_id : String)
    → Dict.get (forget_actor actor rooms) race_id ≡ elim (Dict.get rooms race_id) [
      | none ↦ none
      | some a ↦ if actor.race_id is_same race_id && is_actor a actor then none else some a
    ]
unfolding forget_actor
get-forget_actor actor rooms race_id =
    ground (arith, eq_iff actor.race_id race_id, get-delete rooms actor.race_id race_id)

spawn-IsKept : (race_id : String) (reg : Registry) → IsKept reg → IsKept (spawn race_id reg)
unfolding spawn
spawn-IsKept race_id reg k = record {
  owned = λ j a h. ground (
    arith,
    eq_iff race_id j,
    get-store reg.rooms race_id j (record { race_id = race_id; number = reg.spawned }),
    k.owned j a,
    k.ended.1 a,
  );
  ended = (λ a h. ground (arith, k.ended.0 a h), λ a h. ground (arith, k.ended.1 a h));
}

remove-IsKept : (race_id : String) (reg : Registry) → IsKept reg → IsKept (remove race_id reg)
unfolding remove is_among
remove-IsKept race_id reg k =
    match_rule IsKept (Dict.get reg.rooms race_id) (λ _. k)
      (λ actor e. record {
        owned =
            λ j a h. ground (arith, eq_iff race_id j, get-delete reg.rooms race_id j, k.owned j a);
        ended = (λ a h. ground (arith, k.ended.0 a, k.owned race_id actor e), k.ended.1);
      })

cleanup_when_done-IsKept :
    (actor : ActorRef) (reg : Registry)
    → is_among actor reg.cancelled ≡ true
    → IsKept reg
    → IsKept (cleanup_when_done actor reg)
unfolding cleanup_when_done is_among
cleanup_when_done-IsKept actor reg c k = record {
  owned = λ j a h. ground (
    arith,
    eq_iff actor.race_id j,
    eq_iff a.race_id actor.race_id,
    get-forget_actor actor reg.rooms j,
    k.owned j a,
  );
  ended = (k.ended.0, λ a h. ground (arith, k.ended.1 a, k.ended.0 actor c));
}

new_registry-IsKept : IsKept new_registry
unfolding new_registry is_among
new_registry-IsKept = record {
  owned = λ j a h. ground (arith, get-empty {V = ActorRef} j);
  ended = (λ a h. ground arith, λ a h. ground arith);
}

Reachable-IsKept : {reg : Registry} → Reachable reg → IsKept reg
unfolding is_among
Reachable-IsKept start = new_registry-IsKept
Reachable-IsKept (step r (spawns race_id reg)) = spawn-IsKept race_id reg (Reachable-IsKept r)
Reachable-IsKept (step r (removes race_id reg)) = remove-IsKept race_id reg (Reachable-IsKept r)
Reachable-IsKept (step r (ends actor reg l)) =
    let k = Reachable-IsKept r in
    record { owned = k.owned; ended = (λ a h. ground (arith, k.ended.0 a), k.ended.1) }
Reachable-IsKept (step r (cleans actor reg c)) =
    cleanup_when_done-IsKept actor reg c (Reachable-IsKept r)

-- Whatever a process has done with its registry, an entry stands under its own race, and is of an
-- actor that was spawned and whose end has not been cleaned up: no ended room stays in the map.
pub Reachable-Owned :
    (reg : Registry)
    → Reachable reg
    → (race_id : String) (a : ActorRef) → get race_id reg ≡ some a
    → Owned reg race_id a
Reachable-Owned reg r race_id a h = (Reachable-IsKept r).owned race_id a h

-- The clean-up after an actor takes away the entry of that actor, and no other: whoever is found
-- for a race before it, in any registry that a process can have, is found after it exactly if it
-- is another actor, also one that was spawned for the same race in between.
pub get-cleanup_when_done :
    (reg : Registry)
    → Reachable reg
    → (ended a : ActorRef) (race_id : String) → get race_id reg ≡ some a
    → get race_id (cleanup_when_done ended reg) ≡ (if is_actor a ended then none else some a)
unfolding cleanup_when_done
get-cleanup_when_done reg r ended a race_id h = ground (
  arith,
  eq_iff a.race_id ended.race_id,
  eq_iff ended.race_id race_id,
  get-forget_actor ended reg.rooms race_id,
  Reachable-Owned reg r race_id a h,
)
