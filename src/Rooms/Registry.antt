-- ===== src/Rooms/Registry.antt =====
-- backend/internal/room/registry.go: the map of the running rooms. An actor is named by its race and
-- by how many were spawned before it, as a pointer is by its address.
pub mod Identity
use text.Mathlib.Text.{◌==◌ as ◌is_same◌}
use aviron.Base.{
  ℕ, ◌+◌, ◌<◌, String, ◌≡◌, Bool, false, ◌&&◌, List, [], ◌∷◌, ◌++◌, Option, none, some, ◌==◌,
  if◌then◌else◌,
}
use aviron.Base.Dict
use aviron.Base.Dict.{Dict}

pub record ActorRef : Type 0 where
  pub race_id : String
  pub number : ℕ

-- Whether two pointers are equal.
abbrev pub is_actor : ActorRef → ActorRef → Bool
is_actor a b = a.race_id is_same b.race_id && a.number == b.number

-- What the registry asks of the Redis locator; an error is only logged.
pub data LocatorCall : Type 0 where
  claim : String → LocatorCall
  release : String → LocatorCall

pub record Registry : Type 0 where
  pub rooms : Dict ActorRef
  pub spawned : ℕ
  -- the actors whose context was cancelled, by themselves or by `Remove`
  pub cancelled : List ActorRef
  -- the actors whose `cleanupWhenDone` has run
  pub cleaned : List ActorRef
  -- the calls so far, in their order
  pub located : List LocatorCall

unfoldable pub new_registry : Registry
new_registry = record {
  rooms = Dict.empty;
  spawned = 0;
  cancelled = [];
  cleaned = [];
  located = [];
}

-- Whether an actor is on a list.
unfoldable pub is_among : ActorRef → List ActorRef → Bool
is_among a [] = false
is_among a (b ∷ bs) = if is_actor a b then Bool.true else is_among a bs

-- Spawn, up to the goroutines that it starts
unfoldable pub spawn : String → Registry → Registry
spawn race_id reg = record reg {
  rooms = Dict.store reg.rooms race_id (record { race_id = race_id; number = reg.spawned });
  spawned = reg.spawned + 1;
  located = reg.located ++ claim race_id ∷ [];
}

-- Get
abbrev pub get : String → Registry → Option ActorRef
get race_id reg = Dict.get reg.rooms race_id

-- Count
abbrev pub count : Registry → ℕ
count reg = Dict.size reg.rooms

-- Remove
unfoldable pub remove : String → Registry → Registry
remove race_id reg = elim (Dict.get reg.rooms race_id) [
  | none ↦ reg
  | some actor ↦ record reg {
    rooms = Dict.delete reg.rooms race_id;
    cancelled = actor ∷ reg.cancelled;
  }
]

-- `if reg.rooms[raceID] == actor { delete(reg.rooms, raceID) }`
unfoldable pub forget_actor : ActorRef → Dict ActorRef → Dict ActorRef
forget_actor actor rooms = elim (Dict.get rooms actor.race_id) [
  | none ↦ rooms
  | some a ↦ if is_actor a actor then Dict.delete rooms actor.race_id else rooms
]

-- cleanupWhenDone, once the actor's context is done
unfoldable pub cleanup_when_done : ActorRef → Registry → Registry
cleanup_when_done actor reg = record reg {
  rooms = forget_actor actor reg.rooms;
  cleaned = actor ∷ reg.cleaned;
  located = reg.located ++ release actor.race_id ∷ [];
}

-- The steps of a process: calls of the registry, an actor that cancels itself, and the goroutine
-- that waits for an actor's context.
pub data Step : Registry → Registry → Type 0 where
  spawns : (race_id : String) (reg : Registry) → Step reg (spawn race_id reg)
  removes : (race_id : String) (reg : Registry) → Step reg (remove race_id reg)
  ends :
      (actor : ActorRef) (reg : Registry)
      → actor.number < reg.spawned
      → Step reg (record reg { cancelled = actor ∷ reg.cancelled })
  cleans :
      (actor : ActorRef) (reg : Registry)
      → is_among actor reg.cancelled ≡ Bool.true
      → Step reg (cleanup_when_done actor reg)

-- Whatever comes of a registry that was just made.
pub data Reachable : Registry → Type 0 where
  start : Reachable new_registry
  step : {reg reg' : Registry} → Reachable reg → Step reg reg' → Reachable reg'
