-- ===== src/Gateway/Routing.antt =====
-- backend/internal/wsgateway/gateway.go and discovery.go: where a request over HTTP is proxied to.
pub mod Answers
pub mod Balance
pub mod Writes
pub mod Freshness
pub mod Discovery
use Prim.Native.Char.{Char, code}
use Prim.Native.String.{[], ◌∷◌}
use aviron.Base.{
  ℕ, zero, suc, ◌+◌, ◌-◌, ◌%◌, ◌^◌, String, Bool, List, [], ◌∷◌, Option, none, some, length, ltb,
  ◌==◌, if◌then◌else◌,
}
use aviron.Base.Dict
use aviron.Base.Dict.{Dict}
use aviron.Base.Strings.{trim_prefix}
use aviron.Room.State.{Instant}
use aviron.Locator.{Answer, failure, answer, RoomEvent, created, removed, other_event}

pub record CacheEntry : Type 0 where
  pub instance_id : String
  pub expires_at : Instant

-- An answer of Owner, in the hands of a request that has yet to write it into the cache.
pub record Found : Type 0 where
  pub race_id : String
  pub instance_id : String

-- `Gateway`, with the parts that change; `next` is a uint64. With it, the requests between their call
-- of Owner, which the lock does not cover, and the write that follows.
pub record Router : Type 0 where
  pub cache : Dict CacheEntry
  pub next : ℕ
  pub pending : List Found

-- NewGateway
abbrev pub new_gateway : Router
new_gateway = record { cache = Dict.empty; next = 0; pending = [] }

-- What a request meets.
pub record Request : Type 0 where
  pub path : String
  -- the clock at the look at the cache
  pub asked_at : Instant
  -- Owner, should it be called
  pub owner : Answer (Option String)
  -- the addresses that the discovery has
  pub backends : List String

-- How ServeHTTP ends: 404, 503, or the proxy with the address of an instance.
pub data Routed : Type 0 where
  race_not_found : Routed
  routing_lookup_failed : Routed
  proxied : String → Routed

-- strings.Cut at a slash: what comes before it
unfoldable pub before_slash : String → String
before_slash [] = []
before_slash (c ∷ s) = let rest = before_slash s in if code c == 47 then [] else c ∷ rest

-- `raceID != ""`
abbrev pub non_empty : String → Option String
non_empty [] = none
non_empty (c ∷ s) = some (c ∷ s)

unfoldable pub extract_race_id : String → Option String
extract_race_id path = elim (trim_prefix path "/races/") [
  | none ↦ none
  | some rest ↦ non_empty (before_slash rest)
]

abbrev pub max_uint64 : ℕ
max_uint64 = 2 ^ 64 - 1

-- n + 1 and n - 1 of a uint64
abbrev pub succ_uint64 : ℕ → ℕ
succ_uint64 n = (n + 1) % 2 ^ 64

abbrev pub pred_uint64 : ℕ → ℕ
pred_uint64 n = (n + max_uint64) % 2 ^ 64

-- backends[i]
unfoldable pub backend_at : List String → ℕ → Option String
backend_at [] i = none
backend_at (b ∷ bs) zero = some b
backend_at (b ∷ bs) (suc i) = backend_at bs i

-- The index that nextBackend takes in a pool of so many, from the counter after its addition.
abbrev pub pick : ℕ → ℕ → ℕ
pick n size = pred_uint64 n % size

-- nextBackend, `none` for its error
unfoldable pub next_backend : List String → Router → Option String × Router
next_backend backends gw =
    if length backends == 0
    then (none, gw)
    else let n = succ_uint64 gw.next in
      (backend_at backends (pick n (length backends)), record gw { next = n })

-- The entry of a race, if it has not expired.
unfoldable pub fresh_entry : Instant → String → Router → Option String
fresh_entry now race_id gw = elim (Dict.get gw.cache race_id) [
  | none ↦ none
  | some entry ↦ if ltb now entry.expires_at then some entry.instance_id else none
]

-- gw.cache[race_id] = cacheEntry{...}
abbrev pub remember : ℕ → String → String → Instant → Router → Router
remember cache_ttl race_id instance_id now gw = record gw {
  cache =
      Dict.store gw.cache race_id
        (record { instance_id = instance_id; expires_at = now + cache_ttl });
}

-- resolveTarget, up to the return of Owner; what the request goes on with is settled by then.
unfoldable pub resolve_target : Request → String → Router → Answer (Option String) × Router
resolve_target r race_id gw = elim (fresh_entry r.asked_at race_id gw) [
  | some instance_id ↦ (answer (some instance_id), gw)
  | none ↦ elim r.owner [
    | failure ↦ (failure, gw)
    | answer none ↦ (answer none, gw)
    | answer (some instance_id) ↦ (
      answer (some instance_id),
      record gw { pending = record { race_id = race_id; instance_id = instance_id } ∷ gw.pending },
    )
  ]
]

-- One of the pending writes, and the others.
unfoldable pub pending_at : List Found → ℕ → Option Found
pending_at [] i = none
pending_at (p ∷ ps) zero = some p
pending_at (p ∷ ps) (suc i) = pending_at ps i

unfoldable pub pending_without : List Found → ℕ → List Found
pending_without [] i = []
pending_without (p ∷ ps) zero = ps
pending_without (p ∷ ps) (suc i) = p ∷ pending_without ps i

-- The rest of resolveTarget for one of the requests that have got that far: whatever has happened
-- since Owner answered, the answer is written into the cache.
unfoldable pub write_back : ℕ → ℕ → Instant → Router → Router
write_back cache_ttl i now gw = elim (pending_at gw.pending i) [
  | none ↦ gw
  | some found ↦
      remember cache_ttl found.race_id found.instance_id now
        (record gw { pending = pending_without gw.pending i })
]

-- The two branches of ServeHTTP, each with the proxy behind it.
unfoldable pub serve_room_less : Option String → Routed
serve_room_less none = routing_lookup_failed
serve_room_less (some address) = proxied address

unfoldable pub serve_room : Answer (Option String) → Routed
serve_room failure = routing_lookup_failed
serve_room (answer none) = race_not_found
serve_room (answer (some address)) = proxied address

-- ServeHTTP of the gateway, up to the answer
unfoldable pub route : Request → Router → Routed × Router
route r gw = elim (extract_race_id r.path) [
  | none ↦ let (address, gw') = next_backend r.backends gw in (serve_room_less address, gw')
  | some race_id ↦ let (target, gw') = resolve_target r race_id gw in (serve_room target, gw')
]

-- A turn of the loop of WatchRoomEvents
unfoldable pub watch_room_event : ℕ → RoomEvent → Instant → Router → Router
watch_room_event cache_ttl (created race_id instance_id) now gw =
    remember cache_ttl race_id instance_id now gw
watch_room_event cache_ttl (removed race_id instance_id) now gw = record gw {
  cache = Dict.delete gw.cache race_id;
}
watch_room_event cache_ttl other_event now gw = gw
