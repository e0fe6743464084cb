-- ===== src/Rooms/Buffers.antt =====
-- backend/internal/room/registry.go: what the channels of the running rooms hold, for the metrics.
use aviron.Base.{ℕ, ◌+◌, ◌*◌, ◌≤◌, List, [], ◌∷◌, length, arith}
use aviron.Base.Dict
use aviron.Room.State.{RoomActor}
use aviron.Room.Actor.{inbox_size}
use aviron.Rooms.Registry.{ActorRef, Registry, count}

-- InboxLen, BroadcastLen
abbrev pub inbox_len : RoomActor → ℕ
inbox_len r = length r.inbox

abbrev pub broadcast_len : RoomActor → ℕ
broadcast_len r = length r.broadcast

unfoldable pub sum_over : (ActorRef → ℕ) → List ActorRef → ℕ
sum_over len [] = 0
sum_over len (a ∷ as') = len a + sum_over len as'

-- InboxBufferUsage, BroadcastBufferUsage; `actor` is what a pointer points to
abbrev pub inbox_buffer_usage : (ActorRef → RoomActor) → Registry → ℕ
inbox_buffer_usage actor reg = sum_over (λ a. inbox_len (actor a)) (Dict.values reg.rooms)

abbrev pub broadcast_buffer_usage : (ActorRef → RoomActor) → Registry → ℕ
broadcast_buffer_usage actor reg = sum_over (λ a. broadcast_len (actor a)) (Dict.values reg.rooms)

sum_over-bounded :
    (bound : ℕ) (len : ActorRef → ℕ)
    → ((a : ActorRef) → len a ≤ bound)
    → (as' : List ActorRef) → sum_over len as' ≤ bound * length as'
unfolding sum_over
sum_over-bounded bound len h [] = ground arith
sum_over-bounded bound len h (a ∷ as') = ground (arith, h a, sum_over-bounded bound len h as')

-- Where no inbox holds more than its channel can, the usage is at most that for each room that runs.
inbox_buffer_usage-bounded :
    (actor : ActorRef → RoomActor) (reg : Registry)
    → ((a : ActorRef) → inbox_len (actor a) ≤ inbox_size)
    → inbox_buffer_usage actor reg ≤ inbox_size * count reg
unfolding Dict.size
inbox_buffer_usage-bounded actor reg h =
    sum_over-bounded inbox_size (λ a. inbox_len (actor a)) h (Dict.values reg.rooms)
