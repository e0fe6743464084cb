-- ===== src/Gateway/Hub.antt =====
-- backend/internal/wsgateway/racehub.go: `raceHub`, the fan-out of one race to its connections.
pub mod Delivery
pub mod Shutdown
pub mod Ending
use aviron.Base.{
  ℕ, suc, ◌-◌, Bool, true, false, List, [], ◌∷◌, ◌++◌, length, ltb, ◌==◌, if◌then◌else◌,
}
use aviron.Room.State.{Payload}

-- A connection that is registered: its channel, what is queued there, and whether its context was
-- cancelled.
pub record Conn : Type 0 where
  pub ch : ℕ
  pub queue : List Payload
  pub cancelled : Bool

abbrev pub conn_buffer_size : ℕ
conn_buffer_size = 8

pub record RaceHub : Type 0 where
  pub conns : List Conn
  pub conn_count : ℕ
  -- whether `run` has returned, and so closed `closed`, unsubscribed and called `onClose`
  pub closed : Bool

pub data OutboundEnvelope : Type 0 where
  broadcast : Payload → OutboundEnvelope
  room_closed : OutboundEnvelope
  -- an envelope of any other kind
  other : OutboundEnvelope

-- What the `select` of `run` receives; the last is the writer's side of a channel.
pub data HubInput : Type 0 where
  envelope : OutboundEnvelope → HubInput
  out_closed : HubInput
  register : ℕ → HubInput
  unregister : ℕ → HubInput
  shutdown : HubInput
  stop : HubInput
  written : ℕ → HubInput

pub new_race_hub : RaceHub
new_race_hub = record { conns = []; conn_count = 0; closed = false }

-- `select { case c <- payload: default: }`
pub deliver : Payload → Conn → Conn
deliver m c =
    if ltb (length c.queue) conn_buffer_size then record c { queue = c.queue ++ m ∷ [] } else c

pub deliver_all : Payload → List Conn → List Conn
deliver_all m [] = []
deliver_all m (c ∷ cs) = deliver m c ∷ deliver_all m cs

-- delete(conns, c)
pub forget : ℕ → List Conn → List Conn
forget ch [] = []
forget ch (c ∷ cs) = let rest = forget ch cs in if c.ch == ch then rest else c ∷ rest

pub cancel_all : List Conn → List Conn
cancel_all [] = []
cancel_all (c ∷ cs) = record c { cancelled = true } ∷ cancel_all cs

-- The writer takes the first message of its channel.
pub take_written : ℕ → List Conn → List Conn
take_written ch [] = []
take_written ch (c ∷ cs) =
    let rest = take_written ch cs in
    if c.ch == ch
    then record c { queue = elim c.queue [ [] ↦ [] | m ∷ ms ↦ ms ] } ∷ cs
    else c ∷ rest

-- A connection makes its channel anew, so it registers it once.
pub is_registered : ℕ → List Conn → Bool
is_registered ch [] = false
is_registered ch (c ∷ cs) = if c.ch == ch then true else is_registered ch cs

abbrev with_conns : RaceHub → List Conn → RaceHub
with_conns h cs = record h { conns = cs; conn_count = length cs }

pub on_envelope : OutboundEnvelope → RaceHub → RaceHub
on_envelope (broadcast m) h = record h { conns = deliver_all m h.conns }
on_envelope room_closed h = record h { closed = true }
on_envelope other h = h

-- One turn of `run`, while it runs.
pub on_input : HubInput → RaceHub → RaceHub
on_input (envelope e) h = on_envelope e h
on_input out_closed h = record h { closed = true }
on_input (register ch) h =
    if is_registered ch h.conns
    then h
    else with_conns h (record { ch = ch; queue = []; cancelled = false } ∷ h.conns)
on_input (unregister ch) h = with_conns h (forget ch h.conns)
on_input shutdown h = record h { conns = cancel_all h.conns }
on_input stop h = record h { closed = true }
on_input (written ch) h = record h { conns = take_written ch h.conns }

-- run
unfoldable pub run : List HubInput → RaceHub → RaceHub
run [] h = h
run (i ∷ is) h = let rest = run is (on_input i h) in if h.closed then h else rest
