-- ===== src/Gateway/Connections.antt =====
-- backend/internal/wsgateway/endpoint.go: `serveConn`, over the registry and the hubs of the process.
pub mod Counting
pub mod Steps
pub mod Late
pub mod Fresh
use aviron.Base.{
  ℕ, suc, ◌+◌, String, Bool, true, false, not, ◌&&◌, List, [], ◌∷◌, Option, none, some, ltb, ◌==◌,
  if◌then◌else◌,
}
use aviron.Room.State.{Error}
use aviron.Gateway.Hub.{
  RaceHub, new_race_hub, HubInput, envelope, out_closed, register, unregister, shutdown, stop,
  written, run,
}
use aviron.Gateway.Hub.Shutdown.{Hubs, shutdown_all}
use aviron.Gateway.Registry.{RaceHubRegistry, new_race_hub_registry, attach, detach, on_close}

-- A connection that serveConn serves: its channel, its race, and the hub that it was handed.
pub record Connection : Type 0 where
  pub ch : ℕ
  pub race_id : String
  pub hub : ℕ

-- How serveConn closes a connection.
pub data Closing : Type 0 where
  -- StatusInternalError, to one that could not attach
  internal_error : String → Closing
  normal_closure : ℕ → Closing

pub record Gateway : Type 0 where
  pub registry : RaceHubRegistry
  -- the hubs by their numbers; one that is not made yet is as newRaceHub makes it
  pub hubs : Hubs
  -- the race that a hub was made for, and whether its onClose has run
  pub race_of : ℕ → String
  pub returned : ℕ → Bool
  pub live : List Connection
  -- the channels made so far
  pub opened : ℕ
  pub closings : List Closing

unfoldable pub new_gateway : Gateway
new_gateway = record {
  registry = new_race_hub_registry;
  hubs = λ n. new_race_hub;
  race_of = λ n. "";
  returned = λ n. false;
  live = [];
  opened = 0;
  closings = [];
}

abbrev pub at : {A : Type 0} → ℕ → A → (ℕ → A) → ℕ → A
at n x f k = if n == k then x else f k

-- What a hub is after it has taken an input, unless it has returned.
abbrev pub tell : ℕ → HubInput → Hubs → Hubs
tell n i hubs = at n (run (i ∷ []) (hubs n)) hubs

-- What follows the call of attach, with what that returned.
unfoldable pub serve_attached : String → Gateway → Option ℕ × RaceHubRegistry → Gateway
serve_attached race_id g (hub, registry) = elim hub [
  | none ↦ record g { registry = registry; closings = internal_error race_id ∷ g.closings }
  | some n ↦ record g {
    registry = registry;
    hubs = tell n (register g.opened) g.hubs;
    race_of = at n race_id g.race_of;
    live = record { ch = g.opened; race_id = race_id; hub = n } ∷ g.live;
    opened = g.opened + 1;
  }
]

-- serveConn up to its two loops, with the answer to the subscription that attach may make
unfoldable pub serve_conn : Option Error → String → Gateway → Gateway
serve_conn err race_id g = serve_attached race_id g (attach err race_id g.registry)

-- A connection by its channel, and the others.
unfoldable pub take_out : ℕ → List Connection → Option (Connection × List Connection)
take_out ch [] = none
take_out ch (c ∷ cs) =
    let rest = take_out ch cs in
    if c.ch == ch
    then some (c, cs)
    else elim rest [ none ↦ none | some found ↦ some (found.0, c ∷ found.1) ]

-- serveConn once both loops have returned: it closes the connection, and its defers run, the last one
-- first.
unfoldable pub end_served : ℕ → Gateway → Option (Connection × List Connection) → Gateway
end_served ch g none = g
end_served ch g (some (c, others)) = record g {
  registry = detach c.race_id g.registry;
  hubs = tell c.hub (unregister ch) g.hubs;
  live = others;
  closings = normal_closure ch ∷ g.closings;
}

unfoldable pub end_conn : ℕ → Gateway → Gateway
end_conn ch g = end_served ch g (take_out ch g.live)

abbrev pub is_in : ℕ → List ℕ → Bool
is_in n [] = false
is_in n (k ∷ ks) = if n == k then true else is_in n ks

-- What may come to a hub's loop but from serveConn; `stop` only once it was closed.
abbrev pub can_hear : Gateway → ℕ → HubInput → Bool
can_hear g n (register ch) = false
can_hear g n (unregister ch) = false
can_hear g n stop = is_in n g.registry.stopped
can_hear g n i = true

-- The onClose of a hub, once its loop has returned.
unfoldable pub hub_returns : ℕ → Gateway → Gateway
hub_returns n g =
    if (g.hubs n).closed && not (g.returned n)
    then record g { registry = on_close (g.race_of n) g.registry; returned = at n true g.returned }
    else g

pub data Turn : Type 0 where
  -- a connection that was accepted
  starts : Option Error → String → Turn
  -- both loops of one have returned
  ends : ℕ → Turn
  -- a hub made already takes an input
  hears : ℕ → HubInput → Turn
  returns : ℕ → Turn
  -- Shutdown of the registry
  shuts_down : Turn

unfoldable pub take_turn : Turn → Gateway → Gateway
take_turn (starts err race_id) g = serve_conn err race_id g
take_turn (ends ch) g = end_conn ch g
take_turn (hears n i) g =
    if ltb n g.registry.made && can_hear g n i then record g { hubs = tell n i g.hubs } else g
take_turn (returns n) g = if ltb n g.registry.made then hub_returns n g else g
take_turn shuts_down g = record g { hubs = shutdown_all g.registry g.hubs }

unfoldable pub take_turns : List Turn → Gateway → Gateway
take_turns [] g = g
take_turns (t ∷ ts) g = take_turns ts (take_turn t g)
