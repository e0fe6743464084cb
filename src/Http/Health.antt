-- ===== src/Http/Health.antt =====
-- The probes: backend/internal/httpserver/healthz.go and readiness.go, and
-- backend/internal/wsgateway/healthz.go. A probe answers with a status and the text of its `status`.
use aviron.Base.{ℕ, String, Bool, true, false, Option, none, some, not, if◌then◌else◌}

pub record ReadinessGate : Type 0 where
  pub shutting_down : Bool

pub record Probe : Type 0 where
  pub status_code : ℕ
  pub status : String

-- MarkShuttingDown
unfoldable pub mark_shutting_down : ReadinessGate → ReadinessGate
mark_shutting_down gate = record gate { shutting_down = true }

-- NewHealthzHandler of httpserver, by whether Postgres answers a ping
unfoldable pub healthz : Bool → ReadinessGate → Probe
healthz pings gate =
    if gate.shutting_down
    then record { status_code = 503; status = "shutting_down" }
    else if pings
    then record { status_code = 200; status = "ok" }
    else record { status_code = 503; status = "db_unreachable" }

-- NewLivezHandler
unfoldable pub livez : Probe
livez = record { status_code = 200; status = "ok" }

-- What the gateway's probe asks: whether the discovery has synced, if it has such a phase, whether
-- Redis answers a ping, and whether NATS is connected.
pub record Dependencies : Type 0 where
  pub has_synced : Option Bool
  pub redis_pings : Bool
  pub nats_connected : Bool

abbrev pub is_unsynced : Option Bool → Bool
is_unsynced none = false
is_unsynced (some synced) = not synced

-- NewHealthzHandler of wsgateway
unfoldable pub gateway_healthz : Dependencies → ReadinessGate → Probe
gateway_healthz d gate =
    if gate.shutting_down
    then record { status_code = 503; status = "shutting_down" }
    else if is_unsynced d.has_synced
    then record { status_code = 503; status = "backend_discovery_not_synced" }
    else if not d.redis_pings
    then record { status_code = 503; status = "redis_unreachable" }
    else if not d.nats_connected
    then record { status_code = 503; status = "nats_unreachable" }
    else record { status_code = 200; status = "ok" }
