-- ===== src/Shutdown.antt =====
-- backend/cmd/server/run.go: how a race-service process ends, beside the goroutines of its rooms.
pub mod Losing
use aviron.Base.{Bool, true, false, List, [], ◌∷◌, ◌==◌, if◌then◌else◌}
use aviron.Rooms.Registry.{ActorRef, Registry, cleanup_when_done, count}
use aviron.Rooms.Drain.{Drain, Pick, drain_broadcast}

-- A process that waits: its registry, the drainBroadcast of one of its rooms, and whether
-- waitForRoomsToDrain has returned, after which Run returns and the process exits.
pub record Process : Type 0 where
  pub registry : Registry
  pub drain : Drain
  pub exited : Bool

pub data ExitTurn : Type 0 where
  -- case <-ticker.C
  ticks : ExitTurn
  -- case <-ctx.Done(): the budget is spent
  budget_spent : ExitTurn
  -- a room's cleanupWhenDone
  cleans : ActorRef → ExitTurn
  -- the `select` of drainBroadcast
  drains : Pick → ExitTurn

-- `if registry.Count() == 0 { return }`
unfoldable pub check_rooms : Process → Process
check_rooms p = if count p.registry == 0 then record p { exited = true } else p

unfoldable pub exit_turn : ExitTurn → Process → Process
exit_turn ticks p = check_rooms p
exit_turn budget_spent p = record p { exited = true }
exit_turn (cleans actor) p = record p { registry = cleanup_when_done actor p.registry }
exit_turn (drains pick) p = record p { drain = drain_broadcast (pick ∷ []) p.drain }

-- The loop of waitForRoomsToDrain, under a schedule of turns; an exited process does nothing more.
unfoldable pub wait_loop : List ExitTurn → Process → Process
wait_loop [] p = p
wait_loop (t ∷ ts) p = let rest = wait_loop ts (exit_turn t p) in if p.exited then p else rest

-- waitForRoomsToDrain
unfoldable pub wait_for_rooms_to_drain : List ExitTurn → Process → Process
wait_for_rooms_to_drain ts p = wait_loop ts (check_rooms p)
