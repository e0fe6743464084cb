-- ===== src/Gateway/Hub/Shutdown.antt =====
-- backend/internal/wsgateway/racehub.go: `Shutdown` of the registry, over the hubs that its entries name.
use aviron.Base.{
  ℕ, ◌≡◌, refl, ap, Bool, true, false, ◌||◌, List, [], ◌∷◌, arith, ◌==◌, if◌then◌else◌,
}
use aviron.Base.Dict
use aviron.Gateway.Hub.{Conn, RaceHub, shutdown, on_input, cancel_all}
use aviron.Gateway.Registry.{RaceHubEntry, RaceHubRegistry}

-- disconnectAll: the hub takes the signal, unless it is closed
unfoldable pub disconnect_all : RaceHub → RaceHub
disconnect_all h = if h.closed then h else on_input shutdown h

-- The hubs of the process, by their numbers.
abbrev pub Hubs : Type 0
Hubs = ℕ → RaceHub

abbrev pub disconnect_hub : ℕ → Hubs → Hubs
disconnect_hub hub hubs n = if hub == n then disconnect_all (hubs n) else hubs n

-- The loop of Shutdown.
unfoldable pub disconnect_each : List RaceHubEntry → Hubs → Hubs
disconnect_each [] hubs = hubs
disconnect_each (e ∷ es) hubs = disconnect_each es (disconnect_hub e.hub hubs)

-- Shutdown
unfoldable pub shutdown_all : RaceHubRegistry → Hubs → Hubs
shutdown_all r hubs = disconnect_each (Dict.values r.hubs) hubs

abbrev pub is_named : ℕ → List RaceHubEntry → Bool
is_named n [] = false
is_named n (e ∷ es) = (e.hub == n) || is_named n es

cancel_all_twice : (cs : List Conn) → cancel_all (cancel_all cs) ≡ cancel_all cs
unfolding cancel_all
cancel_all_twice [] = refl
cancel_all_twice (c ∷ cs) = ap (λ xs. record c { cancelled = true } ∷ xs) (cancel_all_twice cs)

disconnect_all_twice : (h : RaceHub) → disconnect_all (disconnect_all h) ≡ disconnect_all h
unfolding disconnect_all on_input
disconnect_all_twice h = by_test h.closed
  where
    by_test :
        (b : Bool)
        → disconnect_all (disconnect_all (record h { closed = b }))
          ≡ disconnect_all (record h { closed = b })
    by_test true = refl
    by_test false = ap (λ cs. record h { conns = cs; closed = false }) (cancel_all_twice h.conns)

disconnect_each_lem :
    (n : ℕ) (es : List RaceHubEntry) (hubs : Hubs)
    → disconnect_each es hubs n ≡ (if is_named n es then disconnect_all (hubs n) else hubs n)
unfolding disconnect_each
disconnect_each_lem n [] hubs = refl
disconnect_each_lem n (e ∷ es) hubs =
    let ih = disconnect_each_lem n es (disconnect_hub e.hub hubs) in
    ground (arith, ih, disconnect_all_twice (hubs n))

-- Shutdown makes every hub that an entry of the registry names, and no other, cancel the contexts of
-- its connections, once, however often it is named; a hub that is closed stays as it is.
shutdown_all_lem :
    (n : ℕ) (r : RaceHubRegistry) (hubs : Hubs)
    → shutdown_all r hubs n
      ≡ (if is_named n (Dict.values r.hubs) then disconnect_all (hubs n) else hubs n)
unfolding shutdown_all
shutdown_all_lem n r hubs = disconnect_each_lem n (Dict.values r.hubs) hubs
