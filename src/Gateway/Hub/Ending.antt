-- ===== src/Gateway/Hub/Ending.antt =====
-- A hub that is told to stop.
use aviron.Base.{◌≡◌, refl, true, [], ◌∷◌, if_rule}
use aviron.Gateway.Hub.{RaceHub, stop, on_input, run}

pub closed-stop : (h : RaceHub) → (run (stop ∷ []) h).closed ≡ true
unfolding run on_input
closed-stop h = if_rule (λ (x : RaceHub). x.closed ≡ true) h.closed (λ t. t) (λ _. refl)
