-- ===== src/Gateway/Connections/Steps.antt =====
-- What single turns do, as far as the hubs of one race are concerned.
use aviron.Base.{
  ℕ, ◌+◌, ◌<◌, String, ◌≡◌, refl, ap, ◌∙◌, true, false, not, ◌&&◌, List, ◌∷◌, Option, none, some,
  arith, if_rule, ltb, ◌==◌ as ◌is◌,
}
use aviron.Gateway.Hub.{RaceHub, stop, register, unregister}
use aviron.Gateway.Hub.Ending.{closed-stop}
use aviron.Gateway.Registry.{on_close}
use aviron.Gateway.Registry.Laws.{entry}
use aviron.Gateway.Registry.Refs.{attached, detached, attach_makes, detach_stops}
use aviron.Gateway.Connections.{
  Connection, Gateway, normal_closure, at, tell, is_in, can_hear, serve_conn, serve_attached,
  take_out, end_served, end_conn, hub_returns, starts, ends, hears, returns, take_turn,
}

-- A hub takes its stop.
pub stop_step :
    (n : ℕ) (g : Gateway)
    → n < g.registry.made
    → is_in n g.registry.stopped ≡ true
    → take_turn (hears n stop) g ≡ record g { hubs = tell n stop g.hubs }
unfolding take_turn
stop_step n g l i =
    if_rule (λ (x : Gateway). x ≡ record g { hubs = tell n stop g.hubs })
      (ltb n g.registry.made && can_hear g n stop) (λ _. refl) (λ f. ground (arith, l, i, f))

-- The hub has returned then.
pub closed-tell : (n : ℕ) (hubs : ℕ → RaceHub) → (tell n stop hubs n).closed ≡ true
closed-tell n hubs =
    if_rule (λ (h : RaceHub). h.closed ≡ true) (n is n) (λ _. closed-stop (hubs n))
      (λ f. ground (arith, f))

module _ (race_id : String) where
  -- The first connection to a race.
  abbrev pub newcomer : Gateway → Connection
  newcomer g = record { ch = g.opened; race_id = race_id; hub = g.registry.made }

  abbrev pub started : Gateway → Gateway
  started g = record g {
    registry = attached race_id g.registry;
    hubs = tell g.registry.made (register g.opened) g.hubs;
    race_of = at g.registry.made race_id g.race_of;
    live = newcomer g ∷ g.live;
    opened = g.opened + 1;
  }

  pub start_step :
      (g : Gateway)
      → entry g.registry race_id ≡ none
      → take_turn (starts none race_id) g ≡ started g
  unfolding take_turn serve_conn serve_attached
  start_step g e = ap (serve_attached race_id g) (attach_makes race_id g.registry e)

  -- What a hub's onClose does.
  abbrev pub returned_late : ℕ → Gateway → Gateway
  returned_late n g = record g {
    registry = on_close race_id g.registry;
    returned = at n true g.returned;
  }

  pub return_step :
      (n : ℕ) (g : Gateway)
      → n < g.registry.made
      → (g.hubs n).closed ≡ true
      → g.returned n ≡ false
      → g.race_of n ≡ race_id
      → take_turn (returns n) g ≡ returned_late n g
  unfolding take_turn hub_returns
  return_step n g l c f q =
      let done : hub_returns n g ≡ returned_late n g =
        if_rule (λ (x : Gateway). x ≡ returned_late n g) ((g.hubs n).closed && not (g.returned n))
          (λ _.
            ap (λ j. record g { registry = on_close j g.registry; returned = at n true g.returned })
              q)
          (λ x. ground (arith, c, f, x)) in
      if_rule (λ (x : Gateway). x ≡ returned_late n g) (ltb n g.registry.made) (λ _. done)
        (λ x. ground (arith, l, x))

  -- The end of the last connection that the race's entry counts.
  abbrev pub ended : ℕ → Connection → List Connection → Gateway → Gateway
  ended named c others g = record g {
    registry = detached race_id named g.registry;
    hubs = tell c.hub (unregister c.ch) g.hubs;
    live = others;
    closings = normal_closure c.ch ∷ g.closings;
  }

  pub end_step :
      (named ch hub : ℕ) (others : List Connection) (g : Gateway)
      → take_out ch g.live ≡ some (record { ch = ch; race_id = race_id; hub = hub }, others)
      → entry g.registry race_id ≡ some (record { hub = named; ref_count = 1 })
      → take_turn (ends ch) g
        ≡ ended named (record { ch = ch; race_id = race_id; hub = hub }) others g
  unfolding take_turn end_conn end_served
  end_step named ch hub others g t e =
      ap (end_served ch g) t
      ∙ ap
          (λ r. record g {
            registry = r;
            hubs = tell hub (unregister ch) g.hubs;
            live = others;
            closings = normal_closure ch ∷ g.closings;
          })
          (detach_stops race_id named g.registry e)

  pub take_out_first :
      (c : Connection) (cs : List Connection) → take_out c.ch (c ∷ cs) ≡ some (c, cs)
  unfolding take_out
  take_out_first c cs =
      if_rule (λ (x : Option (Connection × List Connection)). x ≡ some (c, cs)) (c.ch is c.ch)
        (λ _. refl) (λ f. ground (arith, f))

  pub take_out_second :
      (b c : Connection) (cs : List Connection)
      → c.ch < b.ch
      → take_out c.ch (b ∷ c ∷ cs) ≡ some (c, b ∷ cs)
  unfolding take_out
  take_out_second b c cs l =
      if_rule (λ (x : Option (Connection × List Connection)). x ≡ some (c, b ∷ cs)) (b.ch is c.ch)
        (λ t. ground (arith, t, l))
        (λ _.
          ap
            (λ x. elim x as (λ _. Option (Connection × List Connection)) [
              | none ↦ none
              | some found ↦ some (found.0, b ∷ found.1)
            ])
            (take_out_first c cs))
