-- ===== src/Gateway/Connections/Counting.antt =====
-- The references of the registry and the connections that are served.
use text.Mathlib.Text.{◌==◌}
use aviron.Base.{
  ℕ, suc, ◌≤◌, String, ◌≡◌, refl, sym, subst, ap, Bool, true, false, not, ◌&&◌, ◌==◌ as ◌is◌, List,
  [], ◌∷◌, Option, none, some, arith, match_rule, if_rule, count_if, if◌then◌else◌, ltb,
}
use aviron.Base.Dict
use aviron.Room.State.{Error}
use aviron.Gateway.Registry.{RaceHubRegistry, new_race_hub_registry, attach, detach}
use aviron.Gateway.Registry.Laws.{entry, refs, refs-attach, refs-detach}
use aviron.Gateway.Registry.Refs.{
  IsHeld, attach_refused, attach_answered, attach-IsHeld, detach-IsHeld, on_close-IsHeld,
  refs-on_close,
}
use aviron.Gateway.Connections.{
  Connection, Gateway, new_gateway, serve_conn, serve_attached, take_out, end_served, end_conn,
  hub_returns, can_hear, Turn, starts, ends, hears, returns, shuts_down, take_turn, take_turns,
}

-- The connections to a race.
abbrev pub connections_to : String → List Connection → ℕ
connections_to j cs = count_if (λ (c : Connection). c.race_id == j) cs

connections_to-take_out :
    (j : String) (ch : ℕ) (cs : List Connection) (found : Connection × List Connection)
    → take_out ch cs ≡ some found
    → connections_to j cs
      ≡ (if found.0.race_id == j then suc (connections_to j found.1) else connections_to j found.1)
unfolding take_out
connections_to-take_out j ch [] found h = ground (arith, h)
connections_to-take_out j ch (c ∷ cs) found h =
    if_rule R (c.ch is ch) (λ _ e. ground (arith, e))
      (λ _.
        match_rule R (take_out ch cs) (λ _ e. ground (arith, e))
          (λ f q e. ground (arith, e, connections_to-take_out j ch cs f q)))
      h
  where
    R : Option (Connection × List Connection) → Type 0
    R x =
        x ≡ some found
        → connections_to j (c ∷ cs) ≡ (
            if found.0.race_id == j
            then suc (connections_to j found.1)
            else connections_to j found.1)

-- The entry of a race is held, and by no more than are connected.
abbrev IsCounted : String → RaceHubRegistry → List Connection → Type 0
IsCounted j r live = IsHeld (entry r j) × (refs (entry r j) ≤ connections_to j live)

abbrev Same : String → RaceHubRegistry → List Connection → Type 0
Same j r live = refs (entry r j) ≡ connections_to j live

abbrev OfGateway : (RaceHubRegistry → List Connection → Type 0) → Gateway → Type 0
OfGateway P g = P g.registry g.live

-- What serveConn, at its beginning and at its end, does to both.
module _ (j : String) (P : RaceHubRegistry → List Connection → Type 0)
    (attached : (race_id : String) (ch hub : ℕ) (r : RaceHubRegistry) (live : List Connection)
      → P r live
      → P (attach none race_id r).1 (record { ch = ch; race_id = race_id; hub = hub } ∷ live))
    (detached : (ch : ℕ) (found : Connection × List Connection) (r : RaceHubRegistry)
        (live : List Connection)
      → take_out ch live ≡ some found
      → P r live
      → P (detach found.0.race_id r) found.1) where
  serve_conn_keeps :
      (err : Option Error) (race_id : String) (g : Gateway)
      → OfGateway P g
      → OfGateway P (serve_conn err race_id g)
  unfolding serve_conn serve_attached
  serve_conn_keeps err race_id g h =
      match_rule (OfGateway P) (attach err race_id g.registry).0
        (λ e. subst (λ r. P r g.live) (sym (attach_refused err race_id g.registry e)) h)
        (λ n e.
          subst (λ r. P r (record { ch = g.opened; race_id = race_id; hub = n } ∷ g.live))
            (sym (attach_answered err race_id g.registry n e))
            (attached race_id g.opened n g.registry g.live h))

  end_conn_keeps : (ch : ℕ) (g : Gateway) → OfGateway P g → OfGateway P (end_conn ch g)
  unfolding end_conn end_served
  end_conn_keeps ch g h =
      match_rule (OfGateway P) (take_out ch g.live) (λ _. h)
        (λ found e. detached ch found g.registry g.live e h)

  -- A turn that is not the end of a hub.
  turn_keeps :
      (t : Turn) (g : Gateway)
      → ((n : ℕ) → t ≡ returns n → OfGateway P (hub_returns n g))
      → OfGateway P g
      → OfGateway P (take_turn t g)
  unfolding take_turn
  turn_keeps (starts err race_id) g k h = serve_conn_keeps err race_id g h
  turn_keeps (ends ch) g k h = end_conn_keeps ch g h
  turn_keeps (hears n i) g k h =
      if_rule (OfGateway P) (ltb n g.registry.made && can_hear g n i) (λ _. h) (λ _. h)
  turn_keeps (returns n) g k h =
      if_rule (OfGateway P) (ltb n g.registry.made) (λ _. k n refl) (λ _. h)
  turn_keeps shuts_down g k h = h

attach-IsCounted :
    (j race_id : String) (ch hub : ℕ) (r : RaceHubRegistry) (live : List Connection)
    → IsCounted j r live
    → IsCounted j
        (attach none race_id r).1
        (record { ch = ch; race_id = race_id; hub = hub } ∷ live)
attach-IsCounted j race_id ch hub r live h =
    (attach-IsHeld race_id j r (h.0), ground (arith, refs-attach race_id j r, h.1))

detach-IsCounted :
    (j : String) (ch : ℕ) (found : Connection × List Connection) (r : RaceHubRegistry)
    (live : List Connection)
    → take_out ch live ≡ some found
    → IsCounted j r live
    → IsCounted j (detach found.0.race_id r) found.1
detach-IsCounted j ch found r live e h = (
  detach-IsHeld found.0.race_id j r (h.0),
  ground (arith, refs-detach found.0.race_id j r, connections_to-take_out j ch live found e, h.1),
)

hub_returns-IsCounted :
    (j : String) (n : ℕ) (g : Gateway)
    → OfGateway (IsCounted j) g
    → OfGateway (IsCounted j) (hub_returns n g)
unfolding hub_returns
hub_returns-IsCounted j n g h =
    if_rule (OfGateway (IsCounted j)) ((g.hubs n).closed && not (g.returned n))
      (λ _. (
        on_close-IsHeld (g.race_of n) j g.registry (h.0),
        omega (arith, refs-on_close (g.race_of n) j g.registry, h.1),
      ))
      (λ _. h)

take_turns-IsCounted :
    (j : String) (ts : List Turn) (g : Gateway)
    → OfGateway (IsCounted j) g
    → OfGateway (IsCounted j) (take_turns ts g)
unfolding take_turns
take_turns-IsCounted j [] g h = h
take_turns-IsCounted j (t ∷ ts) g h = take_turns-IsCounted j ts (take_turn t g) (
    turn_keeps j (IsCounted j) (attach-IsCounted j) (detach-IsCounted j) t g
      (λ n _. hub_returns-IsCounted j n g h) h)

-- Whether no hub's loop ends.
abbrev pub none_returns : List Turn → Bool
none_returns [] = true
none_returns (returns n ∷ ts) = false
none_returns (_ ∷ ts) = none_returns ts

take_turns-Same :
    (j : String) (ts : List Turn) (g : Gateway)
    → none_returns ts ≡ true
    → OfGateway (Same j) g
    → OfGateway (Same j) (take_turns ts g)
unfolding take_turns
take_turns-Same j [] g _ h = h
take_turns-Same j (t ∷ ts) g q h = take_turns-Same j ts (take_turn t g) (later t q) (
    turn_keeps j (Same j) (λ race_id ch hub r live s. ground (arith, refs-attach race_id j r, s))
      (λ ch found r live e s.
        ground
          (arith, refs-detach found.0.race_id j r, connections_to-take_out j ch live found e, s))
      t g (λ n e. ground (arith, q, ap (λ t'. none_returns (t' ∷ ts)) e)) h)
  where
    later : (t : Turn) → none_returns (t ∷ ts) ≡ true → none_returns ts ≡ true
    later (starts err race_id) q = q
    later (ends ch) q = q
    later (hears n i) q = q
    later (returns n) q = ground (arith, q)
    later shuts_down q = q

-- From a new gateway on, under every schedule and whatever subscriptions answer: the entry of a race is
-- referenced at least once, and by no more than there are connections to the race, so that a race
-- without connections has no entry; and as long as no hub's onClose has run, its references are as many
-- as these connections.
pub refs-take_turns :
    (ts : List Turn) (j : String)
    → let g = take_turns ts new_gateway in
      IsHeld (entry g.registry j)
      × (refs (entry g.registry j) ≤ connections_to j g.live)
      × (none_returns ts ≡ true → refs (entry g.registry j) ≡ connections_to j g.live)
unfolding new_gateway new_race_hub_registry Dict.get Dict.empty
refs-take_turns ts j =
    let (held, within) = take_turns-IsCounted j ts new_gateway (tt, omega arith) in
    (held, within, λ q. take_turns-Same j ts new_gateway q refl)
