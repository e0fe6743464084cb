-- ===== src/Gateway/Connections/Fresh.antt =====
-- Hubs that are not made yet.
use aviron.Base.{
  ℕ, ◌≤◌, String, ◌≡◌, refl, true, false, not, ◌&&◌, List, [], ◌∷◌, Option, arith, match_rule,
  if_rule, ltb,
}
use aviron.Room.State.{Error}
use aviron.Gateway.Registry.{attach}
use aviron.Gateway.Registry.Laws.{made-detach, made-on_close}
use aviron.Gateway.Registry.Refs.{made-attach}
use aviron.Gateway.Connections.{
  Gateway, new_gateway, serve_attached, serve_conn, take_out, end_served, end_conn, hub_returns,
  can_hear, Turn, starts, ends, hears, returns, shuts_down, take_turn, take_turns,
}

-- No such hub has returned.
abbrev pub IsFresh : Gateway → Type 0
IsFresh g = (n : ℕ) → g.registry.made ≤ n → g.returned n ≡ false

serve_conn-IsFresh :
    (err : Option Error) (race_id : String) (g : Gateway)
    → IsFresh g
    → IsFresh (serve_conn err race_id g)
unfolding serve_conn serve_attached
serve_conn-IsFresh err race_id g h =
    let grows = made-attach err race_id g.registry in
    match_rule IsFresh (attach err race_id g.registry).0 (λ _ n l. h n (omega (arith, grows, l)))
      (λ _ _ n l. h n (omega (arith, grows, l)))

end_conn-IsFresh : (ch : ℕ) (g : Gateway) → IsFresh g → IsFresh (end_conn ch g)
unfolding end_conn end_served
end_conn-IsFresh ch g h =
    match_rule IsFresh (take_out ch g.live) (λ _. h)
      (λ found _ n l. h n (omega (arith, made-detach found.0.race_id g.registry, l)))

hub_returns-IsFresh :
    (k : ℕ) (g : Gateway) → ltb k g.registry.made ≡ true → IsFresh g → IsFresh (hub_returns k g)
unfolding hub_returns
hub_returns-IsFresh k g made h =
    if_rule IsFresh ((g.hubs k).closed && not (g.returned k))
      (λ _ n l. ground (arith, made, made-on_close (g.race_of k) g.registry, l, h n)) (λ _. h)

take_turn-IsFresh : (t : Turn) (g : Gateway) → IsFresh g → IsFresh (take_turn t g)
unfolding take_turn
take_turn-IsFresh (starts err race_id) g h = serve_conn-IsFresh err race_id g h
take_turn-IsFresh (ends ch) g h = end_conn-IsFresh ch g h
take_turn-IsFresh (hears n i) g h =
    if_rule IsFresh (ltb n g.registry.made && can_hear g n i) (λ _. h) (λ _. h)
take_turn-IsFresh (returns n) g h =
    if_rule IsFresh (ltb n g.registry.made) (λ t. hub_returns-IsFresh n g t h) (λ _. h)
take_turn-IsFresh shuts_down g h = h

take_turns-keeps : (ts : List Turn) (g : Gateway) → IsFresh g → IsFresh (take_turns ts g)
unfolding take_turns
take_turns-keeps [] g h = h
take_turns-keeps (t ∷ ts) g h = take_turns-keeps ts (take_turn t g) (take_turn-IsFresh t g h)

-- Under every schedule.
pub take_turns-IsFresh : (ts : List Turn) → IsFresh (take_turns ts new_gateway)
unfolding new_gateway
take_turns-IsFresh ts = take_turns-keeps ts new_gateway (λ n l. refl)
