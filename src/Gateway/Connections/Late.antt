-- ===== src/Gateway/Connections/Late.antt =====
-- A hub whose loop ends late, and the connections that came in between.
use aviron.Base.{ℕ, ◌+◌, String, ◌≡◌, ap, ◌∙◌, Bool, true, false, List, [], ◌∷◌, none, arith}
use aviron.Gateway.Hub.{stop}
use aviron.Gateway.Registry.{on_close}
use aviron.Gateway.Registry.Laws.{entry}
use aviron.Gateway.Registry.Refs.{entry-attached, entry-deleted}
use aviron.Gateway.Connections.{
  Gateway, Turn, new_gateway, tell, starts, ends, hears, returns, take_turns,
}
use aviron.Gateway.Connections.Fresh.{take_turns-IsFresh}
use aviron.Gateway.Session.{read_loop, read_error}
use aviron.Protocol.{Codec}
use aviron.Gateway.Connections.Steps.{
  stop_step, closed-tell, return_step, start_step, end_step, take_out_first, take_out_second,
  newcomer, started, returned_late, ended,
}

-- The turns of a race whose first hub returns late.
abbrev pub late_turns : String → Gateway → List Turn
late_turns race_id g =
    starts none race_id
    ∷ ends g.opened
    ∷ starts none race_id
    ∷ hears g.registry.made stop
    ∷ returns g.registry.made
    ∷ starts none race_id
    ∷ ends (g.opened + 1)
    ∷ hears (g.registry.made + 1 + 1) stop
    ∷ []

-- What comes of them, from a gateway on.
abbrev pub Strands : String → Gateway → Type 0
Strands race_id g =
    let third = g.registry.made + 1 + 1 in
    let end = take_turns (late_turns race_id g) g in
    (end.live ≡ record { ch = g.opened + 1 + 1; race_id = race_id; hub = third } ∷ g.live)
    × ((end.hubs third).closed ≡ true)
    × (entry end.registry race_id ≡ none)
    × ((codec : Codec) (user_id display_name : String) (published : Bool)
        → read_loop codec user_id display_name (read_error (end.hubs third).closed published ∷ [])
          ≡ [])

module _ (race_id : String) (g : Gateway) where
  abbrev m : ℕ
  m = g.registry.made

  -- The gateway after each of these turns.
  abbrev g1 : Gateway
  g1 = started race_id g

  abbrev g2 : Gateway
  g2 = ended race_id m (newcomer race_id g) g.live g1

  abbrev g3 : Gateway
  g3 = started race_id g2

  abbrev g4 : Gateway
  g4 = record g3 { hubs = tell m stop g3.hubs }

  abbrev g5 : Gateway
  g5 = returned_late race_id m g4

  abbrev g6 : Gateway
  g6 = started race_id g5

  abbrev g7 : Gateway
  g7 = ended race_id (m + 1 + 1) (newcomer race_id g2) (newcomer race_id g5 ∷ g.live) g6

  abbrev g8 : Gateway
  g8 = record g7 { hubs = tell (m + 1 + 1) stop g7.hubs }

  -- Up to the close of the first hub.
  up_to_close :
      (ts : List Turn)
      → entry g.registry race_id ≡ none
      → g.returned m ≡ false
      → take_turns
          (starts none race_id
            ∷ ends g.opened
            ∷ starts none race_id
            ∷ hears m stop
            ∷ returns m
            ∷ ts)
          g
        ≡ take_turns ts g5
  unfolding take_turns
  up_to_close ts empty unreturned =
      let closes = hears m stop ∷ returns m ∷ ts in
      let s2 =
        end_step race_id m g.opened m g.live g1 (take_out_first race_id (newcomer race_id g) g.live)
          (entry-attached race_id g.registry) in
      let s5 =
        return_step race_id m g4 (omega arith) (closed-tell m g3.hubs) unreturned (ground arith) in
      ap (take_turns (ends g.opened ∷ starts none race_id ∷ closes)) (start_step race_id g empty)
      ∙ ap (take_turns (starts none race_id ∷ closes)) s2
      ∙ ap (take_turns closes) (start_step race_id g2 (entry-deleted race_id g1.registry.hubs))
      ∙ ap (take_turns (returns m ∷ ts)) (stop_step m g3 (omega arith) (ground arith))
      ∙ ap (take_turns ts) s5

  to_end :
      entry g.registry race_id ≡ none
      → g.returned m ≡ false
      → take_turns (late_turns race_id g) g ≡ g8
  unfolding take_turns on_close
  to_end empty unreturned =
      let last = hears (m + 1 + 1) stop ∷ [] in
      let s7 =
        end_step race_id (m + 1 + 1) (g.opened + 1) (m + 1) (newcomer race_id g5 ∷ g.live) g6
          (take_out_second race_id (newcomer race_id g5) (newcomer race_id g2) g.live (omega arith))
          (entry-attached race_id g5.registry) in
      up_to_close (starts none race_id ∷ ends (g.opened + 1) ∷ last) empty unreturned
      ∙ ap (take_turns (ends (g.opened + 1) ∷ last))
          (start_step race_id g5 (entry-deleted race_id g4.registry.hubs))
      ∙ ap (take_turns last) s7
      ∙ stop_step (m + 1 + 1) g7 (omega arith) (ground arith)

  cut_off : entry g.registry race_id ≡ none → g.returned m ≡ false → Strands race_id g
  unfolding on_close read_loop
  cut_off empty unreturned =
      let end = to_end empty unreturned in
      let closed =
        ap (λ (x : Gateway). (x.hubs (m + 1 + 1)).closed) end ∙ closed-tell (m + 1 + 1) g7.hubs in
      (
        ap (λ (x : Gateway). x.live) end,
        closed,
        ap (λ (x : Gateway). entry x.registry race_id) end ∙ entry-deleted race_id g6.registry.hubs,
        λ codec user_id display_name published.
            ap (λ b. read_loop codec user_id display_name (read_error b published ∷ [])) closed,
      )

-- From a new gateway on, after any schedule that leaves a race without an entry, where one connection
-- then comes and goes, and another comes before the first hub's loop has returned: that loop's late
-- close takes the second hub's entry away. A third connection gets a third hub, and when the second one
-- goes, its detach stops that hub, under the third connection, which is live: a read error then ends
-- its reader without a word to the room.
pub late_close_cuts_off :
    (race_id : String) (ts : List Turn)
    → entry (take_turns ts new_gateway).registry race_id ≡ none
    → Strands race_id (take_turns ts new_gateway)
late_close_cuts_off race_id ts empty =
    let g = take_turns ts new_gateway in
    cut_off race_id g empty (take_turns-IsFresh ts g.registry.made (omega arith))
