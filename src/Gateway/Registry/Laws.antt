-- ===== src/Gateway/Registry/Laws.antt =====
-- References and hubs of one race.
use text.Mathlib.Text.{◌==◌}
use text.Mathlib.TextEquality.{eq_iff}
use aviron.Base.{
  ℕ, ◌+◌, ◌-◌, ◌≤◌, ◌<◌, String, ◌≡◌, ◌⊎◌, inl, inr, refl, ap, ◌∙◌, List, [], ◌∷◌, Option, none,
  some, leb, arith, match_rule, if_rule, if◌then◌else◌,
}
use aviron.Base.Dict
use aviron.Base.Dict.{get-store, get-delete}
use aviron.Gateway.Registry.{RaceHubEntry, RaceHubRegistry, attach_first, attach, detach, on_close}

-- A registry's entry for a race.
abbrev pub entry : RaceHubRegistry → String → Option RaceHubEntry
entry r race_id = Dict.get r.hubs race_id

-- How many connections a race has, by its entry.
abbrev pub refs : Option RaceHubEntry → ℕ
refs none = 0
refs (some e) = e.ref_count

refs-attach_first :
    (race_id j : String) (r : RaceHubRegistry)
    → entry r race_id ≡ none
    → refs (entry (attach_first none race_id r).1 j)
      ≡ (if race_id == j then refs (entry r j) + 1 else refs (entry r j))
unfolding attach_first
refs-attach_first race_id j r e =
    ground
      (arith, eq_iff race_id j, get-store r.hubs race_id j (record { hub = r.made; ref_count = 1 }))

-- An attach that finds its hub, or can subscribe, adds one reference to its race, and to no other.
pub refs-attach :
    (race_id j : String) (r : RaceHubRegistry)
    → refs (entry (attach none race_id r).1 j)
      ≡ (if race_id == j then refs (entry r j) + 1 else refs (entry r j))
unfolding attach
refs-attach race_id j r =
    match_rule
      (λ (x : Option ℕ × RaceHubRegistry).
        refs (entry x.1 j) ≡ (if race_id == j then refs (entry r j) + 1 else refs (entry r j)))
      (Dict.get r.hubs race_id) (refs-attach_first race_id j r)
      (λ e h. ground (
        arith,
        eq_iff race_id j,
        get-store r.hubs race_id j (record e { ref_count = e.ref_count + 1 }),
      ))

-- A detach takes one reference from its race, if there is one, and from no other.
pub refs-detach :
    (race_id j : String) (r : RaceHubRegistry)
    → refs (entry (detach race_id r) j)
      ≡ (if race_id == j then refs (entry r j) - 1 else refs (entry r j))
unfolding detach
refs-detach race_id j r =
    match_rule Taken (Dict.get r.hubs race_id) (λ h. ground (arith, eq_iff race_id j))
      (λ e h.
        if_rule Taken (leb e.ref_count 1)
          (λ l. ground (arith, eq_iff race_id j, get-delete r.hubs race_id j))
          (λ l. ground (
            arith,
            eq_iff race_id j,
            get-store r.hubs race_id j (record e { ref_count = e.ref_count - 1 }),
          )))
  where
    Taken : RaceHubRegistry → Type 0
    Taken s = refs (entry s j) ≡ (if race_id == j then refs (entry r j) - 1 else refs (entry r j))

-- The calls that a gateway's connections make.
pub data Use : Type 0 where
  attaches : String → Use
  detaches : String → Use

abbrev pub after_use : Use → RaceHubRegistry → RaceHubRegistry
after_use (attaches race_id) r = (attach none race_id r).1
after_use (detaches race_id) r = detach race_id r

abbrev pub after_uses : List Use → RaceHubRegistry → RaceHubRegistry
after_uses [] r = r
after_uses (u ∷ us) r = after_uses us (after_use u r)

-- The connections to a race, counted without hubs.
abbrev pub connected : String → ℕ → List Use → ℕ
connected j n [] = n
connected j n (attaches race_id ∷ us) = connected j (if race_id == j then n + 1 else n) us
connected j n (detaches race_id ∷ us) = connected j (if race_id == j then n - 1 else n) us

-- Under any calls of attach and detach for any races, when every subscription succeeds, the
-- references of each race are the attaches less the detaches that came before.
pub refs-after_uses :
    (us : List Use) (j : String) (r : RaceHubRegistry)
    → refs (entry (after_uses us r) j) ≡ connected j (refs (entry r j)) us
refs-after_uses [] j r = refl
refs-after_uses (attaches race_id ∷ us) j r =
    refs-after_uses us j (attach none race_id r).1
    ∙ ap (λ n. connected j n us) (refs-attach race_id j r)
refs-after_uses (detaches race_id ∷ us) j r =
    refs-after_uses us j (detach race_id r) ∙ ap (λ n. connected j n us) (refs-detach race_id j r)

-- The last detach of a race takes its entry away and stops its hub; any other keeps the hub.
pub detach_lem :
    (race_id : String) (r : RaceHubRegistry) (e : RaceHubEntry)
    → entry r race_id ≡ some e
    → ((e.ref_count ≤ 1)
        × (entry (detach race_id r) race_id ≡ none)
        × ((detach race_id r).stopped ≡ e.hub ∷ r.stopped))
      ⊎ ((1 < e.ref_count)
          × (entry (detach race_id r) race_id ≡ some (record e { ref_count = e.ref_count - 1 }))
          × ((detach race_id r).stopped ≡ r.stopped))
unfolding detach
detach_lem race_id r e h = ground (
  arith,
  eq_iff race_id race_id,
  get-delete r.hubs race_id race_id,
  get-store r.hubs race_id race_id (record e { ref_count = e.ref_count - 1 }),
)

-- The hub of an attach is the one that the race's entry then names.
attach_names :
    (race_id : String) (r : RaceHubRegistry)
    → entry r race_id ≡ none
    → ((attach none race_id r).0 ≡ some r.made)
      × (entry (attach none race_id r).1 race_id ≡ some (record { hub = r.made; ref_count = 1 }))
      × ((attach none race_id r).1.made ≡ r.made + 1)
unfolding attach attach_first
attach_names race_id r e = ground (
  arith,
  eq_iff race_id race_id,
  get-store r.hubs race_id race_id (record { hub = r.made; ref_count = 1 }),
)

entry-on_close :
    (race_id : String) (r : RaceHubRegistry) → entry (on_close race_id r) race_id ≡ none
unfolding on_close
entry-on_close race_id r = ground (arith, eq_iff race_id race_id, get-delete r.hubs race_id race_id)

pub made-on_close : (race_id : String) (r : RaceHubRegistry) → (on_close race_id r).made ≡ r.made
unfolding on_close
made-on_close race_id r = refl

-- The only connection's detach leaves no entry.
entry-detach_last :
    (race_id : String) (r : RaceHubRegistry) (hub : ℕ)
    → entry r race_id ≡ some (record { hub = hub; ref_count = 1 })
    → entry (detach race_id r) race_id ≡ none
entry-detach_last race_id r hub h =
    elim (detach_lem race_id r (record { hub = hub; ref_count = 1 }) h) [
      | inl last ↦ last.1
      | inr more ↦ absurd (omega (arith, more.0))
    ]

pub made-detach : (race_id : String) (r : RaceHubRegistry) → (detach race_id r).made ≡ r.made
unfolding detach
made-detach race_id r = ground arith

-- The close of a hub forgets whatever hub its race has by then. Where a race has no entry, and a
-- connection comes and goes, and another comes before the first hub's loop has returned: the second
-- hub was just handed out, the late close of the first removes its entry, and the next connection
-- gets a third hub, so that one race has two.
pub late_close_splits :
    (race_id : String) (r : RaceHubRegistry)
    → entry r race_id ≡ none
    → let first = (attach none race_id r).1 in
      let second = attach none race_id (detach race_id first) in
      let third = attach none race_id (on_close race_id second.1) in
      (second.0 ≡ some (r.made + 1))
      × (entry second.1 race_id ≡ some (record { hub = r.made + 1; ref_count = 1 }))
      × (third.0 ≡ some (r.made + 1 + 1))
late_close_splits race_id r e =
    let first = (attach none race_id r).1 in
    let freed = detach race_id first in
    let second = (attach none race_id freed).1 in
    let (_, named, made) = attach_names race_id r e in
    let empty_again = entry-detach_last race_id first r.made named in
    let (hub, named', made') = attach_names race_id freed empty_again in
    let (hub', _, _) =
      attach_names race_id (on_close race_id second) (entry-on_close race_id second) in
    let same = made-detach race_id first ∙ made in
    let count = made-on_close race_id second ∙ made' ∙ ap (λ n. n + 1) same in
    (
      hub ∙ ap some same,
      named' ∙ ap (λ n. some (record { hub = n; ref_count = 1 })) same,
      hub' ∙ ap some count,
    )
