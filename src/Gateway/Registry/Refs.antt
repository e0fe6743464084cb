-- ===== src/Gateway/Registry/Refs.antt =====
-- Entries of the registry, whatever a subscription answers.
use text.Mathlib.TextEquality.{eq_iff}
use text.Mathlib.Text.{◌==◌}
use aviron.Base.{
  ℕ, ◌+◌, ◌-◌, ◌<◌, ◌≤◌, sym, subst, String, ◌≡◌, refl, ◌∷◌, Option, none, some, leb, arith,
  match_rule, if_rule,
}
use aviron.Base.Dict
use aviron.Base.Dict.{get-store, get-delete}
use aviron.Room.State.{Error}
use aviron.Gateway.Registry.{RaceHubEntry, RaceHubRegistry, attach_first, attach, detach, on_close}
use aviron.Gateway.Registry.Laws.{entry, refs}

-- An entry that is held by someone.
abbrev pub IsHeld : Option RaceHubEntry → Type 0
IsHeld none = Unit
IsHeld (some e) = 0 < e.ref_count

pub attach_refused :
    (err : Option Error) (race_id : String) (r : RaceHubRegistry)
    → (attach err race_id r).0 ≡ none
    → (attach err race_id r).1 ≡ r
unfolding attach attach_first
attach_refused (some e) race_id r = ground arith
attach_refused none race_id r = ground arith

-- Only an attach without an entry asks for a subscription.
pub attach_answered :
    (err : Option Error) (race_id : String) (r : RaceHubRegistry) (n : ℕ)
    → (attach err race_id r).0 ≡ some n
    → (attach err race_id r).1 ≡ (attach none race_id r).1
unfolding attach attach_first
attach_answered (some e) race_id r n h = ground (arith, h)
attach_answered none race_id r n h = refl

-- Storing an entry that is held.
store-IsHeld :
    (race_id j : String) (hubs : Dict.Dict RaceHubEntry) (e : RaceHubEntry)
    → 0 < e.ref_count
    → IsHeld (Dict.get hubs j)
    → IsHeld (Dict.get (Dict.store hubs race_id e) j)
store-IsHeld race_id j hubs e p held =
    subst IsHeld (sym (get-store hubs race_id j e))
      (if_rule IsHeld (race_id == j) (λ _. p) (λ _. held))

delete-IsHeld :
    (race_id j : String) (hubs : Dict.Dict RaceHubEntry)
    → IsHeld (Dict.get hubs j)
    → IsHeld (Dict.get (Dict.delete hubs race_id) j)
delete-IsHeld race_id j hubs held =
    subst IsHeld (sym (get-delete hubs race_id j))
      (if_rule IsHeld (race_id == j) (λ _. tt) (λ _. held))

pub attach-IsHeld :
    (race_id j : String) (r : RaceHubRegistry)
    → IsHeld (entry r j)
    → IsHeld (entry (attach none race_id r).1 j)
unfolding attach attach_first
attach-IsHeld race_id j r held =
    match_rule (λ (x : Option ℕ × RaceHubRegistry). IsHeld (entry x.1 j)) (Dict.get r.hubs race_id)
      (λ _.
        store-IsHeld race_id j r.hubs (record { hub = r.made; ref_count = 1 }) (omega arith) held)
      (λ e _.
        store-IsHeld race_id j r.hubs (record e { ref_count = e.ref_count + 1 }) (omega arith) held)

pub detach-IsHeld :
    (race_id j : String) (r : RaceHubRegistry)
    → IsHeld (entry r j)
    → IsHeld (entry (detach race_id r) j)
unfolding detach
detach-IsHeld race_id j r held =
    match_rule (λ (x : RaceHubRegistry). IsHeld (entry x j)) (Dict.get r.hubs race_id) (λ _. held)
      (λ e _.
        if_rule (λ (x : RaceHubRegistry). IsHeld (entry x j)) (leb e.ref_count 1)
          (λ _. delete-IsHeld race_id j r.hubs held)
          (λ l.
            store-IsHeld race_id j r.hubs (record e { ref_count = e.ref_count - 1 })
              (ground (arith, l)) held))

pub on_close-IsHeld :
    (race_id j : String) (r : RaceHubRegistry)
    → IsHeld (entry r j)
    → IsHeld (entry (on_close race_id r) j)
unfolding on_close
on_close-IsHeld race_id j r held = delete-IsHeld race_id j r.hubs held

pub refs-on_close :
    (race_id j : String) (r : RaceHubRegistry)
    → refs (entry (on_close race_id r) j) ≤ refs (entry r j)
unfolding on_close
refs-on_close race_id j r = ground (arith, get-delete r.hubs race_id j)

pub made-attach :
    (err : Option Error) (race_id : String) (r : RaceHubRegistry)
    → r.made ≤ (attach err race_id r).1.made
unfolding attach attach_first
made-attach (some e) race_id r = ground arith
made-attach none race_id r = ground arith

-- What an attach and a detach do where they make and stop a hub.
abbrev pub attached : String → RaceHubRegistry → RaceHubRegistry
attached race_id r = record r {
  hubs = Dict.store r.hubs race_id (record { hub = r.made; ref_count = 1 });
  made = r.made + 1;
}

abbrev pub detached : String → ℕ → RaceHubRegistry → RaceHubRegistry
detached race_id hub r = record r { hubs = Dict.delete r.hubs race_id; stopped = hub ∷ r.stopped }

pub attach_makes :
    (race_id : String) (r : RaceHubRegistry)
    → entry r race_id ≡ none
    → attach none race_id r ≡ (some r.made, attached race_id r)
unfolding attach attach_first
attach_makes race_id r h =
    match_rule (λ (x : Option ℕ × RaceHubRegistry). x ≡ (some r.made, attached race_id r))
      (Dict.get r.hubs race_id) (λ _. refl) (λ e f. ground (arith, h, f))

pub detach_stops :
    (race_id : String) (hub : ℕ) (r : RaceHubRegistry)
    → entry r race_id ≡ some (record { hub = hub; ref_count = 1 })
    → detach race_id r ≡ detached race_id hub r
unfolding detach
detach_stops race_id hub r h = ground (arith, h)

pub entry-attached :
    (race_id : String) (r : RaceHubRegistry)
    → entry (attached race_id r) race_id ≡ some (record { hub = r.made; ref_count = 1 })
entry-attached race_id r = ground (
  arith,
  eq_iff race_id race_id,
  get-store r.hubs race_id race_id (record { hub = r.made; ref_count = 1 }),
)

pub entry-deleted :
    (race_id : String) (hubs : Dict.Dict RaceHubEntry)
    → Dict.get (Dict.delete hubs race_id) race_id ≡ none
entry-deleted race_id hubs = ground (arith, eq_iff race_id race_id, get-delete hubs race_id race_id)
