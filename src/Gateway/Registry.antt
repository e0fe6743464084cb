-- ===== src/Gateway/Registry.antt =====
-- backend/internal/wsgateway/racehub.go: `RaceHubRegistry`, one hub for each race with a local
-- connection. A hub is named by a number, as a pointer is by its address.
pub mod Laws
pub mod Refs
use aviron.Base.{
  ℕ, zero, suc, ◌+◌, ◌-◌, String, Bool, true, false, List, [], ◌∷◌, ◌++◌, Option, none, some, leb,
  ◌==◌, if◌then◌else◌,
}
use aviron.Base.Dict
use aviron.Base.Dict.{Dict}
use aviron.Room.State.{Error}

pub record RaceHubEntry : Type 0 where
  pub hub : ℕ
  pub ref_count : ℕ

pub record RaceHubRegistry : Type 0 where
  pub hubs : Dict RaceHubEntry
  -- the hubs made so far, which are numbered from 0
  pub made : ℕ
  -- the hubs whose `stop` was closed
  pub stopped : List ℕ

unfoldable pub new_race_hub_registry : RaceHubRegistry
new_race_hub_registry = record { hubs = Dict.empty; made = 0; stopped = [] }

-- A subscription that is answered by `err`, `none` for nil.
attach_first : Option Error → String → RaceHubRegistry → Option ℕ × RaceHubRegistry
attach_first (some e) race_id r = (none, r)
attach_first none race_id r = (
  some r.made,
  record r {
    hubs = Dict.store r.hubs race_id (record { hub = r.made; ref_count = 1 });
    made = r.made + 1;
  },
)

-- attach: the hub to use, or none where the subscription fails
pub attach : Option Error → String → RaceHubRegistry → Option ℕ × RaceHubRegistry
unfolding attach_first
attach err race_id r = elim (Dict.get r.hubs race_id) [
  | some entry ↦ (
    some entry.hub,
    record r {
      hubs = Dict.store r.hubs race_id (record entry { ref_count = entry.ref_count + 1 });
    },
  )
  | none ↦ attach_first err race_id r
]

-- detach
pub detach : String → RaceHubRegistry → RaceHubRegistry
detach race_id r = elim (Dict.get r.hubs race_id) [
  | none ↦ r
  | some entry ↦
      if leb entry.ref_count 1
      then record r { hubs = Dict.delete r.hubs race_id; stopped = entry.hub ∷ r.stopped }
      else record r {
        hubs = Dict.store r.hubs race_id (record entry { ref_count = entry.ref_count - 1 });
      }
]

-- The `onClose` that `attach` hands to the hub it makes, called once the hub's loop has returned.
unfoldable pub on_close : String → RaceHubRegistry → RaceHubRegistry
on_close race_id r = record r { hubs = Dict.delete r.hubs race_id }

-- Count, given what each hub counts.
pub count_all : (ℕ → ℕ) → List RaceHubEntry → ℕ
count_all hub_count [] = 0
count_all hub_count (e ∷ es) = hub_count e.hub + count_all hub_count es

pub count : (ℕ → ℕ) → RaceHubRegistry → ℕ
unfolding count_all
count hub_count r = count_all hub_count (Dict.values r.hubs)
