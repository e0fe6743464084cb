-- ===== src/Room/Board/Unique.antt =====
-- No step of the board gives one rank to two people.
use text.Mathlib.TextEquality.{eq_iff}
use aviron.Base.{ℕ, ◌+◌, String, ◌≡◌, none, some, arith}
use aviron.Base.Dict
use aviron.Base.Dict.{get-store, get-delete}
use aviron.Room.State.{ParticipantState}
use aviron.Room.Board.{
  Board, BoardStep, enters, updates, finishes, departs, leaves, Slot, here, away, slot, IsRanked,
}

abbrev Unique : Board → Slot → Slot → Type 0
Unique b s t =
    (p q : ParticipantState) (n : ℕ)
    → slot b s ≡ some p
    → slot b t ≡ some q
    → p.finish_rank ≡ some n
    → q.finish_rank ≡ some n
    → s ≡ t

Unique-departs :
    (b : Board) (u : String) (p : ParticipantState)
    → Dict.get b.live u ≡ some p
    → IsRanked b
    → (s t : Slot)
    → Unique (record b { live = Dict.delete b.live u; gone = Dict.store b.gone u p }) s t
Unique-departs b u p e v (here x) (here y) q q' n h h' r r' =
    ground (arith, v.unique (here x) (here y) q q' n, get-delete b.live u x, get-delete b.live u y)
Unique-departs b u p e v (here x) (away y) q q' n h h' r r' = ground (
  arith,
  v.unique (here x) (away y) q q' n,
  v.unique (here x) (here u) q q' n,
  get-delete b.live u x,
  get-store b.gone u y p,
  eq_iff u x,
)
Unique-departs b u p e v (away x) (here y) q q' n h h' r r' = ground (
  arith,
  v.unique (away x) (here y) q q' n,
  v.unique (here u) (here y) q q' n,
  get-delete b.live u y,
  get-store b.gone u x p,
  eq_iff u y,
)
Unique-departs b u p e v (away x) (away y) q q' n h h' r r' = ground (
  arith,
  v.unique (away x) (away y) q q' n,
  v.unique (here u) (away y) q q' n,
  v.unique (away x) (here u) q q' n,
  get-store b.gone u x p,
  get-store b.gone u y p,
  eq_iff u x,
  eq_iff u y,
)

Unique-enters :
    (b : Board) (u : String) (p : ParticipantState)
    → p.finish_rank ≡ none
    → IsRanked b
    → (s t : Slot) → Unique (record b { live = Dict.store b.live u p; seen = b.seen + 1 }) s t
Unique-enters b u p e v (here x) (here y) q q' n h h' r r' =
    ground
      (arith, v.unique (here x) (here y) q q' n, get-store b.live u x p, get-store b.live u y p)
Unique-enters b u p e v (here x) (away y) q q' n h h' r r' =
    ground (arith, v.unique (here x) (away y) q q' n, get-store b.live u x p)
Unique-enters b u p e v (away x) (here y) q q' n h h' r r' =
    ground (arith, v.unique (away x) (here y) q q' n, get-store b.live u y p)
Unique-enters b u p e v (away x) (away y) q q' n h h' r r' =
    v.unique (away x) (away y) q q' n h h' r r'

Unique-updates :
    (b : Board) (u : String) (p p' : ParticipantState)
    → Dict.get b.live u ≡ some p
    → p'.finish_rank ≡ p.finish_rank
    → IsRanked b
    → (s t : Slot) → Unique (record b { live = Dict.store b.live u p' }) s t
Unique-updates b u p p' e f v (here x) (here y) q q' n h h' r r' = ground (
  arith,
  v.unique (here x) (here y) q q' n,
  v.unique (here x) (here y) p q' n,
  v.unique (here x) (here y) q p n,
  eq_iff u x,
  eq_iff u y,
  get-store b.live u x p',
  get-store b.live u y p',
)
Unique-updates b u p p' e f v (here x) (away y) q q' n h h' r r' = ground (
  arith,
  v.unique (here x) (away y) q q' n,
  v.unique (here x) (away y) p q' n,
  eq_iff u x,
  get-store b.live u x p',
)
Unique-updates b u p p' e f v (away x) (here y) q q' n h h' r r' = ground (
  arith,
  v.unique (away x) (here y) q q' n,
  v.unique (away x) (here y) q p n,
  eq_iff u y,
  get-store b.live u y p',
)
Unique-updates b u p p' e f v (away x) (away y) q q' n h h' r r' =
    v.unique (away x) (away y) q q' n h h' r r'

Unique-finishes :
    (b : Board) (u : String) (p' : ParticipantState)
    → p'.finish_rank ≡ some (b.finishers + 1)
    → IsRanked b
    → (s t : Slot)
    → Unique (record b { live = Dict.store b.live u p'; finishers = b.finishers + 1 }) s t
Unique-finishes b u p' f v (here x) (here y) q q' n h h' r r' = ground (
  arith,
  v.unique (here x) (here y) q q' n,
  v.bounded (here x) q n,
  v.bounded (here y) q' n,
  eq_iff u x,
  eq_iff u y,
  get-store b.live u x p',
  get-store b.live u y p',
)
Unique-finishes b u p' f v (here x) (away y) q q' n h h' r r' =
    ground
      (arith, v.unique (here x) (away y) q q' n, v.bounded (away y) q' n, get-store b.live u x p')
Unique-finishes b u p' f v (away x) (here y) q q' n h h' r r' =
    ground
      (arith, v.unique (away x) (here y) q q' n, v.bounded (away x) q n, get-store b.live u y p')
Unique-finishes b u p' f v (away x) (away y) q q' n h h' r r' =
    v.unique (away x) (away y) q q' n h h' r r'

Unique-leaves :
    (b : Board) (u : String)
    → IsRanked b
    → (s t : Slot) → Unique (record b { live = Dict.delete b.live u }) s t
Unique-leaves b u v (here x) (here y) q q' n h h' r r' =
    ground (arith, v.unique (here x) (here y) q q' n, get-delete b.live u x, get-delete b.live u y)
Unique-leaves b u v (here x) (away y) q q' n h h' r r' =
    ground (arith, v.unique (here x) (away y) q q' n, get-delete b.live u x)
Unique-leaves b u v (away x) (here y) q q' n h h' r r' =
    ground (arith, v.unique (away x) (here y) q q' n, get-delete b.live u y)
Unique-leaves b u v (away x) (away y) q q' n h h' r r' = v.unique (away x) (away y) q q' n h h' r r'

pub Unique-BoardStep : {b c : Board} → BoardStep b c → IsRanked b → (s t : Slot) → Unique c s t
Unique-BoardStep {b} (enters u p e m f) v s t = Unique-enters b u p m v s t
Unique-BoardStep {b} (updates u p q e m f) v s t = Unique-updates b u p q e m v s t
Unique-BoardStep {b} (finishes u p q i e m m' f) v s t = Unique-finishes b u q m' v s t
Unique-BoardStep {b} (departs u p e) v s t = Unique-departs b u p e v s t
Unique-BoardStep {b} (leaves u) v s t = Unique-leaves b u v s t
