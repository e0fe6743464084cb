-- ===== src/Room/Board/Keeps.antt =====
-- Every step of the board keeps the ranks in order.
use text.Mathlib.TextEquality.{eq_iff}
use aviron.Base.{ℕ, ◌+◌, ◌≤◌, ◌≡◌, some, count_if, is_some, arith}
use aviron.Base.Dict
use aviron.Base.Dict.{
  Dict, tally, get-store, get-delete, count_if-store, count_if-delete, values-store,
}
use aviron.Room.State.{ParticipantState}
use aviron.Room.Actor.{is_racing}
use aviron.Room.Board.{
  Board, BoardStep, BoardSteps, stays, moves, enters, updates, finishes, departs, leaves, Slot,
  here, away, slot, IsRanked,
}
use aviron.Room.Board.Unique.{Unique-BoardStep}

counted-BoardStep :
    {b c : Board}
    → BoardStep b c
    → IsRanked b
    → count_if is_racing (Dict.values c.live)
        + count_if is_racing (Dict.values c.gone)
        + c.finishers
      ≤ c.seen
counted-BoardStep {b} (enters u p e n f) v =
    ground (arith, v.counted, count_if-store is_racing b.live u p)
counted-BoardStep {b} (updates u p q e n f) v =
    ground (arith, v.counted, count_if-store is_racing b.live u q)
counted-BoardStep {b} (finishes u p q t e n m f) v =
    ground (arith, v.counted, count_if-store is_racing b.live u q)
counted-BoardStep {b} (departs u p e) v =
    ground
      (arith, v.counted, count_if-store is_racing b.gone u p, count_if-delete is_racing b.live u)
counted-BoardStep {b} (leaves u) v = ground (arith, v.counted, count_if-delete is_racing b.live u)

paired-BoardStep :
    {b c : Board}
    → BoardStep b c
    → IsRanked b
    → (s : Slot) (p : ParticipantState) → slot c s ≡ some p
    → is_some p.finished_at ≡ is_some p.finish_rank
paired-BoardStep {b} (enters u p e n f) v (here w) q h =
    ground (arith, v.paired (here w) q, get-store b.live u w p, eq_iff u w)
paired-BoardStep {b} (updates u p p' e n f) v (here w) q h =
    ground (arith, v.paired (here w) q, v.paired (here u) p, get-store b.live u w p', eq_iff u w)
paired-BoardStep {b} (finishes u p p' t e n m f) v (here w) q h =
    ground (arith, v.paired (here w) q, get-store b.live u w p', eq_iff u w)
paired-BoardStep {b} (departs u p e) v (here w) q h =
    ground (arith, v.paired (here w) q, get-delete b.live u w, eq_iff u w)
paired-BoardStep {b} (departs u p e) v (away w) q h =
    ground (arith, v.paired (away w) q, v.paired (here u) p, get-store b.gone u w p, eq_iff u w)
paired-BoardStep {b} (leaves u) v (here w) q h =
    ground (arith, v.paired (here w) q, get-delete b.live u w, eq_iff u w)
paired-BoardStep (enters u p e n f) v (away w) q h = v.paired (away w) q h
paired-BoardStep (updates u p p' e n f) v (away w) q h = v.paired (away w) q h
paired-BoardStep (finishes u p p' t e n m f) v (away w) q h = v.paired (away w) q h
paired-BoardStep (leaves u) v (away w) q h = v.paired (away w) q h

bounded-BoardStep :
    {b c : Board}
    → BoardStep b c
    → IsRanked b
    → (s : Slot) (p : ParticipantState) (n : ℕ) → slot c s ≡ some p
    → p.finish_rank ≡ some n
    → (1 ≤ n) × (n ≤ c.finishers)
bounded-BoardStep {b} (enters u p e m f) v (here w) q n h r =
    ground (arith, v.bounded (here w) q n, get-store b.live u w p, eq_iff u w)
bounded-BoardStep {b} (updates u p p' e m f) v (here w) q n h r =
    ground
      (arith, v.bounded (here w) q n, v.bounded (here u) p n, get-store b.live u w p', eq_iff u w)
bounded-BoardStep {b} (finishes u p p' t e m m' f) v (here w) q n h r =
    ground (arith, v.bounded (here w) q n, get-store b.live u w p', eq_iff u w)
bounded-BoardStep {b} (departs u p e) v (here w) q n h r =
    ground (arith, v.bounded (here w) q n, get-delete b.live u w, eq_iff u w)
bounded-BoardStep {b} (departs u p e) v (away w) q n h r =
    ground
      (arith, v.bounded (away w) q n, v.bounded (here u) p n, get-store b.gone u w p, eq_iff u w)
bounded-BoardStep {b} (leaves u) v (here w) q n h r =
    ground (arith, v.bounded (here w) q n, get-delete b.live u w, eq_iff u w)
bounded-BoardStep (finishes u p p' t e m m' f) v (away w) q n h r =
    omega (arith, v.bounded (away w) q n h r)
bounded-BoardStep (enters u p e m f) v (away w) q n h r = v.bounded (away w) q n h r
bounded-BoardStep (updates u p p' e m f) v (away w) q n h r = v.bounded (away w) q n h r
bounded-BoardStep (leaves u) v (away w) q n h r = v.bounded (away w) q n h r

BoardStep-IsRanked : {b c : Board} → BoardStep b c → IsRanked b → IsRanked c
BoardStep-IsRanked st v = record {
  paired = paired-BoardStep st v;
  bounded = bounded-BoardStep st v;
  unique = Unique-BoardStep st v;
  counted = counted-BoardStep st v;
}

-- Whatever happens to the standings, the ranks stay in order.
pub BoardSteps-IsRanked : {b c : Board} → BoardSteps b c → IsRanked b → IsRanked c
BoardSteps-IsRanked stays v = v
BoardSteps-IsRanked (moves ss st) v = BoardStep-IsRanked st (BoardSteps-IsRanked ss v)
