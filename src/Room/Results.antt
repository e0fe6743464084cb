-- ===== src/Room/Results.antt =====
-- The results that backend/internal/room/room.go hands to Postgres and Kafka.
use mathlib.Core.HLevel.{Π_prop}
use mathlib.Core.List.{mem-append, mem-map}
use mathlib.Core.List.Perm
use mathlib.Core.Logic.{∥∥₁_elim}
use mathlib.Core.Logic.Or
use text.Mathlib.TextEquality.{IsScalar-prop}
use native.Mathlib.Bridge.{le_prop}
use aviron.Base.{
  ℕ, ◌<◌, String, ◌≡◌, subst, true, false, List, map, Mem, none, some, inl, inr, ap, arith,
  Option-cases, is_some,
}
use aviron.Base.Dict
use aviron.Base.Dict.{values_all, count_if-delete}
use aviron.Room.State.{ParticipantState, ParticipantResult, RoomActor}
use aviron.Room.Env.{Env}
use aviron.Room.Actor.{race_results, build_participant_result, is_racing}
use aviron.Room.Board.{board, Slot, here, away, slot}
use aviron.Room.Ranks.{Ranked}

-- What is fair about the results of a race: everyone has a rank; those who did not finish, who have
-- no time, share one rank, behind that of everyone who did; and no two finishers share a rank.
pub record IsFair (rs : List ParticipantResult) : Type 0 where
  pub ranked : (x : ParticipantResult) → Mem x rs → is_some x.finish_rank ≡ true
  pub behind :
      (x : ParticipantResult)
      → Mem x rs
      → (y : ParticipantResult) → Mem y rs
      → (m n : ℕ) → is_some x.finish_time_ms ≡ false
      → is_some y.finish_time_ms ≡ true
      → x.finish_rank ≡ some m
      → y.finish_rank ≡ some n
      → n < m
  pub shared :
      (x : ParticipantResult)
      → Mem x rs
      → (y : ParticipantResult) → Mem y rs
      → is_some x.finish_time_ms ≡ false
      → is_some y.finish_time_ms ≡ false
      → x.finish_rank ≡ y.finish_rank
  pub distinct :
      (x : ParticipantResult)
      → Mem x rs
      → (y : ParticipantResult) → Mem y rs
      → is_some x.finish_time_ms ≡ true
      → is_some y.finish_time_ms ≡ true
      → x.finish_rank ≡ y.finish_rank
      → x ≡ y

module _ (env : Env) (r : RoomActor) where
  abbrev result : ParticipantState → ParticipantResult
  result = build_participant_result r

  -- What holds of the result of everyone in the room or departed holds of every result.
  race_results_all {ℓ} :
      {P : ParticipantResult → Type ℓ}
      → ((x : ParticipantResult) → IsProp (P x))
      → ((s : Slot) (p : ParticipantState) → slot (board r) s ≡ some p → P (result p))
      → (x : ParticipantResult) → Mem x (race_results env r)
      → P x
  unfolding race_results
  race_results_all {P} prop h x m =
      Or.elim (prop x) (mem-append.0 m) (λ m'. part r.participants (λ k p e. h (here k) p e) m')
        (λ m'. part r.departed_participants (λ k p e. h (away k) p e) m')
    where
      part :
          (d : Dict.Dict ParticipantState)
          → ((k : String) (p : ParticipantState) → Dict.get d k ≡ some p → P (result p))
          → Mem x (map result (env.order r (Dict.values d)))
          → P x
      part d g m' = ∥∥₁_elim (mem-map.0 m') (prop x) (λ w. subst P w.2 (
          values_all (λ p. prop (result p)) d g w.0
            ((Perm.mem_iff (env.order-perm r (Dict.values d))).0 w.1)))

  race_results_pairs {ℓ} :
      {R : ParticipantResult → ParticipantResult → Type ℓ}
      → ((x y : ParticipantResult) → IsProp (R x y))
      → ((s t : Slot) (p q : ParticipantState)
          → slot (board r) s ≡ some p
          → slot (board r) t ≡ some q
          → R (result p) (result q))
      → (x : ParticipantResult) → Mem x (race_results env r)
      → (y : ParticipantResult) → Mem y (race_results env r)
      → R x y
  race_results_pairs prop h =
      race_results_all (λ x. Π_prop (λ y. Π_prop (λ m. prop x y)))
        (λ s p e. race_results_all (λ y. prop _ y) (λ t q e'. h s t p q e e'))

  -- Someone without a rank makes the people seen outnumber the ranks.
  finishers-lt-seen :
      (s : Slot) (p : ParticipantState)
      → Ranked r
      → slot (board r) s ≡ some p
      → p.finish_rank ≡ none
      → r.finished_count < r.total_participants
  finishers-lt-seen (here u) p v e n =
      ground (arith, v.counted, count_if-delete is_racing r.participants u)
  finishers-lt-seen (away u) p v e n =
      ground (arith, v.counted, count_if-delete is_racing r.departed_participants u)

  result-ranked : (p : ParticipantState) → is_some (result p).finish_rank ≡ true
  unfolding build_participant_result
  result-ranked p = ground arith

  result-behind :
      (s t : Slot) (p q : ParticipantState)
      → Ranked r
      → slot (board r) s ≡ some p
      → slot (board r) t ≡ some q
      → (m n : ℕ) → is_some (result p).finish_time_ms ≡ false
      → is_some (result q).finish_time_ms ≡ true
      → (result p).finish_rank ≡ some m
      → (result q).finish_rank ≡ some n
      → n < m
  unfolding build_participant_result
  result-behind s t p q v e f m n a b c d =
      ground (arith, v.paired s p e, v.paired t q f, v.bounded t q n f, finishers-lt-seen s p v e)

  result-shared :
      (s t : Slot) (p q : ParticipantState)
      → Ranked r
      → slot (board r) s ≡ some p
      → slot (board r) t ≡ some q
      → is_some (result p).finish_time_ms ≡ false
      → is_some (result q).finish_time_ms ≡ false
      → (result p).finish_rank ≡ (result q).finish_rank
  unfolding build_participant_result
  result-shared s t p q v e f a b = ground (arith, v.paired s p e, v.paired t q f)

  result-distinct :
      (s t : Slot) (p q : ParticipantState)
      → Ranked r
      → slot (board r) s ≡ some p
      → slot (board r) t ≡ some q
      → is_some (result p).finish_time_ms ≡ true
      → is_some (result q).finish_time_ms ≡ true
      → (result p).finish_rank ≡ (result q).finish_rank
      → result p ≡ result q
  result-distinct s t p q v e f a b c = elim (Option-cases p.finish_rank) [
    | inl n ↦ absurd (unfold build_participant_result in ground (arith, v.paired s p e))
    | inr (n, k) ↦ ap result (
        ground (
          arith,
          e,
          f,
          ap (slot (board r)) (
              v.unique s t p q n e f k
                (unfold build_participant_result in ground (arith, v.paired t q f))),
        ))
  ]

  ParticipantResult-set : IsSet ParticipantResult
  ParticipantResult-set = hlevel IsScalar-prop

  -- In a room whose ranks are in order, the results are fair.
  pub race_results-IsFair : Ranked r → IsFair (race_results env r)
  race_results-IsFair v = record {
    ranked = race_results_all (λ x. hlevel) (λ s p e. result-ranked p);
    behind =
        race_results_pairs (λ x y. hlevel le_prop) (λ s t p q e f. result-behind s t p q v e f);
    shared = race_results_pairs (λ x y. hlevel) (λ s t p q e f. result-shared s t p q v e f);
    distinct =
        race_results_pairs (λ x y. hlevel ParticipantResult-set)
          (λ s t p q e f. result-distinct s t p q v e f);
  }
