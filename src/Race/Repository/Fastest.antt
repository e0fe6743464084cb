-- ===== src/Race/Repository/Fastest.antt =====
-- The best time of a user on the leaderboard.
use text.Mathlib.TextEquality.{eq_iff}
use aviron.Base.{
  ℕ, ◌+◌, ◌*◌, String, ◌≡◌, Bool, true, false, List, [], ◌∷◌, Option, none, some, length, arith,
  All, if_rule, match_rule,
}
use aviron.Base.Int.{ℤ, leb_ℤ}
use aviron.Base.Dict
use aviron.Base.Dict.{get-store}
use aviron.Room.State.{ParticipantResult}
use aviron.Race.Data.{
  LeaderboardRow, Database, Result, ok, err, Postgres, result_rule, OnSuccess, succeeds,
}
use aviron.Race.Repository.Finishing.{
  best_time, first_entry, next_entry, upsert_leaderboard, score, finish_results, commit,
  mark_finished, finish_race,
}
use aviron.Race.Repository.Outcome.{entry, is_of}

abbrev pub best_of : Option LeaderboardRow → Option ℤ
best_of none = none
best_of (some l) = l.best_2000m_ms

-- There is a time, and it is no longer than `t`.
abbrev pub at_most : Option ℤ → ℤ → Bool
at_most none t = false
at_most (some b) t = leb_ℤ b t

best_time-at_most_new : (old : Option ℤ) (t : ℤ) → at_most (best_time (some t) old) t ≡ true
best_time-at_most_new none t = ground arith
best_time-at_most_new (some o) t = ground arith

best_time-at_most_old :
    (new old : Option ℤ) (t : ℤ) → at_most old t ≡ true → at_most (best_time new old) t ≡ true
best_time-at_most_old none old t h = h
best_time-at_most_old (some n) none t h = ground arith
best_time-at_most_old (some n) (some o) t h = ground arith

-- No time that was reached is lost.
abbrev pub Keeps : String → Database → Database → Type 0
Keeps j db tx =
    (t : ℤ) → at_most (best_of (entry db j)) t ≡ true → at_most (best_of (entry tx j)) t ≡ true

-- The time of a result of the user is reached.
abbrev pub Reached : String → Database → ParticipantResult → Type 0
Reached j tx res =
    is_of j res ≡ true
    → (t : ℤ) → res.finish_time_ms ≡ some t
    → at_most (best_of (entry tx j)) t ≡ true

-- No time is lost, and the time of every result is reached.
abbrev pub ImprovesAll : String → List ParticipantResult → Database → Database → Type 0
ImprovesAll j results tx tx' = Keeps j tx tx' × All (Reached j tx') results

module _ (pg : Postgres) (d : ℤ) (j : String) where
  abbrev Improves : ParticipantResult → Database → Database → Type 0
  Improves res tx tx' = Keeps j tx tx' × Reached j tx' res

  upsert-Improves :
      (res : ParticipantResult) (tx : Database)
      → OnSuccess (Improves res tx) (upsert_leaderboard pg d res tx)
  unfolding upsert_leaderboard
  upsert-Improves res tx =
      match_rule (OnSuccess (Improves res tx)) (Dict.get tx.leaderboard_alltime res.user_id)
        (λ h.
          let stored =
            get-store tx.leaderboard_alltime res.user_id j (first_entry d res (pg.now tx)) in
          if_rule (OnSuccess (Improves res tx)) (Dict.has tx.users res.user_id)
            (λ _. (
              λ t k. ground (arith, eq_iff res.user_id j, stored),
              λ m t e. ground (arith, eq_iff res.user_id j, stored),
            ))
            (λ _. tt))
        (λ old h.
          let stored =
            get-store tx.leaderboard_alltime res.user_id j (next_entry pg d res (pg.now tx) old) in
          (
            λ t k. ground (
              arith,
              eq_iff res.user_id j,
              stored,
              best_time-at_most_old res.finish_time_ms old.best_2000m_ms t,
            ),
            λ m t e.
                ground
                  (arith, eq_iff res.user_id j, stored, best_time-at_most_new old.best_2000m_ms t),
          ))

  module _ (id : String) where
    finish_results-ImprovesAll :
        (i : ℕ) (results : List ParticipantResult) (tx : Database)
        → OnSuccess (ImprovesAll j results tx) (finish_results pg id d i results tx)
    unfolding finish_results
    finish_results-ImprovesAll i [] tx = (λ t k. k, tt)
    finish_results-ImprovesAll i (res ∷ results) tx =
        match_rule P (pg.fault tx i)
          (λ _.
            match_rule P (pg.fault (score id res tx) (i + 1))
              (λ _.
                result_rule P (upsert_leaderboard pg d res (score id res tx))
                  (λ tx' e. together tx' e _ (finish_results-ImprovesAll (i + 2) results tx'))
                  (λ _ _. tt))
              (λ _ _. tt))
          (λ _ _. tt)
      where
        P : Result Database → Type 0
        P = OnSuccess (ImprovesAll j (res ∷ results) tx)

        together :
            (tx' : Database)
            → upsert_leaderboard pg d res (score id res tx) ≡ ok tx'
            → (x : Result Database) → OnSuccess (ImprovesAll j results tx') x
            → P x
        together tx' e (err _) h = tt
        together tx' e (ok end) h =
            let one =
              succeeds (Improves res (score id res tx)) _ tx'
                (upsert-Improves res (score id res tx)) e in
            (λ t k. h.0 t (one.0 t k), (λ m t f. h.0 t (one.1 m t f), h.1))

    -- When FinishRace returns nil, a user's best time on the leaderboard is afterwards no longer than
    -- it was before, and no longer than the time of any of their results in this race.
    pub finish_race-ImprovesAll :
        (results : List ParticipantResult) (db : Database)
        → (finish_race pg id d results db).0 ≡ ok tt
        → ImprovesAll j results db (finish_race pg id d results db).1
    unfolding finish_race
    finish_race-ImprovesAll results db =
        match_rule P (pg.fault db 0)
          (λ _.
            match_rule P (pg.fault db 1)
              (λ _. commits _ (finish_results-ImprovesAll 2 results (mark_finished pg id db)))
              (λ _ f. ground arith))
          (λ _ f. ground arith)
      where
        P : Result (Unit {0}) × Database → Type 0
        P x = x.0 ≡ ok tt → ImprovesAll j results db x.1

        commits :
            (x : Result Database)
            → OnSuccess (ImprovesAll j results (mark_finished pg id db)) x
            → P (commit pg (2 * length results + 2) x db)
        commits (err e) h = λ f. ground arith
        commits (ok tx) h =
            match_rule P (pg.fault tx (2 * length results + 2)) (λ _ _. h) (λ _ f. ground arith)
