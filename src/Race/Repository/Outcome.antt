-- ===== src/Race/Repository/Outcome.antt =====
-- What the transaction of FinishRace leaves behind.
use text.Mathlib.Text.{◌==◌}
use text.Mathlib.TextEquality.{eq_iff}
use aviron.Base.{
  ℕ, ◌+◌, ◌*◌, String, ◌≡◌, ◌⊎◌, inl, inr, refl, Bool, ◌&&◌, List, [], ◌∷◌, Option, none, some,
  length, arith, count_if, if_rule, match_rule, if◌then◌else◌,
}
use aviron.Base.Int.{ℤ}
use aviron.Base.Dict
use aviron.Base.Dict.{get-store}
use aviron.Room.State.{ParticipantResult}
use aviron.Race.Data.{
  LeaderboardRow, Database, Result, ok, err, RaceError, Postgres, result_rule, OnSuccess, succeeds,
}
use aviron.Race.Repository.Tables.{update_races}
use aviron.Race.Repository.Finishing.{
  is_winner, won, first_entry, next_entry, upsert_leaderboard, score, finish_results, commit,
  mark_finished, finished_race, finish_race,
}

abbrev pub races_run : Option LeaderboardRow → ℕ
races_run none = 0
races_run (some l) = l.total_races

abbrev pub wins : Option LeaderboardRow → ℕ
wins none = 0
wins (some l) = l.total_wins

-- Whether a result is of a user, and whether it is a win of theirs.
abbrev pub is_of : String → ParticipantResult → Bool
is_of j res = res.user_id == j

abbrev pub is_win_of : String → ParticipantResult → Bool
is_win_of j res = is_of j res && is_winner res

-- A user's entry on the leaderboard.
abbrev pub entry : Database → String → Option LeaderboardRow
entry db j = Dict.get db.leaderboard_alltime j

-- What one user gained by some results, and nothing else: races, wins.
abbrev Gained : Database → Database → String → ℕ → ℕ → Type 0
Gained db tx j races won =
    (races_run (entry tx j) ≡ races_run (entry db j) + races)
    × (wins (entry tx j) ≡ wins (entry db j) + won)

-- The races stay, and a user gains.
abbrev Adds : String → ℕ → ℕ → Database → Database → Type 0
Adds j races won db tx = (tx.races ≡ db.races) × Gained db tx j races won

module _ (pg : Postgres) (d : ℤ) where
  upsert-Adds :
      (res : ParticipantResult) (tx : Database) (j : String)
      → OnSuccess
          (Adds j (if is_of j res then 1 else 0) (if is_win_of j res then 1 else 0) tx)
          (upsert_leaderboard pg d res tx)
  unfolding upsert_leaderboard
  upsert-Adds res tx j =
      match_rule P (Dict.get tx.leaderboard_alltime res.user_id)
        (λ h.
          if_rule P (Dict.has tx.users res.user_id)
            (λ _. ground (
              arith,
              eq_iff res.user_id j,
              get-store tx.leaderboard_alltime res.user_id j (first_entry d res (pg.now tx)),
            ))
            (λ _. tt))
        (λ old h. ground (
          arith,
          eq_iff res.user_id j,
          get-store tx.leaderboard_alltime res.user_id j (next_entry pg d res (pg.now tx) old),
        ))
    where
      P : Result Database → Type 0
      P = OnSuccess (Adds j (if is_of j res then 1 else 0) (if is_win_of j res then 1 else 0) tx)

  module _ (id : String) where
    finish_results-Adds :
        (i : ℕ) (results : List ParticipantResult) (tx : Database) (j : String)
        → OnSuccess
            (Adds j (count_if (is_of j) results) (count_if (is_win_of j) results) tx)
            (finish_results pg id d i results tx)
    unfolding finish_results
    finish_results-Adds i [] tx j = (refl, (omega arith, omega arith))
    finish_results-Adds i (res ∷ results) tx j =
        match_rule P (pg.fault tx i)
          (λ _.
            match_rule P (pg.fault (score id res tx) (i + 1))
              (λ _.
                result_rule P (upsert_leaderboard pg d res (score id res tx))
                  (λ tx' e. together tx' e _ (finish_results-Adds (i + 2) results tx' j))
                  (λ _ _. tt))
              (λ _ _. tt))
          (λ _ _. tt)
      where
        P : Result Database → Type 0
        P = OnSuccess (
            Adds j (count_if (is_of j) (res ∷ results)) (count_if (is_win_of j) (res ∷ results)) tx)

        together :
            (tx' : Database)
            → upsert_leaderboard pg d res (score id res tx) ≡ ok tx'
            → (x : Result Database)
            → OnSuccess (Adds j (count_if (is_of j) results) (count_if (is_win_of j) results) tx') x
            → P x
        together tx' e (err _) h = tt
        together tx' e (ok end) h =
            let one =
              succeeds
                (Adds j (if is_of j res then 1 else 0) (if is_win_of j res then 1 else 0)
                  (score id res tx))
                _ tx' (upsert-Adds res (score id res tx) j) e in
            ground arith

    -- FinishRace writes all or nothing: either it returns an error and leaves the tables as they
    -- were, or it returns nil, and then in the tables that it leaves the race is finished and the
    -- other races are as before, and for every user the races run and the wins on the leaderboard
    -- have grown by the number of their results, and of those with rank 1.
    pub finish_race_all_or_nothing :
        (results : List ParticipantResult) (db : Database) (j : String)
        → let (res, tx) = finish_race pg id d results db in
          ((e : RaceError) × (res ≡ err e) × (tx ≡ db))
          ⊎ ((res ≡ ok tt)
              × (tx.races ≡ update_races (finished_race (pg.now db)) id db.races)
              × (races_run (entry tx j) ≡ races_run (entry db j) + count_if (is_of j) results)
              × (wins (entry tx j) ≡ wins (entry db j) + count_if (is_win_of j) results))
    unfolding finish_race
    finish_race_all_or_nothing results db j =
        match_rule P (pg.fault db 0)
          (λ _.
            match_rule P (pg.fault db 1)
              (λ _. commits _ (finish_results-Adds 2 results (mark_finished pg id db) j))
              (λ e _. inl (_, refl, refl)))
          (λ e _. inl (_, refl, refl))
      where
        P : Result (Unit {0}) × Database → Type 0
        P x =
            ((e : RaceError) × (x.0 ≡ err e) × (x.1 ≡ db))
            ⊎ ((x.0 ≡ ok tt)
                × (x.1.races ≡ update_races (finished_race (pg.now db)) id db.races)
                × (races_run (entry x.1 j) ≡ races_run (entry db j) + count_if (is_of j) results)
                × (wins (entry x.1 j) ≡ wins (entry db j) + count_if (is_win_of j) results))

        commits :
            (x : Result Database)
            → OnSuccess
                (Adds j
                  (count_if (is_of j) results)
                  (count_if (is_win_of j) results)
                  (mark_finished pg id db))
                x
            → P (commit pg (2 * length results + 2) x db)
        commits (err e) h = inl (e, refl, refl)
        commits (ok tx) h =
            match_rule P (pg.fault tx (2 * length results + 2)) (λ _. inr (refl, h.0, h.1.0, h.1.1))
              (λ e _. inl (_, refl, refl))
