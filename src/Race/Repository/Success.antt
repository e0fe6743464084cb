-- ===== src/Race/Repository/Success.antt =====
-- When FinishRace succeeds.
use aviron.Base.{
  ℕ, ◌+◌, ◌*◌, String, ◌≡◌, refl, sym, ap, subst, ◌∙◌, true, List, [], ◌∷◌, none, length, arith,
  All, if_rule, match_rule,
}
use aviron.Base.Int.{ℤ}
use aviron.Base.Dict
use aviron.Room.State.{ParticipantResult}
use aviron.Race.Data.{Database, Result, ok, Postgres, result_rule}
use aviron.Race.Repository.Finishing.{
  upsert_leaderboard, score, finish_results, commit, mark_finished, finish_race,
}

-- A loop that ends well, with the users of before.
abbrev WithUsers : Database → Result Database → Type 0
WithUsers db x = (tx : Database) × (x ≡ ok tx) × (tx.users ≡ db.users)

-- Everyone with a result is a user.
abbrev pub AllUsers : Database → List ParticipantResult → Type 0
AllUsers db = All (λ (res : ParticipantResult). Dict.has db.users res.user_id ≡ true)

module _ (pg : Postgres) (d : ℤ) (id : String) where
  upsert-WithUsers :
      (res : ParticipantResult) (tx : Database)
      → Dict.has tx.users res.user_id ≡ true
      → WithUsers tx (upsert_leaderboard pg d res tx)
  unfolding upsert_leaderboard
  upsert-WithUsers res tx h =
      match_rule (WithUsers tx) (Dict.get tx.leaderboard_alltime res.user_id)
        (λ _.
          if_rule (WithUsers tx) (Dict.has tx.users res.user_id) (λ _. (_, refl, refl))
            (λ f. ground arith))
        (λ old _. (_, refl, refl))

  -- Postgres answers every exchange.
  abbrev pub IsUp : Type 0
  IsUp = (t : Database) (i : ℕ) → pg.fault t i ≡ none

  finish_results-WithUsers :
      (i : ℕ) (results : List ParticipantResult) (tx : Database)
      → IsUp
      → AllUsers tx results
      → WithUsers tx (finish_results pg id d i results tx)
  unfolding finish_results
  finish_results-WithUsers i [] tx up h = (tx, refl, refl)
  finish_results-WithUsers i (res ∷ results) tx up h =
      match_rule (WithUsers tx) (pg.fault tx i)
        (λ _.
          match_rule (WithUsers tx) (pg.fault (score id res tx) (i + 1))
            (λ _.
              result_rule (WithUsers tx) (upsert_leaderboard pg d res (score id res tx))
                (λ tx' e. after tx' e (λ t k. finish_results-WithUsers (i + 2) results t up k))
                (λ e f. ground (arith, one.1)))
            (λ e f. ground (arith, up (score id res tx) (i + 1))))
        (λ e f. ground (arith, up tx i))
    where
      one : WithUsers (score id res tx) (upsert_leaderboard pg d res (score id res tx))
      one = upsert-WithUsers res (score id res tx) h.0

      after :
          (tx' : Database)
          → upsert_leaderboard pg d res (score id res tx) ≡ ok tx'
          → ((t : Database)
              → AllUsers t results
              → WithUsers t (finish_results pg id d (i + 2) results t))
          → WithUsers tx (finish_results pg id d (i + 2) results tx')
      after tx' e ih =
          let same : tx'.users ≡ tx.users =
            (let (t, done, users) = one in
              let found : tx' ≡ t = cc in ap (λ (x : Database). x.users) found ∙ users) in
          let (end, done, users) = ih tx' (
            subst
              (λ (u : Dict.Dict String).
                All (λ (res : ParticipantResult). Dict.has u res.user_id ≡ true) results)
              (sym same) h.1) in
          (end, done, users ∙ same)

  -- With a server that answers every exchange, and results of users only, FinishRace returns nil.
  pub finish_race_succeeds :
      (results : List ParticipantResult) (db : Database)
      → IsUp
      → AllUsers db results
      → (finish_race pg id d results db).0 ≡ ok tt
  unfolding finish_race
  finish_race_succeeds results db up h =
      let (tx, e, _) = finish_results-WithUsers 2 results (mark_finished pg id db) up h in
      match_rule Fine (pg.fault db 0)
        (λ _.
          match_rule Fine (pg.fault db 1)
            (λ _.
              subst (λ x. Fine (commit pg (2 * length results + 2) x db)) (sym e)
                (match_rule Fine (pg.fault tx (2 * length results + 2)) (λ _. refl)
                  (λ x f. ground (arith, up tx (2 * length results + 2)))))
            (λ x f. ground (arith, up db 1)))
        (λ x f. ground (arith, up db 0))
    where
      Fine : Result (Unit {0}) × Database → Type 0
      Fine x = x.0 ≡ ok tt
