-- ===== src/Race/Repository/Reconciling.antt =====
-- ReconcileParticipantResults behind FinishRace.
use aviron.Base.{
  ℕ, ◌+◌, ◌*◌, String, ◌≡◌, refl, sym, ap, subst, true, List, [], ◌∷◌, length, map, arith, is_some,
  match_rule, All,
}
use aviron.Base.Int.{ℤ}
use aviron.Room.State.{ParticipantResult, RaceResultJson}
use aviron.Room.Actor.{to_json}
use aviron.Race.Data.{
  ParticipantRow, Database, Result, ok, err, Postgres, result_rule, OnSuccess, succeeds,
}
use aviron.Race.Repository.Tables.{is_row_of, update_rows}
use aviron.Race.Repository.Finishing.{
  scored_row, filled_row, fill_in, upsert_leaderboard, score, finish_results, commit, mark_finished,
  finish_race, reconcile_results, reconcile_participant_results,
}

-- Everyone with a row for this race and user has a rank there.
abbrev pub IsScored : String → String → List ParticipantRow → Type 0
IsScored race_id user_id =
    All (λ (p : ParticipantRow). is_row_of race_id user_id p ≡ true → is_some p.finish_rank ≡ true)

-- Scoring one user with a rank ranks that user, and takes no one's rank away.
update_rows-IsScored :
    (race_id user_id j : String) (res : ParticipantResult) (ps : List ParticipantRow)
    → is_some res.finish_rank ≡ true
    → IsScored race_id j ps
    → IsScored race_id j (update_rows (scored_row res) race_id user_id ps)
unfolding update_rows
update_rows-IsScored race_id user_id j res [] k h = tt
update_rows-IsScored race_id user_id j res (p ∷ ps) k h =
    ground (arith, update_rows-IsScored race_id user_id j res ps k h.1)

update_rows-scores :
    (race_id user_id : String) (res : ParticipantResult) (ps : List ParticipantRow)
    → is_some res.finish_rank ≡ true
    → IsScored race_id user_id (update_rows (scored_row res) race_id user_id ps)
unfolding update_rows
update_rows-scores race_id user_id res [] k = tt
update_rows-scores race_id user_id res (p ∷ ps) k =
    ground (arith, update_rows-scores race_id user_id res ps k)

-- A row with a rank is not filled in again.
fill_in_scored :
    (race_id user_id : String) (res : RaceResultJson) (ps : List ParticipantRow)
    → IsScored race_id user_id ps
    → update_rows (filled_row res) race_id user_id ps ≡ ps
unfolding update_rows
fill_in_scored race_id user_id res [] h = refl
fill_in_scored race_id user_id res (p ∷ ps) h =
    ground (arith, fill_in_scored race_id user_id res ps h.1)

abbrev pub AllRanked : List ParticipantResult → Type 0
AllRanked = All (λ (res : ParticipantResult). is_some res.finish_rank ≡ true)

module _ (pg : Postgres) (d : ℤ) (id : String) where
  upsert-rows :
      (res : ParticipantResult) (tx : Database)
      → OnSuccess
          (λ tx'. tx'.race_participants ≡ tx.race_participants)
          (upsert_leaderboard pg d res tx)
  unfolding upsert_leaderboard
  upsert-rows res tx = ground arith

  -- What scoring and the end of the loop keep holds at the end, if the loop gets there.
  finish_results_rule :
      (P Q : List ParticipantRow → Type 0) (i : ℕ) (res : ParticipantResult)
      (results : List ParticipantResult) (tx : Database)
      → ((tx' : Database)
          → P tx'.race_participants
          → OnSuccess (λ end. Q end.race_participants) (finish_results pg id d (i + 2) results tx'))
      → P (score id res tx).race_participants
      → OnSuccess (λ end. Q end.race_participants) (finish_results pg id d i (res ∷ results) tx)
  unfolding finish_results
  finish_results_rule P Q i res results tx rest here =
      match_rule R (pg.fault tx i)
        (λ _.
          match_rule R (pg.fault (score id res tx) (i + 1))
            (λ _.
              result_rule R (upsert_leaderboard pg d res (score id res tx))
                (λ tx' e. rest tx' (
                  subst P
                    (sym (
                      succeeds (λ x. x.race_participants ≡ (score id res tx).race_participants) _
                        tx' (upsert-rows res (score id res tx)) e))
                    here))
                (λ _ _. tt))
            (λ _ _. tt))
        (λ _ _. tt)
    where
      R : Result Database → Type 0
      R = OnSuccess (λ end. Q end.race_participants)

  finish_results-IsScored :
      (i : ℕ) (j : String) (results : List ParticipantResult) (tx : Database)
      → AllRanked results
      → IsScored id j tx.race_participants
      → OnSuccess (λ end. IsScored id j end.race_participants) (finish_results pg id d i results tx)
  unfolding finish_results
  finish_results-IsScored i j [] tx k h = h
  finish_results-IsScored i j (res ∷ results) tx k h =
      finish_results_rule (IsScored id j) (IsScored id j) i res results tx
        (λ tx' h'. finish_results-IsScored (i + 2) j results tx' k.1 h')
        (update_rows-IsScored id res.user_id j res tx.race_participants k.0 h)

  -- Everyone with a result is scored.
  abbrev AllScored : List ParticipantResult → List ParticipantRow → Type 0
  AllScored results ps = All (λ (res : ParticipantResult). IsScored id res.user_id ps) results

  finish_results-AllScored :
      (i : ℕ) (results : List ParticipantResult) (tx : Database)
      → AllRanked results
      → OnSuccess
          (λ end. AllScored results end.race_participants)
          (finish_results pg id d i results tx)
  unfolding finish_results
  finish_results-AllScored i [] tx k = tt
  finish_results-AllScored i (res ∷ results) tx k =
      both _
        (finish_results_rule (IsScored id res.user_id) (IsScored id res.user_id) i res results tx
          (λ tx' h. finish_results-IsScored (i + 2) res.user_id results tx' k.1 h)
          (update_rows-scores id res.user_id res tx.race_participants k.0))
        (finish_results_rule (λ _. Unit) (AllScored results) i res results tx
          (λ tx' _. finish_results-AllScored (i + 2) results tx' k.1) tt)
    where
      both :
          (x : Result Database)
          → OnSuccess (λ end. IsScored id res.user_id end.race_participants) x
          → OnSuccess (λ end. AllScored results end.race_participants) x
          → OnSuccess (λ end. AllScored (res ∷ results) end.race_participants) x
      both (ok end) h t = (h, t)
      both (err e) h t = tt

  reconcile_results_scored :
      (i : ℕ) (results : List ParticipantResult) (tx : Database)
      → AllScored results tx.race_participants
      → OnSuccess (λ end. end ≡ tx) (reconcile_results pg id i (map to_json results) tx)
  unfolding reconcile_results
  reconcile_results_scored i [] tx h = refl
  reconcile_results_scored i (res ∷ results) tx h =
      match_rule (OnSuccess (λ end. end ≡ tx)) (pg.fault tx i)
        (λ _.
          subst
            (λ x.
              OnSuccess (λ end. end ≡ tx) (reconcile_results pg id (i + 1) (map to_json results) x))
            (sym same) (reconcile_results_scored (i + 1) results tx h.1))
        (λ _ _. tt)
    where
      same : fill_in id (to_json res) tx ≡ tx
      same =
          ap (λ ps. record tx { race_participants = ps })
            (fill_in_scored id res.user_id (to_json res) tx.race_participants h.0)

  reconcile-stays :
      (results : List ParticipantResult) (tx : Database)
      → AllScored results tx.race_participants
      → (reconcile_participant_results pg id (map to_json results) tx).1 ≡ tx
  unfolding reconcile_participant_results
  reconcile-stays results tx h =
      match_rule P (pg.fault tx 0) (λ _. settles _ (reconcile_results_scored 1 results tx h))
        (λ _ _. refl)
    where
      P : Result (Unit {0}) × Database → Type 0
      P x = x.1 ≡ tx

      settles :
          (x : Result Database)
          → OnSuccess (λ end. end ≡ tx) x
          → (commit pg (length (map to_json results) + 1) x tx).1 ≡ tx
      settles (err e) h = refl
      settles (ok end) h =
          match_rule P (pg.fault end (length (map to_json results) + 1)) (λ _. h) (λ _ _. refl)

  -- Where FinishRace has stored results that all have a rank, their rows have these.
  finish_race-AllScored :
      (results : List ParticipantResult) (db : Database)
      → AllRanked results
      → (finish_race pg id d results db).0 ≡ ok tt
      → AllScored results (finish_race pg id d results db).1.race_participants
  unfolding finish_race
  finish_race-AllScored results db k =
      match_rule P (pg.fault db 0)
        (λ _.
          match_rule P (pg.fault db 1)
            (λ _. commits _ (finish_results-AllScored 2 results (mark_finished pg id db) k))
            (λ _ f. ground arith))
        (λ _ f. ground arith)
    where
      P : Result (Unit {0}) × Database → Type 0
      P x = x.0 ≡ ok tt → AllScored results x.1.race_participants

      commits :
          (x : Result Database)
          → OnSuccess (λ end. AllScored results end.race_participants) x
          → P (commit pg (2 * length results + 2) x db)
      commits (err e) h = λ f. ground arith
      commits (ok tx) h =
          match_rule P (pg.fault tx (2 * length results + 2)) (λ _ _. h) (λ _ f. ground arith)

-- Reconciling the published results of a race after FinishRace has stored the very results changes
-- nothing in the tables, whatever error it returns, if every result has a rank.
pub reconcile-finish_race :
    (pg later : Postgres) (d : ℤ) (id : String) (results : List ParticipantResult) (db : Database)
    → AllRanked results
    → (finish_race pg id d results db).0 ≡ ok tt
    → let tx = (finish_race pg id d results db).1 in
      (reconcile_participant_results later id (map to_json results) tx).1 ≡ tx
reconcile-finish_race pg later d id results db ranked stored =
    reconcile-stays later d id results (finish_race pg id d results db).1
      (finish_race-AllScored pg d id results db ranked stored)
