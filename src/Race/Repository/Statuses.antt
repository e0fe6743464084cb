-- ===== src/Race/Repository/Statuses.antt =====
-- StartRace and CancelRace of backend/internal/postgres/race_repository.go, one after the other.
use aviron.Base.{String, ◌≡◌, refl, ◌∙◌, true, List, [], ◌∷◌, Option, none, some, arith, ℕ}
use aviron.Race.Data.{RaceStatus, active, cancelled, is_pending, RaceRow, Database, Postgres}
use aviron.Race.Repository.{start_race, cancel_race, started_race, cancelled_race}
use aviron.Race.Repository.Tables.{find_race, update_races}

pub find_race-update_races :
    (change : RaceRow → RaceRow) (race_id : String) (rows : List RaceRow) (row : RaceRow)
    → ((x : RaceRow) → (change x).race.id ≡ x.race.id)
    → find_race race_id rows ≡ some row
    → find_race race_id (update_races change race_id rows) ≡ some (change row)
unfolding find_race update_races
find_race-update_races change race_id [] row k h = ground arith
find_race-update_races change race_id (x ∷ rows) row k h =
    ground (arith, k x, find_race-update_races change race_id rows row k)

-- The status of a race in the tables.
abbrev pub status_of : String → Database → Option RaceStatus
status_of race_id db = elim (find_race race_id db.races) [
  | none ↦ none
  | some row ↦ some row.race.status
]

module _ (pg : Postgres) (race_id prompt_text : String) where
  cancelled-id : (now : ℕ) (x : RaceRow) → (cancelled_race now x).race.id ≡ x.race.id
  cancelled-id now x = ground arith

  pub found-start_race :
      (db : Database) (row : RaceRow)
      → pg.fault db 0 ≡ none
      → find_race race_id db.races ≡ some row
      → find_race race_id (start_race pg race_id prompt_text db).1.races
        ≡ some (started_race (pg.now db) prompt_text row)
  unfolding start_race
  found-start_race db row u h = ground (
    arith,
    find_race-update_races (started_race (pg.now db) prompt_text) race_id db.races row (λ x. refl)
        h,
  )

  found-cancel_race :
      (db : Database) (row : RaceRow)
      → pg.fault db 0 ≡ none
      → find_race race_id db.races ≡ some row
      → find_race race_id (cancel_race pg race_id db).1.races
        ≡ some (cancelled_race (pg.now db) row)
  unfolding cancel_race
  found-cancel_race db row u h = ground (
    arith,
    find_race-update_races (cancelled_race (pg.now db)) race_id db.races row
        (cancelled-id (pg.now db)) h,
  )

  -- Without errors of Postgres, a race that is there and was started is not cancelled any more:
  -- CancelRace then leaves its row as it is, with the status active.
  pub cancel_race-start_race :
      (db : Database) (row : RaceRow)
      → ((t : Database) → pg.fault t 0 ≡ none)
      → find_race race_id db.races ≡ some row
      → let started = (start_race pg race_id prompt_text db).1 in
        (find_race race_id (cancel_race pg race_id started).1.races
          ≡ find_race race_id started.races)
        × (status_of race_id started ≡ some active)
  cancel_race-start_race db row up h =
      let found = found-start_race db row (up db) h in
      let started = (start_race pg race_id prompt_text db).1 in
      let again = found-cancel_race started _ (up started) found in
      (again ∙ ground (arith, found), ground (arith, found))

  -- StartRace of the repository does not look at the status: without errors of Postgres, a pending
  -- race that is cancelled between the check of the service and this statement is cancelled, and
  -- then active.
  pub start_race-cancel_race :
      (db : Database) (row : RaceRow)
      → ((t : Database) → pg.fault t 0 ≡ none)
      → find_race race_id db.races ≡ some row
      → is_pending row.race.status ≡ true
      → let gone = (cancel_race pg race_id db).1 in
        (status_of race_id gone ≡ some cancelled)
        × (status_of race_id (start_race pg race_id prompt_text gone).1 ≡ some active)
  start_race-cancel_race db row up h p =
      let found = found-cancel_race db row (up db) h in
      let gone = (cancel_race pg race_id db).1 in
      let again = found-start_race gone _ (up gone) found in
      (ground (arith, found), ground (arith, again))
