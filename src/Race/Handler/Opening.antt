-- ===== src/Race/Handler/Opening.antt =====
-- From the creation of a race to its start, and a start whose room is gone.
use text.Mathlib.TextEquality.{eq_iff}
use aviron.Base.{
  ℕ, String, ◌≡◌, refl, sym, ap, ◌∙◌, subst, true, false, none, some, arith, if◌then◌else◌,
}
use aviron.Rooms.Registry.{get}
use aviron.Race.Data.{
  active, Race, RaceRow, Database, Postgres, Result, ok, err, race_not_pending, is_pending,
}
use aviron.Race.Ids.{is_valid_race_id}
use aviron.Race.Repository.{get_race, start_race, started_race}
use aviron.Race.Repository.Tables.{find_race, update_races}
use aviron.Race.Repository.Statuses.{find_race-update_races, status_of}
use aviron.Race.Service.{Libraries, start_race_by}
use aviron.Race.Handler.{
  Response, write_error, internal_error, invalid_race_id, Server, with_race_id, start_error, start,
  tell_room,
}

-- A server that answers every exchange.
abbrev pub AnswersAlways : Postgres → Type 0
AnswersAlways pg = (db : Database) (i : ℕ) → pg.fault db i ≡ none

module _ (lib : Libraries) (pg : Postgres) (up : AnswersAlways pg) (race_id user_id : String) where
  -- The race's row after a start.
  abbrev pub row_started : Database → RaceRow → RaceRow
  row_started db row =
      started_race (pg.now db) (lib.generate_prompt_text row.race.distance_meters) row

  abbrev pub tables_started : Database → RaceRow → Database
  tables_started db row = record db {
    races =
        update_races (started_race (pg.now db) (lib.generate_prompt_text row.race.distance_meters))
          race_id db.races;
  }

  pub start_race_by-pending :
      (db : Database) (row : RaceRow)
      → find_race race_id db.races ≡ some row
      → row.race.created_by ≡ user_id
      → is_pending row.race.status ≡ true
      → start_race_by lib pg race_id user_id db
        ≡ (ok (row_started db row).race, tables_started db row)
  unfolding start_race_by get_race start_race
  start_race_by-pending db row found mine p =
      ground (arith, up db 0, up db 1, eq_iff row.race.created_by user_id)

  pub start_race_by-again :
      (db : Database) (row : RaceRow)
      → find_race race_id db.races ≡ some row
      → row.race.created_by ≡ user_id
      → is_pending row.race.status ≡ false
      → start_race_by lib pg race_id user_id db ≡ (err race_not_pending, db)
  unfolding start_race_by get_race
  start_race_by-again db row found mine p =
      ground (arith, up db 0, up db 1, eq_iff row.race.created_by user_id)

  -- The end of Start, by what the service returns.
  abbrev started_with : Server → Result Race × Database → Response × Server
  started_with s x = elim x.0 [
    | err e ↦ (start_error e, record s { tables = x.1 })
    | ok r ↦ tell_room race_id r (record s { tables = x.1 })
  ]

  start-valid :
      (s : Server)
      → is_valid_race_id race_id ≡ true
      → start lib pg (some user_id) race_id s
        ≡ started_with s (start_race_by lib pg race_id user_id s.tables)
  unfolding start with_race_id
  start-valid s valid =
      let served = started_with s (start_race_by lib pg race_id user_id s.tables) in
      ap (λ b. if b then served else (invalid_race_id, s)) valid

  -- Start of a pending race by the one who made it.
  pub start-pending :
      (s : Server) (row : RaceRow)
      → is_valid_race_id race_id ≡ true
      → find_race race_id s.tables.races ≡ some row
      → row.race.created_by ≡ user_id
      → is_pending row.race.status ≡ true
      → start lib pg (some user_id) race_id s
        ≡ tell_room race_id
            (row_started s.tables row).race
            (record s { tables = tables_started s.tables row })
  start-pending s row valid found mine p =
      start-valid s valid ∙ ap (started_with s) (start_race_by-pending s.tables row found mine p)

  -- When the one who made a pending race starts it, but its room is not among the running ones, the
  -- answer is 500, and no actor is told; yet the race is active, and to start it again is answered
  -- with 409.
  pub start_without_room :
      (s : Server) (row : RaceRow)
      → is_valid_race_id race_id ≡ true
      → find_race race_id s.tables.races ≡ some row
      → row.race.created_by ≡ user_id
      → is_pending row.race.status ≡ true
      → get race_id s.rooms ≡ none
      → let (response, s') = start lib pg (some user_id) race_id s in
        (response ≡ internal_error)
        × (s'.marked ≡ s.marked)
        × (status_of race_id s'.tables ≡ some active)
        × ((start lib pg (some user_id) race_id s').0 ≡ write_error 409 "race_not_pending")
  unfolding tell_room start_error
  start_without_room s row valid found mine p gone =
      let s' : Server = record s { tables = tables_started s.tables row } in
      let first : start lib pg (some user_id) race_id s ≡ (internal_error, s') =
        start-pending s row valid found mine p ∙ ground (arith, gone) in
      let now_active : find_race race_id s'.tables.races ≡ some (row_started s.tables row) =
        find_race-update_races
          (started_race (pg.now s.tables) (lib.generate_prompt_text row.race.distance_meters))
          race_id s.tables.races row (λ x. refl) found in
      let again =
        start-valid s' valid
        ∙ ap (started_with s')
            (start_race_by-again s'.tables (row_started s.tables row) now_active mine refl) in
      subst
        (λ (x : Response × Server).
          (x.0 ≡ internal_error)
          × (x.1.marked ≡ s.marked)
          × (status_of race_id x.1.tables ≡ some active)
          × ((start lib pg (some user_id) race_id x.1).0 ≡ write_error 409 "race_not_pending"))
        (sym first) (refl, refl, ground (arith, now_active), ap (λ x. x.0) again)
