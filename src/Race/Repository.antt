-- ===== src/Race/Repository.antt =====
-- backend/internal/postgres/race_repository.go: one function for each method. A method that writes
-- returns the tables that it leaves.
pub mod Finishing
pub mod Tables
pub mod Outcome
pub mod Success
pub mod Fastest
pub mod Statuses
pub mod Reconciling
pub mod Lists
pub mod Inserting
use text.Mathlib.Text.{◌==◌}
use aviron.Base.{
  ℕ, zero, suc, ◌+◌, String, Bool, true, false, ◌&&◌, List, [], ◌∷◌, ◌++◌, Option, none, some,
  if◌then◌else◌,
}
use aviron.Base.Int.{ℤ}
use aviron.Base.Dict
use aviron.Room.State.{Instant}
use aviron.Race.Data.{
  RaceStatus, pending, active, cancelled, is_pending, Race, RaceRow, ParticipantRow, Database,
  race_not_found, already_joined, prompt_not_ready, not_participant, exhausted, foreign_key,
  wrapped, Result, ok, err, Postgres,
}
use Tables.{find_race, is_row_of, has_row, count_rows, delete_rows, update_races}

abbrev pub max_create_race_attempts : ℕ
max_create_race_attempts = 5

-- The row that INSERT INTO races makes, by the columns' defaults.
abbrev pub new_race : String → String → ℤ → String → Instant → Race
new_race id name distance_meters created_by now = record {
  id = id;
  name = name;
  distance_meters = distance_meters;
  status = pending;
  created_by = created_by;
  created_at = now;
  started_at = none;
  prompt_text = none;
}

-- INSERT INTO races, for an id that no race has yet
unfoldable pub insert_race :
    Postgres → String → String → ℤ → String → Database → Result Race × Database
insert_race pg id name distance_meters created_by db =
    let rc = new_race id name distance_meters created_by (pg.now db) in
    if Dict.has db.users created_by
    then (ok rc, record db { races = db.races ++ record { race = rc; ended_at = none } ∷ [] })
    else (err foreign_key, db)

-- The loop of CreateRace with `left` attempts to go.
unfoldable pub try_create_race :
    Postgres → (ℕ → Result String) → String → ℤ → String → ℕ → ℕ → Database → Result Race × Database
try_create_race pg generate_race_id name distance_meters created_by attempt zero db =
    (err exhausted, db)
try_create_race pg generate_race_id name distance_meters created_by attempt (suc left) db =
    let retry =
      try_create_race pg generate_race_id name distance_meters created_by (attempt + 1) left db in
    elim (generate_race_id attempt) [
      | err e ↦ (err e, db)
      | ok id ↦ elim (pg.fault db attempt) [
        | some e ↦ (err (wrapped e), db)
        | none ↦ elim (find_race id db.races) [
          | some row ↦ retry
          | none ↦ insert_race pg id name distance_meters created_by db
        ]
      ]
    ]

-- CreateRace
unfoldable pub create_race :
    Postgres → (ℕ → Result String) → String → ℤ → String → Database → Result Race × Database
create_race pg generate_race_id name distance_meters created_by db =
    try_create_race pg generate_race_id name distance_meters created_by 0 max_create_race_attempts
      db

-- The columns that GetRace selects.
abbrev pub selected : RaceRow → Race
selected row = record row.race { started_at = none; prompt_text = none }

-- GetRace
unfoldable pub get_race : Postgres → String → Database → Result Race
get_race pg race_id db = elim (pg.fault db 0) [
  | some e ↦ err (wrapped e)
  | none ↦ elim (find_race race_id db.races) [
    | none ↦ err race_not_found
    | some row ↦ ok (selected row)
  ]
]

abbrev pub new_participant_row : String → String → Instant → ParticipantRow
new_participant_row race_id user_id now = record {
  race_id = race_id;
  user_id = user_id;
  joined_at = now;
  finish_rank = none;
  finish_time_ms = none;
  avg_pace_watt = none;
  disconnected_count = 0;
}

-- Whether the user and the race of a new row are there.
abbrev pub has_both : String → String → Database → Bool
has_both race_id user_id db = elim (find_race race_id db.races) [
  | none ↦ false
  | some row ↦ Dict.has db.users user_id
]

-- AddParticipant
unfoldable pub add_participant :
    Postgres → String → String → Database → Result (Unit {0}) × Database
add_participant pg race_id user_id db = elim (pg.fault db 0) [
  | some e ↦ (err (wrapped e), db)
  | none ↦
      if has_row race_id user_id db.race_participants
      then (err already_joined, db)
      else if has_both race_id user_id db
      then (
        ok tt,
        record db {
          race_participants =
              db.race_participants ++ new_participant_row race_id user_id (pg.now db) ∷ [];
        },
      )
      else (err foreign_key, db)
]

-- RemoveParticipant
unfoldable pub remove_participant :
    Postgres → String → String → Database → Result (Unit {0}) × Database
remove_participant pg race_id user_id db = elim (pg.fault db 0) [
  | some e ↦ (err (wrapped e), db)
  | none ↦
      if has_row race_id user_id db.race_participants
      then (
        ok tt,
        record db { race_participants = delete_rows race_id user_id db.race_participants },
      )
      else (err not_participant, db)
]

-- CountParticipants
unfoldable pub count_participants : Postgres → String → Database → Result ℕ
count_participants pg race_id db = elim (pg.fault db 0) [
  | some e ↦ err (wrapped e)
  | none ↦ ok (count_rows race_id db.race_participants)
]

-- IsParticipant
unfoldable pub is_participant : Postgres → String → String → Database → Result Bool
is_participant pg race_id user_id db = elim (pg.fault db 0) [
  | some e ↦ err (wrapped e)
  | none ↦ ok (has_row race_id user_id db.race_participants)
]

abbrev pub started_race : Instant → String → RaceRow → RaceRow
started_race now prompt_text row = record row {
  race = record row.race { status = active; started_at = some now; prompt_text = some prompt_text };
}

-- StartRace
unfoldable pub start_race : Postgres → String → String → Database → Result Race × Database
start_race pg race_id prompt_text db = elim (pg.fault db 0) [
  | some e ↦ (err (wrapped e), db)
  | none ↦ elim (find_race race_id db.races) [
    | none ↦ (err (wrapped "no rows"), db)
    | some row ↦
        let start = started_race (pg.now db) prompt_text in
        (ok (start row).race, record db { races = update_races start race_id db.races })
  ]
]

-- GetRaceText
unfoldable pub get_race_text : Postgres → String → Database → Result String
get_race_text pg race_id db = elim (pg.fault db 0) [
  | some e ↦ err (wrapped e)
  | none ↦ elim (find_race race_id db.races) [
    | none ↦ err race_not_found
    | some row ↦ elim row.race.prompt_text [ none ↦ err prompt_not_ready | some text ↦ ok text ]
  ]
]

-- `status = 'cancelled'` where the status is still pending
abbrev pub cancelled_race : Instant → RaceRow → RaceRow
cancelled_race now row =
    if is_pending row.race.status
    then record row { race = record row.race { status = cancelled }; ended_at = some now }
    else row

-- CancelRace
unfoldable pub cancel_race : Postgres → String → Database → Result (Unit {0}) × Database
cancel_race pg race_id db = elim (pg.fault db 0) [
  | some e ↦ (err (wrapped e), db)
  | none ↦ (ok tt, record db { races = update_races (cancelled_race (pg.now db)) race_id db.races })
]
