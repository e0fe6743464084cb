-- ===== src/Race/Service/Limits.antt =====
-- How many participants a race has.
use text.Mathlib.TextEquality.{eq_iff}
use aviron.Base.{◌≤◌, String, subst, sym, List, [], ◌∷◌, arith, inl, inr}
use aviron.Race.Data.{Database, Postgres, max_participants}
use aviron.Race.Repository.{remove_participant, start_race, cancel_race, new_participant_row}
use aviron.Race.Repository.Tables.{count_rows}
use aviron.Race.Service.{Libraries, join_race, leave_race, start_race_by}
use aviron.Race.Service.Joining.{join_race_lem, count_rows-added, count_rows-deleted}

-- The requests for a race that is there.
pub data Request : Type 0 where
  joins : String → String → Request
  leaves : String → String → Request
  starts : String → String → Request
  cancels : String → Request

-- No race has more than ten participants.
abbrev pub IsWithin : Database → Type 0
IsWithin db = (j : String) → count_rows j db.race_participants ≤ max_participants

module _ (lib : Libraries) (pg : Postgres) where
  abbrev pub serve : Request → Database → Database
  serve (joins race_id user_id) db = (join_race lib pg race_id user_id db).1
  serve (leaves race_id user_id) db = (leave_race pg race_id user_id db).1
  serve (starts race_id caller_id) db = (start_race_by lib pg race_id caller_id db).1
  serve (cancels race_id) db = (cancel_race pg race_id db).1

  abbrev pub serve_all : List Request → Database → Database
  serve_all [] db = db
  serve_all (q ∷ qs) db = serve_all qs (serve q db)

  leave_race-IsWithin :
      (race_id user_id : String) (db : Database)
      → IsWithin db
      → IsWithin (leave_race pg race_id user_id db).1
  unfolding leave_race remove_participant
  leave_race-IsWithin race_id user_id db h j =
      ground (arith, h j, count_rows-deleted j race_id user_id db.race_participants)

  start_race_by-IsWithin :
      (race_id caller_id : String) (db : Database)
      → IsWithin db
      → IsWithin (start_race_by lib pg race_id caller_id db).1
  unfolding start_race_by start_race
  start_race_by-IsWithin race_id caller_id db h j = ground (arith, h j)

  cancel_race-IsWithin :
      (race_id : String) (db : Database) → IsWithin db → IsWithin (cancel_race pg race_id db).1
  unfolding cancel_race
  cancel_race-IsWithin race_id db h j = ground (arith, h j)

  join_race-IsWithin :
      (race_id user_id : String) (db : Database)
      → IsWithin db
      → IsWithin (join_race lib pg race_id user_id db).1
  join_race-IsWithin race_id user_id db h j = elim (join_race_lem lib pg race_id user_id db) [
    | inl same ↦
        subst (λ (x : Database). count_rows j x.race_participants ≤ max_participants) (sym same)
          (h j)
    | inr (o, n, l, e) ↦
        subst (λ (x : Database). count_rows j x.race_participants ≤ max_participants) (sym e)
          (ground (
            arith,
            h j,
            eq_iff race_id j,
            count_rows-added j (new_participant_row race_id user_id (pg.now db))
                db.race_participants,
          ))
  ]

  -- Under any requests, one after another and whatever Postgres answers, to join, leave, start and
  -- cancel races, if no race has more than ten participants before, none has after.
  pub serve_all-IsWithin :
      (qs : List Request) (db : Database) → IsWithin db → IsWithin (serve_all qs db)
  serve_all-IsWithin [] db h = h
  serve_all-IsWithin (q ∷ qs) db h = serve_all-IsWithin qs (serve q db) (step q)
    where
      step : (q : Request) → IsWithin (serve q db)
      step (joins race_id user_id) = join_race-IsWithin race_id user_id db h
      step (leaves race_id user_id) = leave_race-IsWithin race_id user_id db h
      step (starts race_id caller_id) = start_race_by-IsWithin race_id caller_id db h
      step (cancels race_id) = cancel_race-IsWithin race_id db h
