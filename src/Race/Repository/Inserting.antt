-- ===== src/Race/Repository/Inserting.antt =====
-- What CreateRace of backend/internal/postgres/race_repository.go leaves in the tables.
use text.Mathlib.TextEquality.{eq_iff}
use aviron.Base.{
  ℕ, zero, suc, ◌+◌, String, ◌≡◌, true, List, [], ◌∷◌, ◌++◌, none, some, arith, if_rule, match_rule,
}
use aviron.Base.Int.{ℤ}
use aviron.Base.Dict
use aviron.Race.Data.{Race, RaceRow, Database, Result, ok, err, RaceError, Postgres, result_rule}
use aviron.Race.Repository.{new_race, insert_race, try_create_race}
use aviron.Race.Repository.Tables.{find_race}

pub find_race-added :
    (id : String) (row : RaceRow) (rows : List RaceRow)
    → find_race id rows ≡ none
    → row.race.id ≡ id
    → find_race id (rows ++ row ∷ []) ≡ some row
unfolding find_race
find_race-added id row [] h e = ground (arith, eq_iff row.race.id id)
find_race-added id row (x ∷ rows) h e = ground (arith, find_race-added id row rows)

module _ (pg : Postgres) (generate_race_id : ℕ → Result String) (name created_by : String) (d : ℤ)
    (db : Database) where
  -- To prove what the loop of CreateRace leads to: of an error, and of the row that some generated id
  -- of no race gets.
  pub try_create_race_rule {ℓ} :
      (P : Result Race × Database → Type ℓ)
      → ((e : RaceError) → P (err e, db))
      → ((i : ℕ) (id : String)
          → generate_race_id i ≡ ok id
          → find_race id db.races ≡ none
          → Dict.has db.users created_by ≡ true
          → P (
            ok (new_race id name d created_by (pg.now db)),
            record db {
              races =
                  db.races
                  ++ record { race = new_race id name d created_by (pg.now db); ended_at = none }
                    ∷ [];
            },
          ))
      → (attempt left : ℕ)
      → P (try_create_race pg generate_race_id name d created_by attempt left db)
  unfolding try_create_race insert_race
  try_create_race_rule P fails inserts attempt zero = fails _
  try_create_race_rule P fails inserts attempt (suc left) =
      result_rule P (generate_race_id attempt)
        (λ id made.
          match_rule P (pg.fault db attempt)
            (λ _.
              match_rule P (find_race id db.races)
                (λ new.
                  if_rule P (Dict.has db.users created_by) (inserts attempt id made new)
                    (λ _. fails _))
                (λ _ _. try_create_race_rule P fails inserts (attempt + 1) left))
            (λ _ _. fails _))
        (λ _ _. fails _)
