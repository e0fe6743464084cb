-- ===== src/Race/Service/Creating.antt =====
-- What a race is like that CreateRace has made.
use text.Mathlib.TextEquality.{eq_iff}
use aviron.Base.{ℕ, String, ◌≡◌, refl, ap, ◌∙◌, true, none, some, arith, if_rule, match_rule, ltb}
use aviron.Base.Int.{ℤ}
use aviron.Base.Dict
use aviron.Race.Data.{Race, Database, Result, ok, err, Postgres, result_rule, is_pending, OnSuccess}
use aviron.Race.Repository.{create_race, add_participant, new_participant_row, has_both}
use aviron.Race.Repository.Inserting.{find_race-added, try_create_race_rule}
use aviron.Race.Repository.Tables.{find_race, has_row}
use aviron.Race.Service.{
  Libraries, from, Creation, invalid, failed, created, join_creator, create_race_and_join,
  validate_create_race,
}
use aviron.Race.Service.Joining.{has_row-added}

-- A race of a generated id that no race had, made by a user, and pending, with its row.
abbrev IsNew : (ℕ → Result String) → String → Database → Result Race × Database → Type 0
IsNew generate_race_id created_by db x =
    OnSuccess
      (λ (r : Race).
        (find_race r.id db.races ≡ none)
        × (r.created_by ≡ created_by)
        × (is_pending r.status ≡ true)
        × ((i : ℕ) × (generate_race_id i ≡ ok r.id))
        × (find_race r.id x.1.races ≡ some (record { race = r; ended_at = none })))
      x.0

create_race-IsNew :
    (pg : Postgres) (generate_race_id : ℕ → Result String) (name created_by : String) (d : ℤ)
    (db : Database)
    → IsNew generate_race_id created_by db (create_race pg generate_race_id name d created_by db)
unfolding create_race
create_race-IsNew pg generate_race_id name created_by d db =
    try_create_race_rule pg generate_race_id name created_by d db
      (IsNew generate_race_id created_by db) (λ _. tt)
      (λ i id made new known. (new, refl, refl, (i, made), find_race-added id _ db.races new refl))
      0 5

-- The participant is there, and the races stay.
add_participant-has_row :
    (pg : Postgres) (race_id user_id : String) (db : Database)
    → OnSuccess
        (λ _.
          (has_row race_id user_id (add_participant pg race_id user_id db).1.race_participants
            ≡ true)
          × ((add_participant pg race_id user_id db).1.races ≡ db.races))
        (add_participant pg race_id user_id db).0
unfolding add_participant
add_participant-has_row pg race_id user_id db =
    match_rule P (pg.fault db 0)
      (λ _.
        if_rule P (has_row race_id user_id db.race_participants) (λ _. tt)
          (λ _.
            if_rule P (has_both race_id user_id db)
              (λ _. ground (
                arith,
                eq_iff race_id race_id,
                eq_iff user_id user_id,
                has_row-added race_id user_id (new_participant_row race_id user_id (pg.now db))
                    db.race_participants,
              ))
              (λ _. tt)))
      (λ _ _. tt)
  where
    P : Result (Unit {0}) × Database → Type 0
    P x =
        OnSuccess
          (λ _. (has_row race_id user_id x.1.race_participants ≡ true) × (x.1.races ≡ db.races)) x.0

-- Wrong fields leave the tables as they are. A race that is returned has a generated id that no race
-- had, is made by the caller and pending; its row is there, and the caller is in it.
abbrev pub CreatesWell : (ℕ → Result String) → String → Database → Creation × Database → Type 0
CreatesWell generate_race_id created_by db (invalid errs, x) = x ≡ db
CreatesWell generate_race_id created_by db (failed e, x) = Unit
CreatesWell generate_race_id created_by db (created r token, x) =
    (find_race r.id db.races ≡ none)
    × (r.created_by ≡ created_by)
    × (is_pending r.status ≡ true)
    × ((i : ℕ) × (generate_race_id i ≡ ok r.id))
    × (find_race r.id x.races ≡ some (record { race = r; ended_at = none }))
    × (has_row r.id created_by x.race_participants ≡ true)

module _ (lib : Libraries) (pg : Postgres) (name created_by : String) (d : ℤ) (db : Database) where
  Goal : Creation × Database → Type 0
  Goal = CreatesWell lib.generate_race_id created_by db

  join_creator-CreatesWell :
      (pg' : Postgres) (r : Race) (db' : Database)
      → IsNew lib.generate_race_id created_by db (ok r, db')
      → Goal (join_creator lib pg' r created_by db')
  unfolding join_creator Goal
  join_creator-CreatesWell pg' r db' (new, mine, p, made, row) =
      ends (add_participant pg' r.id created_by db').0 (add_participant pg' r.id created_by db').1
        (add_participant-has_row pg' r.id created_by db')
    where
      ends :
          (added : Result (Unit {0})) (joined : Database)
          → OnSuccess
              (λ _.
                (has_row r.id created_by joined.race_participants ≡ true)
                × (joined.races ≡ db'.races))
              added
          → Goal (elim added [
            | err e ↦ (failed e, joined)
            | ok u ↦ elim (lib.sign r.id created_by) [
              | err e ↦ (failed e, joined)
              | ok token ↦ (created r token, joined)
            ]
          ])
      ends (err e) joined h = tt
      ends (ok u) joined (h, same) =
          result_rule Goal (lib.sign r.id created_by)
            (λ token _. (new, mine, p, made, ap (find_race r.id) same ∙ row, h)) (λ _ _. tt)

  -- CreateRace of the service leaves the tables as they are when a field is wrong. A race that it
  -- returns has a generated id that no race had, is made by the caller and pending; its row is there,
  -- and the caller is in it.
  pub create_race_lem :
      CreatesWell lib.generate_race_id created_by db
        (create_race_and_join lib pg name d created_by db)
  unfolding create_race_and_join Goal
  create_race_lem =
      if_rule Goal (ltb 0 (Dict.size (validate_create_race lib name d))) (λ _. refl)
        (λ _.
          made _ _
            (create_race-IsNew pg lib.generate_race_id (lib.trim_space name) created_by d db))
    where
      made :
          (res : Result Race) (db' : Database)
          → IsNew lib.generate_race_id created_by db (res, db')
          → Goal (elim res [
            | err e ↦ (failed e, db')
            | ok r ↦ join_creator lib (from 5 pg) r created_by db'
          ])
      made (err e) db' new = tt
      made (ok r) db' new = join_creator-CreatesWell (from 5 pg) r db' new
