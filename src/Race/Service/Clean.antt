-- ===== src/Race/Service/Clean.antt =====
-- An error of the package leaves the tables as they are.
use aviron.Base.{String, ◌≡◌, ◌⊎◌, inl, inr, refl, leb, arith, if_rule, match_rule}
use aviron.Room.State.{Error}
use aviron.Race.Data.{
  Race, Database, Postgres, Result, ok, err, RaceError, wrapped, result_rule, is_pending,
  max_participants,
}
use aviron.Race.Repository.{add_participant, get_race, is_participant, count_participants, has_both}
use aviron.Race.Repository.Tables.{has_row}
use aviron.Race.Service.{Libraries, from, join_race, join_pending, start_race_by}
use aviron.Race.Service.Starting.{Starts, start_race_by_lem}

-- A result is a value, or an error with the tables as they were, or an error with no name in the
-- package.
abbrev pub Clean {ℓ} : {A : Type ℓ} → Database → Result A × Database → Type 0
Clean db (ok a, db') = Unit
Clean db (err e, db') = (db' ≡ db) ⊎ ((e' : Error) × (e ≡ wrapped e'))

add_participant-Clean :
    (pg : Postgres) (race_id user_id : String) (db : Database)
    → Clean db (add_participant pg race_id user_id db)
unfolding add_participant
add_participant-Clean pg race_id user_id db =
    match_rule (Clean db) (pg.fault db 0)
      (λ _.
        if_rule (Clean db) (has_row race_id user_id db.race_participants) (λ _. inl refl)
          (λ _. if_rule (Clean db) (has_both race_id user_id db) (λ _. tt) (λ _. inl refl)))
      (λ _ _. inl refl)

-- The errors of SignedString have a message around them.
abbrev pub SignsCleanly : Libraries → Type 0
SignsCleanly lib =
    (race_id user_id : String) (e : RaceError)
    → lib.sign race_id user_id ≡ err e
    → (e' : Error) × (e ≡ wrapped e')

module _ (lib : Libraries) (signs : SignsCleanly lib) (pg : Postgres) where
  sign-Clean :
      (race_id user_id : String) (db db' : Database) → Clean db (lib.sign race_id user_id, db')
  sign-Clean race_id user_id db db' = named (lib.sign race_id user_id) refl
    where
      named : (x : Result String) → lib.sign race_id user_id ≡ x → Clean db (x, db')
      named (ok t) h = tt
      named (err e) h = inr (signs race_id user_id e h)

  added-Clean :
      (race_id user_id : String) (db : Database) (x : Result (Unit {0}) × Database)
      → Clean db x
      → Clean db (elim x.0 as (λ _. Result String × Database) [
        | err e ↦ (err e, x.1)
        | ok u ↦ (lib.sign race_id user_id, x.1)
      ])
  added-Clean race_id user_id db (ok u, db') h = sign-Clean race_id user_id db db'
  added-Clean race_id user_id db (err e, db') h = h

  pub join_race-Clean :
      (race_id user_id : String) (db : Database) → Clean db (join_race lib pg race_id user_id db)
  unfolding join_race join_pending
  join_race-Clean race_id user_id db =
      result_rule (Clean db) (get_race pg race_id db)
        (λ r _.
          result_rule (Clean db) (is_participant (from 1 pg) race_id user_id db)
            (λ already_in _.
              if_rule (Clean db) already_in (λ _. sign-Clean race_id user_id db db)
                (λ _.
                  if_rule (Clean db) (is_pending r.status)
                    (λ _.
                      result_rule (Clean db) (count_participants (from 2 pg) race_id db)
                        (λ count _.
                          if_rule (Clean db) (leb max_participants count) (λ _. inl refl)
                            (λ _.
                              added-Clean race_id user_id db _
                                (add_participant-Clean (from 1 (from 2 pg)) race_id user_id db)))
                        (λ _ _. inl refl))
                    (λ _. inl refl)))
            (λ _ _. inl refl))
        (λ _ _. inl refl)

  pub start_race_by-Clean :
      (race_id user_id : String) (db : Database)
      → Clean db (start_race_by lib pg race_id user_id db)
  start_race_by-Clean race_id user_id db =
      from_cause (start_race_by lib pg race_id user_id db)
        (start_race_by_lem lib pg race_id user_id db)
    where
      from_cause : (x : Result Race × Database) → Starts lib pg race_id user_id db x → Clean db x
      from_cause (ok r, db') h = tt
      from_cause (err e, db') (inl same) = inl same
      from_cause (err e, db') (inr (row, _, _, _, _, started)) = ground (arith, started)
