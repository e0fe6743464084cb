-- ===== src/Race/Service/Starting.antt =====
-- Who may start a race, and when.
use text.Mathlib.Text.{◌==◌ as ◌is_same◌}
use text.Mathlib.TextEquality.{eq_iff}
use aviron.Base.{
  String, ◌≡◌, ◌⊎◌, inl, inr, refl, sym, ap, true, some, subst, arith, if_rule, match_rule,
  if◌then◌else◌,
}
use aviron.Race.Data.{
  Race, RaceRow, Database, Result, ok, err, Postgres, result_rule, is_pending, race_not_pending,
  not_creator,
}
use aviron.Race.Repository.{get_race, start_race, started_race, selected}
use aviron.Race.Repository.Tables.{find_race, update_races}
use aviron.Race.Service.{Libraries, from, start_race_by}

module _ (lib : Libraries) (pg : Postgres) (race_id caller_id : String) (db : Database) where
  -- The tables stay, or the caller, who made the race, starts it while it is pending.
  abbrev pub Starts : Result Race × Database → Type 0
  Starts x =
      (x.1 ≡ db)
      ⊎ ((row : RaceRow) × (find_race race_id db.races ≡ some row)
          × (row.race.created_by ≡ caller_id)
          × (is_pending row.race.status ≡ true)
          × (x.1 ≡ record db {
            races =
                update_races
                  (started_race (pg.now db) (lib.generate_prompt_text row.race.distance_meters))
                  race_id db.races;
          })
          × (x.0
              ≡ ok
                  (started_race (pg.now db) (lib.generate_prompt_text row.race.distance_meters)
                    row).race))

  pub found-get_race :
      (r : Race)
      → get_race pg race_id db ≡ ok r
      → (row : RaceRow) × (find_race race_id db.races ≡ some row) × (r ≡ selected row)
  unfolding get_race
  found-get_race r =
      match_rule P (pg.fault db 0)
        (λ _.
          match_rule P (find_race race_id db.races) (λ _ e. ground arith)
            (λ row h e. (row, h, ground arith)))
        (λ x _ e. ground arith)
    where
      P : Result Race → Type 0
      P x =
          x ≡ ok r → (row : RaceRow) × (find_race race_id db.races ≡ some row) × (r ≡ selected row)

  start_race-Starts :
      (row : RaceRow)
      → find_race race_id db.races ≡ some row
      → (row.race.created_by is_same caller_id) ≡ true
      → is_pending row.race.status ≡ true
      → Starts
          (start_race (from 1 pg) race_id (lib.generate_prompt_text row.race.distance_meters) db)
  unfolding start_race
  start_race-Starts row h c p =
      match_rule Starts (pg.fault db 1)
        (λ _.
          match_rule Starts (find_race race_id db.races) (λ _. inl refl)
            (λ row' h'.
              let same : row' ≡ row = cc in
              let prompt = lib.generate_prompt_text row.race.distance_meters in
              inr (
                row,
                h,
                ground (arith, eq_iff row.race.created_by caller_id),
                p,
                refl,
                ap (λ (x : RaceRow). ok (started_race (pg.now db) prompt x).race) same,
              )))
        (λ _ _. inl refl)

  -- StartRace leaves the tables as they are, or starts the race and returns it as it is then, and the
  -- latter only if the caller made the race and it is pending.
  pub start_race_by_lem : Starts (start_race_by lib pg race_id caller_id db)
  unfolding start_race_by
  start_race_by_lem =
      result_rule Starts (get_race pg race_id db)
        (λ r e. let (row, h, s) = found-get_race r e in subst Served (sym s) (served row h))
        (λ _ _. inl refl)
    where
      Served : Race → Type 0
      Served r = Starts (
          if r.created_by is_same caller_id
          then (if is_pending r.status
              then start_race (from 1 pg) race_id (lib.generate_prompt_text r.distance_meters) db
              else (err race_not_pending, db))
          else (err not_creator, db))

      served : (row : RaceRow) → find_race race_id db.races ≡ some row → Served (selected row)
      served row h =
          if_rule Starts (row.race.created_by is_same caller_id)
            (λ c.
              if_rule Starts (is_pending row.race.status) (λ p. start_race-Starts row h c p)
                (λ _. inl refl))
            (λ _. inl refl)
