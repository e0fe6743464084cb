-- ===== src/Race/Service/Browsing.antt =====
-- The races that ListOpenRaces offers.
use aviron.Base.{
  take, ℕ, zero, suc, ◌<◌, String, ◌≡◌, true, false, List, [], ◌∷◌, none, some, arith, leb, if_rule,
  match_rule, All,
}
use aviron.Base.Dict
use aviron.Race.Data.{RaceRow, Database, Postgres, is_pending, OnSuccess, max_participants}
use aviron.Race.Repository.{get_race, add_participant, count_participants, is_participant}
use aviron.Race.Repository.Tables.{find_race, has_row, count_rows}
use aviron.Race.Repository.Lists.{
  OpenRace, is_open_to, open_race, open_races_of, insert_by_created_at, sort_by_created_at,
  list_open_races,
}
use aviron.Race.Service.{Libraries, join_race, join_pending}
use aviron.Race.Service.Joining.{with_row}

module _ {ℓ} (P : OpenRace → Type ℓ) where
  insert-All :
      (o : OpenRace) (os : List OpenRace) → P o → All P os → All P (insert_by_created_at o os)
  unfolding insert_by_created_at
  insert-All o [] p ps = (p, tt)
  insert-All o (q ∷ qs) p ps =
      if_rule (All P) (leb q.created_at o.created_at) (λ _. (p, ps))
        (λ _. (ps.0, insert-All o qs p ps.1))

  sort-All : (os : List OpenRace) → All P os → All P (sort_by_created_at os)
  unfolding sort_by_created_at
  sort-All [] ps = tt
  sort-All (o ∷ os) ps = insert-All o (sort_by_created_at os) ps.0 (sort-All os ps.1)

  take-All : (n : ℕ) (os : List OpenRace) → All P os → All P (take n os)
  unfolding take
  take-All zero os ps = tt
  take-All (suc n) [] ps = tt
  take-All (suc n) (o ∷ os) ps = (ps.0, take-All n os ps.1)

-- The id of a race is the key of its table.
abbrev pub IsKeyed : Database → Type 0
IsKeyed db = All (λ (row : RaceRow). find_race row.race.id db.races ≡ some row) db.races

-- JoinRace takes the user in and returns a token, if the token can be signed.
abbrev pub IsJoinable : Libraries → Postgres → String → Database → OpenRace → Type 0
IsJoinable lib pg user_id db o =
    join_race lib pg o.id user_id db ≡ (lib.sign o.id user_id, with_row pg o.id user_id db)

module _ (lib : Libraries) (pg : Postgres) (user_id : String) (db : Database)
    (up : (t : Database) (i : ℕ) → pg.fault t i ≡ none)
    (known : Dict.has db.users user_id ≡ true) where
  abbrev Joinable : OpenRace → Type 0
  Joinable = IsJoinable lib pg user_id db

  open_row-Joinable :
      (row : RaceRow) (host : String)
      → find_race row.race.id db.races ≡ some row
      → is_open_to user_id db row ≡ true
      → Joinable (open_race db row host)
  unfolding join_race join_pending get_race is_participant count_participants add_participant
  open_row-Joinable row host found is_open =
      let id = row.race.id in
      let pending : is_pending row.race.status ≡ true = ground arith in
      let new : has_row id user_id db.race_participants ≡ false = ground arith in
      let room : count_rows id db.race_participants < max_participants = ground arith in
      ground (arith, up db 0, up db 1, up db 2, up db 3)

  open_races_of-Joinable :
      (rows : List RaceRow)
      → All (λ (row : RaceRow). find_race row.race.id db.races ≡ some row) rows
      → All Joinable (open_races_of user_id db rows)
  unfolding open_races_of
  open_races_of-Joinable [] keyed = tt
  open_races_of-Joinable (row ∷ rows) keyed =
      let rest = open_races_of-Joinable rows keyed.1 in
      if_rule (All Joinable) (is_open_to user_id db row)
        (λ is_open.
          match_rule (All Joinable) (Dict.get db.users row.race.created_by) (λ _. rest)
            (λ host _. (open_row-Joinable row host keyed.0 is_open, rest)))
        (λ _. rest)

  -- When Postgres answers every exchange, every race that ListOpenRaces offers to a user can be
  -- joined: JoinRace takes the user in, and does not answer that they are in it already, that the race
  -- is full, or that it is not pending.
  pub open_races_can_be_joined :
      IsKeyed db → OnSuccess (All (IsJoinable lib pg user_id db)) (list_open_races pg user_id db)
  unfolding list_open_races
  open_races_can_be_joined keyed =
      match_rule (OnSuccess (All Joinable)) (pg.fault db 0)
        (λ _. take-All Joinable 20 _ (sort-All Joinable _ (open_races_of-Joinable db.races keyed)))
        (λ _ _. tt)
