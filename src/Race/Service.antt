-- ===== src/Race/Service.antt =====
-- backend/internal/race/service.go: the use cases behind the REST handlers.
pub mod Joining
pub mod Limits
pub mod Starting
pub mod Creating
pub mod Clean
pub mod Browsing
use aviron.Base.{
  ℕ, zero, suc, ◌+◌, String, Bool, true, false, ◌||◌, List, [], ◌∷◌, Option, none, some, ltb, leb,
  if◌then◌else◌, ◌==◌,
}
use aviron.Base.Int.{ℤ, pos, pos_part, leb_ℤ}
use aviron.Base.Dict
use aviron.Base.Dict.{Dict}
use text.Mathlib.Text.{◌==◌ as ◌is_same◌}
use aviron.Race.Data.{
  Race, Database, Postgres, RaceError, race_not_pending, not_creator, race_full, is_pending, Result,
  ok, err, max_participants,
}
use aviron.Race.Repository.{
  create_race, get_race, add_participant, remove_participant, count_participants, is_participant,
  start_race,
}

-- The libraries behind the service.
pub record Libraries : Type 0 where
  -- strings.TrimSpace
  pub trim_space : String → String
  -- len, in bytes
  pub len : String → ℕ
  -- the JWT for a race and a user, signed with the service's secret
  pub sign : String → String → Result String
  -- GenerateRaceID, at each attempt
  pub generate_race_id : ℕ → Result String
  -- the prompt text of so many words
  pub generate_prompt_text : ℤ → String

-- The exchanges with Postgres from the `n`-th on.
abbrev pub from : ℕ → Postgres → Postgres
from n pg = record pg { fault = λ db i. pg.fault db (n + i) }

-- validateCreateRace: the message for each field that is wrong
unfoldable pub validate_create_race : Libraries → String → ℤ → Dict String
validate_create_race lib name distance_meters =
    let name_is_wrong = leb (lib.len (lib.trim_space name)) 0 || ltb 100 (lib.len name) in
    let named =
      if name_is_wrong
      then Dict.store Dict.empty "name" "must be 1-100 characters"
      else Dict.empty in
    if leb_ℤ distance_meters (pos 0)
    then Dict.store named "distance_meters" "must be a positive integer"
    else named

-- What CreateRace returns.
pub data Creation : Type 0 where
  invalid : Dict String → Creation
  failed : RaceError → Creation
  created : Race → String → Creation

unfoldable pub join_creator : Libraries → Postgres → Race → String → Database → Creation × Database
join_creator lib pg r created_by db =
    let (added, joined) = add_participant pg r.id created_by db in
    elim added [
      | err e ↦ (failed e, joined)
      | ok u ↦ elim (lib.sign r.id created_by) [
        | err e ↦ (failed e, joined)
        | ok token ↦ (created r token, joined)
      ]
    ]

-- CreateRace of the service
unfoldable pub create_race_and_join :
    Libraries → Postgres → String → ℤ → String → Database → Creation × Database
create_race_and_join lib pg name distance_meters created_by db =
    let errs = validate_create_race lib name distance_meters in
    let (made, db') =
      create_race pg lib.generate_race_id (lib.trim_space name) distance_meters created_by db in
    if ltb 0 (Dict.size errs) then (invalid errs, db) else elim made [
      | err e ↦ (failed e, db')
      | ok r ↦ join_creator lib (from 5 pg) r created_by db'
    ]

-- The part of JoinRace that adds a participant.
unfoldable pub join_pending :
    Libraries → Postgres → String → String → Database → Result String × Database
join_pending lib pg race_id user_id db = elim (count_participants pg race_id db) [
  | err e ↦ (err e, db)
  | ok count ↦
      if leb max_participants count
      then (err race_full, db)
      else let (added, joined) = add_participant (from 1 pg) race_id user_id db in
        elim added [ err e ↦ (err e, joined) | ok u ↦ (lib.sign race_id user_id, joined) ]
]

-- JoinRace
unfoldable pub join_race :
    Libraries → Postgres → String → String → Database → Result String × Database
join_race lib pg race_id user_id db = elim (get_race pg race_id db) [
  | err e ↦ (err e, db)
  | ok r ↦ elim (is_participant (from 1 pg) race_id user_id db) [
    | err e ↦ (err e, db)
    | ok already_in ↦
        if already_in
        then (lib.sign race_id user_id, db)
        else if is_pending r.status
        then join_pending lib (from 2 pg) race_id user_id db
        else (err race_not_pending, db)
  ]
]

-- LeaveRace
unfoldable pub leave_race : Postgres → String → String → Database → Result (Unit {0}) × Database
leave_race pg race_id user_id db = elim (get_race pg race_id db) [
  | err e ↦ (err e, db)
  | ok r ↦
      if is_pending r.status
      then remove_participant (from 1 pg) race_id user_id db
      else (err race_not_pending, db)
]

-- StartRace of the service
unfoldable pub start_race_by :
    Libraries → Postgres → String → String → Database → Result Race × Database
start_race_by lib pg race_id caller_id db = elim (get_race pg race_id db) [
  | err e ↦ (err e, db)
  | ok r ↦
      if r.created_by is_same caller_id
      then (if is_pending r.status
          then start_race (from 1 pg) race_id (lib.generate_prompt_text r.distance_meters) db
          else (err race_not_pending, db))
      else (err not_creator, db)
]
