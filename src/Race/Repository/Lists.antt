-- ===== src/Race/Repository/Lists.antt =====
-- The two methods of backend/internal/postgres/race_repository.go that read several rows:
-- GetRaceWithParticipants and ListOpenRaces. Rows with the same time, whose order SQL leaves open,
-- come in the order of their table.
use text.Mathlib.Text.{◌==◌}
use aviron.Base.{
  take, ℕ, String, Bool, ◌&&◌, not, List, [], ◌∷◌, Option, none, some, ltb, leb, if◌then◌else◌,
}
use aviron.Base.Int.{ℤ}
use aviron.Base.Dict
use aviron.Base.Dict.{Dict}
use aviron.Room.State.{Instant, Float64}
use aviron.Race.Data.{
  is_pending, Race, RaceRow, ParticipantRow, Database, race_not_found, wrapped, Result, ok, err,
  Postgres, max_participants,
}
use aviron.Race.Repository.{selected}
use aviron.Race.Repository.Tables.{find_race, has_row, count_rows}

pub record Participant : Type 0 where
  pub user_id : String
  pub display_name : String
  pub joined_at : Instant
  pub finish_rank : Option ℕ
  pub finish_time_ms : Option ℤ
  -- `none` for the 0 of a NULL
  pub avg_pace_watt : Option Float64

pub record RaceDetail : Type 0 where
  pub race : Race
  pub participants : List Participant

pub record OpenRace : Type 0 where
  pub id : String
  pub name : String
  pub distance_meters : ℤ
  pub host_display_name : String
  pub player_count : ℕ
  pub max_players : ℕ
  pub created_at : Instant

-- JOIN users u ON u.id = rp.user_id WHERE rp.race_id = $1
unfoldable pub participants_of : String → Dict String → List ParticipantRow → List Participant
participants_of race_id users [] = []
participants_of race_id users (p ∷ ps) =
    let rest = participants_of race_id users ps in
    if p.race_id == race_id
    then elim (Dict.get users p.user_id) [
      | none ↦ rest
      | some display_name ↦
          (record {
            user_id = p.user_id;
            display_name = display_name;
            joined_at = p.joined_at;
            finish_rank = p.finish_rank;
            finish_time_ms = p.finish_time_ms;
            avg_pace_watt = p.avg_pace_watt;
          })
          ∷ rest
    ]
    else rest

-- ORDER BY rp.joined_at
unfoldable pub insert_by_joined_at : Participant → List Participant → List Participant
insert_by_joined_at p [] = p ∷ []
insert_by_joined_at p (q ∷ qs) =
    let rest = insert_by_joined_at p qs in
    if leb p.joined_at q.joined_at then p ∷ q ∷ qs else q ∷ rest

unfoldable pub sort_by_joined_at : List Participant → List Participant
sort_by_joined_at [] = []
sort_by_joined_at (p ∷ ps) = insert_by_joined_at p (sort_by_joined_at ps)

-- GetRaceWithParticipants
unfoldable pub get_race_with_participants : Postgres → String → Database → Result RaceDetail
get_race_with_participants pg race_id db = elim (pg.fault db 0) [
  | some e ↦ err (wrapped e)
  | none ↦ elim (find_race race_id db.races) [
    | none ↦ err race_not_found
    | some row ↦ elim (pg.fault db 1) [
      | some e ↦ err (wrapped e)
      | none ↦ ok (record {
        race = selected row;
        participants = sort_by_joined_at (participants_of race_id db.users db.race_participants);
      })
    ]
  ]
]

-- openRacesLimit
abbrev pub open_races_limit : ℕ
open_races_limit = 20

-- WHERE r.status = 'pending' AND NOT EXISTS (...), and HAVING count(rp.user_id) < $2
abbrev pub is_open_to : String → Database → RaceRow → Bool
is_open_to user_id db row =
    (is_pending row.race.status && not (has_row row.race.id user_id db.race_participants))
    && ltb (count_rows row.race.id db.race_participants) max_participants

abbrev pub open_race : Database → RaceRow → String → OpenRace
open_race db row host_display_name = record {
  id = row.race.id;
  name = row.race.name;
  distance_meters = row.race.distance_meters;
  host_display_name = host_display_name;
  player_count = count_rows row.race.id db.race_participants;
  max_players = max_participants;
  created_at = row.race.created_at;
}

-- The rows of the query before they are ordered and cut: JOIN users u ON u.id = r.created_by.
unfoldable pub open_races_of : String → Database → List RaceRow → List OpenRace
open_races_of user_id db [] = []
open_races_of user_id db (row ∷ rows) =
    let rest = open_races_of user_id db rows in
    if is_open_to user_id db row
    then elim (Dict.get db.users row.race.created_by) [
      | none ↦ rest
      | some host ↦ open_race db row host ∷ rest
    ]
    else rest

-- ORDER BY r.created_at DESC
unfoldable pub insert_by_created_at : OpenRace → List OpenRace → List OpenRace
insert_by_created_at o [] = o ∷ []
insert_by_created_at o (q ∷ qs) =
    let rest = insert_by_created_at o qs in
    if leb q.created_at o.created_at then o ∷ q ∷ qs else q ∷ rest

unfoldable pub sort_by_created_at : List OpenRace → List OpenRace
sort_by_created_at [] = []
sort_by_created_at (o ∷ os) = insert_by_created_at o (sort_by_created_at os)

-- ListOpenRaces
unfoldable pub list_open_races : Postgres → String → Database → Result (List OpenRace)
list_open_races pg user_id db = elim (pg.fault db 0) [
  | some e ↦ err (wrapped e)
  | none ↦ ok (take open_races_limit (sort_by_created_at (open_races_of user_id db db.races)))
]
