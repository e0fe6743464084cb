-- ===== src/Tests/HandlerTests.antt =====
-- The REST handlers of races, backend/internal/race/handler.go, with ids and lists.
use aviron.Base.{ℕ, String, ◌≡◌, refl, subst, true, [], ◌∷◌, some, arith, All}
use aviron.Base.Int.{pos}
use aviron.Base.Dict
use aviron.Tests.RaceFixtures.{steady, libraries, sprint, tables}
use aviron.Race.Data.{active, Race, RaceRow, ok, OnSuccess}
use aviron.Race.Ids.{is_valid_race_id, is_base58, all_base58}
use aviron.Race.Repository.{
  create_race, try_create_race, insert_race, new_race, get_race, add_participant,
}
use aviron.Race.Repository.Lists.{list_open_races}
use aviron.Race.Repository.Statuses.{status_of}
use aviron.Race.Repository.Tables.{find_race, has_row}
use aviron.Race.Service.{
  Libraries, create_race_and_join, validate_create_race, join_creator, join_race,
}
use aviron.Race.Service.Browsing.{IsJoinable, open_races_can_be_joined}
use aviron.Race.Handler.{
  Server, write_json, write_error, race_started, internal_error, create, join, start, with_race_id,
  join_error,
}
use aviron.Race.Handler.Errors.{joins, handle, client_errors_change_nothing}
use aviron.Race.Handler.Opening.{start_without_room}
use aviron.Race.Handler.FirstStart.{created_race_starts}
use aviron.Rooms.Registry.{new_registry, get, ActorRef}

-- The same libraries with an id of the right shape.
abbrev long_ids : Libraries
long_ids = record libraries { generate_race_id = λ i. ok "ABCDEFGHJKLM" }

abbrev idle : Server
idle = record { tables = tables; rooms = new_registry; marked = [] }

client_errors_change_nothing_example :
    (handle long_ids steady (some "bob") (joins "ABCDEFGHJKLM") idle).1 ≡ idle
unfolding join with_race_id is_valid_race_id all_base58 is_base58 join_race get_race find_race
    join_error
client_errors_change_nothing_example =
    client_errors_change_nothing long_ids (λ r u e h. ground arith) steady (some "bob")
      (joins "ABCDEFGHJKLM") idle (omega arith) (omega arith)

-- A race that the process has no room for, as after a restart.
abbrev dash : RaceRow
dash = record sprint { race = record sprint.race { id = "ABCDEFGHJKLM" } }

abbrev restarted : Server
restarted = record idle { tables = record tables { races = dash ∷ [] } }

start_without_room_example :
    let (response, s') = start long_ids steady (some "ann") "ABCDEFGHJKLM" restarted in
    (response ≡ internal_error)
    × (s'.marked ≡ [])
    × (status_of "ABCDEFGHJKLM" s'.tables ≡ some active)
    × ((start long_ids steady (some "ann") "ABCDEFGHJKLM" s').0
        ≡ write_error 409 "race_not_pending")
unfolding is_valid_race_id all_base58 is_base58 find_race new_registry Dict.get Dict.empty
start_without_room_example =
    start_without_room long_ids steady (λ db i. refl) "ABCDEFGHJKLM" "ann" restarted dash refl refl
      refl refl refl

abbrev made : Race
made = new_race "ABCDEFGHJKLM" "dash" (pos 3) "bob" 5

abbrev after_create : Server
after_create = (create long_ids steady (some "bob") (some ("dash", pos 3)) idle).1

long_ids-match :
    (i : ℕ) (id : String) → long_ids.generate_race_id i ≡ ok id → is_valid_race_id id ≡ true
unfolding is_valid_race_id all_base58 is_base58
long_ids-match i id h =
    let same : "ABCDEFGHJKLM" ≡ id = ground arith in
    subst (λ x. is_valid_race_id x ≡ true) same refl

created_race_starts_example :
    let (response, s') = start long_ids steady (some "bob") "ABCDEFGHJKLM" after_create in
    (response ≡ write_json 200 (race_started "ABCDEFGHJKLM" active (some 5) "one two three"))
    × ((actor : ActorRef) × (get "ABCDEFGHJKLM" after_create.rooms ≡ some actor)
        × (s'.marked ≡ (actor, "one two three") ∷ after_create.marked))
unfolding create create_race_and_join validate_create_race create_race try_create_race insert_race
    join_creator add_participant find_race has_row Dict.get Dict.has Dict.store Dict.empty Dict.size
    is_valid_race_id all_base58 is_base58
created_race_starts_example =
    created_race_starts long_ids steady "bob" (λ db i. refl) long_ids-match "dash" (pos 3) idle
      after_create made "token" refl

open_races_can_be_joined_example :
    OnSuccess (All (IsJoinable libraries steady "bob" tables)) (list_open_races steady "bob" tables)
unfolding find_race Dict.get Dict.has Dict.store Dict.empty
open_races_can_be_joined_example =
    open_races_can_be_joined libraries steady "bob" tables (λ t i. refl) refl (refl, tt)
