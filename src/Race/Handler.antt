-- ===== src/Race/Handler.antt =====
-- backend/internal/race/handler.go with dtos.go: the REST handlers of races.
pub mod Errors
pub mod Opening
pub mod FirstStart
use aviron.Base.{
  ℕ, ◌+◌, String, Bool, true, false, List, [], ◌∷◌, map, Option, none, some, if◌then◌else◌,
}
use aviron.Base.Int.{ℤ}
use aviron.Base.Dict
use aviron.Base.Dict.{Dict}
use aviron.Room.State.{Instant}
use aviron.Room.Actor.{pending_timeout_duration}
use aviron.Rooms.Registry.{ActorRef, Registry, spawn, get}
use aviron.Race.Data.{
  RaceStatus, is_pending, Race, Database, Postgres, Result, ok, err, RaceError, race_not_found,
  already_joined, race_not_pending, not_creator, prompt_not_ready, race_full, not_participant,
  exhausted, foreign_key, wrapped,
}
use aviron.Race.Ids.{is_valid_race_id}
use aviron.Race.Repository.{get_race_text}
use aviron.Race.Repository.Lists.{
  Participant, RaceDetail, OpenRace, get_race_with_participants, list_open_races,
}
use aviron.Race.Service.{
  Libraries, Creation, invalid, failed, created, create_race_and_join, join_race, start_race_by,
}

-- The body of a response with a status of success. A time stands for its text.
pub data Body : Type 0 where
  -- createRaceResponse
  race_created : Race → String → Body
  -- joinRaceResponse: the race and the session token
  race_joined : String → String → Body
  -- startRaceResponse: id, status, started_at ("" for nil), prompt_text
  race_started : String → RaceStatus → Option Instant → String → Body
  -- getRaceTextResponse
  race_text : String → Body
  -- listOpenRacesResponse
  open_races : List OpenRace → Body
  -- raceStatusResponse, with pending_expires_at
  race_status : RaceDetail → Option Instant → Body

pub data Response : Type 0 where
  -- httpx.WriteError: a status and a code
  write_error : ℕ → String → Response
  -- a status, and an error for each field
  field_errors : ℕ → Dict String → Response
  -- httpx.WriteJSON of a result
  write_json : ℕ → Body → Response

-- What the handlers share: the tables, the rooms of the process, and what its actors were told by
-- MarkActive, the newest first.
pub record Server : Type 0 where
  pub tables : Database
  pub rooms : Registry
  pub marked : List (ActorRef × String)

abbrev pub unauthorized : Response
unauthorized = write_error 401 "unauthorized"

abbrev pub internal_error : Response
internal_error = write_error 500 "internal_error"

abbrev pub invalid_race_id : Response
invalid_race_id = write_error 400 "invalid_race_id"

-- The checks of a handler with a race in its path: the caller, `none` where the context has no user,
-- then the id.
unfoldable pub with_race_id {ℓ} :
    {A : Type ℓ} → Option String → String → (Response → A) → (String → A) → A
with_race_id none race_id reject accept = reject unauthorized
with_race_id (some user_id) race_id reject accept =
    if is_valid_race_id race_id then accept user_id else reject invalid_race_id

-- Create; `body` is what the request's JSON decodes to
unfoldable pub create :
    Libraries → Postgres → Option String → Option (String × ℤ) → Server → Response × Server
create lib pg none body s = (unauthorized, s)
create lib pg (some user_id) none s = (write_error 400 "invalid_body", s)
create lib pg (some user_id) (some (name, distance_meters)) s =
    let (made, db) = create_race_and_join lib pg name distance_meters user_id s.tables in
    elim made [
      | invalid errs ↦ (field_errors 400 errs, record s { tables = db })
      | failed e ↦ (internal_error, record s { tables = db })
      | created r session_token ↦ (
        write_json 201 (race_created r session_token),
        record s { tables = db; rooms = spawn r.id s.rooms },
      )
    ]

-- The switch of Join on the error.
unfoldable pub join_error : RaceError → Response
join_error race_not_found = write_error 404 "race_not_found"
join_error race_not_pending = write_error 409 "race_not_pending"
join_error already_joined = write_error 409 "already_joined"
join_error race_full = write_error 409 "race_full"
join_error _ = internal_error

-- Join
unfoldable pub join : Libraries → Postgres → Option String → String → Server → Response × Server
join lib pg caller race_id s =
    with_race_id caller race_id (λ e. (e, s))
      (λ user_id.
        let (joined, db) = join_race lib pg race_id user_id s.tables in
        elim joined [
          | err e ↦ (join_error e, record s { tables = db })
          | ok session_token ↦
              (write_json 200 (race_joined race_id session_token), record s { tables = db })
        ])

-- The switch of Start on the error.
unfoldable pub start_error : RaceError → Response
start_error race_not_found = write_error 404 "race_not_found"
start_error not_creator = write_error 403 "forbidden"
start_error race_not_pending = write_error 409 "race_not_pending"
start_error _ = internal_error

-- `*started.PromptText`, or ""
abbrev pub prompt_of : Race → String
prompt_of r = elim r.prompt_text [ none ↦ "" | some text ↦ text ]

-- The end of Start, with the race that was started and the tables that this left.
unfoldable pub tell_room : String → Race → Server → Response × Server
tell_room race_id started s = elim (get race_id s.rooms) [
  | none ↦ (internal_error, s)
  | some actor ↦ (
    write_json 200 (race_started started.id started.status started.started_at (prompt_of started)),
    record s { marked = (actor, prompt_of started) ∷ s.marked },
  )
]

-- Start
unfoldable pub start : Libraries → Postgres → Option String → String → Server → Response × Server
start lib pg caller race_id s =
    with_race_id caller race_id (λ e. (e, s))
      (λ user_id.
        let (started, db) = start_race_by lib pg race_id user_id s.tables in
        elim started [
          | err e ↦ (start_error e, record s { tables = db })
          | ok r ↦ tell_room race_id r (record s { tables = db })
        ])

-- The switch of Text on the error.
unfoldable pub text_error : RaceError → Response
text_error race_not_found = write_error 404 "race_not_found"
text_error prompt_not_ready = write_error 409 "prompt_not_ready"
text_error _ = internal_error

-- Text
unfoldable pub text : Postgres → Option String → String → Server → Response
text pg caller race_id s =
    with_race_id caller race_id (λ e. e)
      (λ _. elim (get_race_text pg race_id s.tables) [
        | err e ↦ text_error e
        | ok prompt_text ↦ write_json 200 (race_text prompt_text)
      ])

-- ListOpen
unfoldable pub list_open : Postgres → Option String → Server → Response
list_open pg none s = unauthorized
list_open pg (some user_id) s = elim (list_open_races pg user_id s.tables) [
  | err e ↦ internal_error
  | ok races ↦ write_json 200 (open_races races)
]

-- The switch of Status on the error.
unfoldable pub status_error : RaceError → Response
status_error race_not_found = write_error 404 "race_not_found"
status_error _ = internal_error

-- pending_expires_at
abbrev pub pending_expires_at : Race → Option Instant
pending_expires_at r =
    if is_pending r.status then some (r.created_at + pending_timeout_duration) else none

-- Status
unfoldable pub status : Postgres → Option String → String → Server → Response
status pg caller race_id s =
    with_race_id caller race_id (λ e. e)
      (λ _. elim (get_race_with_participants pg race_id s.tables) [
        | err e ↦ status_error e
        | ok detail ↦ write_json 200 (race_status detail (pending_expires_at detail.race))
      ])
