-- ===== src/Race/Handler/FirstStart.antt =====
-- A race that Create has answered with can be started.
use text.Mathlib.TextEquality.{eq_iff}
use aviron.Base.{ℕ, String, ◌≡◌, ap, ◌∙◌, subst, true, ◌∷◌, none, some, arith}
use aviron.Base.Int.{ℤ}
use aviron.Base.Dict
use aviron.Rooms.Registry.{ActorRef, Registry, get, spawn}
use aviron.Race.Data.{active, Race, RaceRow, Database, Postgres, ok, is_pending}
use aviron.Race.Ids.{is_valid_race_id}
use aviron.Race.Repository.Tables.{find_race}
use aviron.Race.Service.{Libraries, Creation, invalid, failed, created, create_race_and_join}
use aviron.Race.Service.Creating.{CreatesWell, create_race_lem}
use aviron.Race.Handler.{
  Response, field_errors, write_json, race_created, race_started, Server, internal_error, create,
  start, tell_room, prompt_of,
}
use aviron.Race.Handler.Opening.{AnswersAlways, start-pending, tables_started}

get-spawn :
    (race_id : String) (rooms : Registry)
    → (actor : ActorRef) × (get race_id (spawn race_id rooms) ≡ some actor)
unfolding spawn
get-spawn race_id rooms =
    let actor : ActorRef = record { race_id = race_id; number = rooms.spawned } in
    (
      actor,
      Dict.get-store rooms.rooms race_id race_id actor ∙ ground (arith, eq_iff race_id race_id),
    )

tell_room-running :
    (race_id : String) (r : Race) (s : Server) (actor : ActorRef)
    → get race_id s.rooms ≡ some actor
    → tell_room race_id r s ≡ (
      write_json 200 (race_started r.id r.status r.started_at (prompt_of r)),
      record s { marked = (actor, prompt_of r) ∷ s.marked },
    )
unfolding tell_room
tell_room-running race_id r s actor h =
    let answered : ActorRef → Response × Server = λ a. (
      write_json 200 (race_started r.id r.status r.started_at (prompt_of r)),
      record s { marked = (a, prompt_of r) ∷ s.marked },
    ) in
    ap (λ o. elim o [ none ↦ (internal_error, s) | some a ↦ answered a ]) h

module _ (lib : Libraries) (pg : Postgres) (user_id : String) where
  -- What a 201 means: the race is there, made by the caller and pending, and it has a room.
  Stands : Response × Server → Type 0
  Stands (write_json n (race_created r token), s') =
      (r.created_by ≡ user_id)
      × (is_pending r.status ≡ true)
      × ((i : ℕ) × (lib.generate_race_id i ≡ ok r.id))
      × (find_race r.id s'.tables.races ≡ some (record { race = r; ended_at = none }))
      × ((actor : ActorRef) × (get r.id s'.rooms ≡ some actor))
  Stands (_, s') = Unit

  create-Stands :
      (name : String) (d : ℤ) (s : Server)
      → Stands (create lib pg (some user_id) (some (name, d)) s)
  unfolding create Stands
  create-Stands name d s =
      answered (create_race_and_join lib pg name d user_id s.tables)
        (create_race_lem lib pg name user_id d s.tables)
    where
      answered :
          (x : Creation × Database)
          → CreatesWell lib.generate_race_id user_id s.tables x
          → Stands (elim x.0 as (λ _. Response × Server) [
            | invalid errs ↦ (field_errors 400 errs, record s { tables = x.1 })
            | failed e ↦ (internal_error, record s { tables = x.1 })
            | created r t ↦ (
              write_json 201 (race_created r t),
              record s { tables = x.1; rooms = spawn r.id s.rooms },
            )
          ])
      answered (invalid errs, db) h = tt
      answered (failed e, db) h = tt
      answered (created r t, db) (new, mine, p, made, row, joined) =
          (mine, p, made, row, get-spawn r.id s.rooms)

  -- When Create has answered with 201 and a race, and Postgres answers every exchange, the same user
  -- can start it: the answer is 200, and the race's actor is told the text that the answer holds. The
  -- generated ids are assumed to match the pattern that Start checks.
  pub created_race_starts :
      (up : AnswersAlways pg)
      (matches : (i : ℕ) (id : String)
        → lib.generate_race_id i ≡ ok id
        → is_valid_race_id id ≡ true)
      (name : String) (d : ℤ) (s s' : Server) (r : Race) (token : String)
      → create lib pg (some user_id) (some (name, d)) s
        ≡ (write_json 201 (race_created r token), s')
      → let (response, s'') = start lib pg (some user_id) r.id s' in
        let prompt = lib.generate_prompt_text r.distance_meters in
        (response ≡ write_json 200 (race_started r.id active (some (pg.now s'.tables)) prompt))
        × ((actor : ActorRef) × (get r.id s'.rooms ≡ some actor)
            × (s''.marked ≡ (actor, prompt) ∷ s'.marked))
  unfolding Stands
  created_race_starts up matches name d s s' r token h =
      let (mine, p, (i, made), found, (actor, running)) = subst Stands h (create-Stands name d s) in
      let row : RaceRow = record { race = r; ended_at = none } in
      let prompt = lib.generate_prompt_text r.distance_meters in
      let started : start lib pg (some user_id) r.id s' ≡ (
        write_json 200 (race_started r.id active (some (pg.now s'.tables)) prompt),
        record s' {
          tables = tables_started lib pg up r.id user_id s'.tables row;
          marked = (actor, prompt) ∷ s'.marked;
        },
      ) =
        start-pending lib pg up r.id user_id s' row (matches i r.id made) found mine p
        ∙ tell_room-running r.id _ _ actor running in
      (ap (λ x. x.0) started, (actor, running, ap (λ x. x.1.marked) started))
