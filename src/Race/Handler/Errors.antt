-- ===== src/Race/Handler/Errors.antt =====
-- What a status of the 400s says of the server.
use aviron.Base.{
  ℕ, ◌≤◌, ◌<◌, String, ◌≡◌, ◌⊎◌, inl, inr, refl, sym, ap, subst, Option, none, some, arith, if_rule,
  match_rule,
}
use aviron.Base.Int.{ℤ}
use aviron.Room.State.{Error}
use aviron.Rooms.Registry.{get, spawn}
use aviron.Race.Data.{Race, Database, Postgres, Result, ok, err, RaceError, wrapped}
use aviron.Race.Ids.{is_valid_race_id}
use aviron.Race.Service.{
  Libraries, Creation, invalid, failed, created, create_race_and_join, join_race, start_race_by,
}
use aviron.Race.Service.Clean.{Clean, SignsCleanly, join_race-Clean, start_race_by-Clean}
use aviron.Race.Service.Creating.{CreatesWell, create_race_lem}
use aviron.Race.Handler.{
  race_created, race_joined, internal_error, Response, write_error, field_errors, write_json,
  Server, with_race_id, create, join_error, join, start_error, start, tell_room,
}

abbrev pub status_code : Response → ℕ
status_code (write_error n code) = n
status_code (field_errors n errs) = n
status_code (write_json n body) = n

-- A request to one of the handlers that change the server, past the checks of the middleware.
pub data Request : Type 0 where
  creates : Option (String × ℤ) → Request
  joins : String → Request
  starts : String → Request

abbrev pub handle : Libraries → Postgres → Option String → Request → Server → Response × Server
handle lib pg caller (creates body) s = create lib pg caller body s
handle lib pg caller (joins race_id) s = join lib pg caller race_id s
handle lib pg caller (starts race_id) s = start lib pg caller race_id s

module _ (lib : Libraries) (signs : SignsCleanly lib) (pg : Postgres) where
  -- A response that is no error of the client, or a server that is as it was.
  Excused : Server → Response × Server → Type 0
  Excused s x = (500 ≤ status_code x.0) ⊎ (status_code x.0 < 400) ⊎ (x.1 ≡ s)

  error-Excused :
      (switch : RaceError → Response)
      → ((e' : Error) → 500 ≤ status_code (switch (wrapped e')))
      → (s : Server) (e : RaceError) (db : Database)
      → (db ≡ s.tables) ⊎ ((e' : Error) × (e ≡ wrapped e'))
      → Excused s (switch e, record s { tables = db })
  unfolding Excused
  error-Excused switch h s e db (inl same) = inr (inr (ap (λ t. record s { tables = t }) same))
  error-Excused switch h s e db (inr (e', named)) =
      inl (subst (λ x. 500 ≤ status_code (switch x)) (sym named) (h e'))

  join-Excused :
      (caller : Option String) (race_id : String) (s : Server)
      → Excused s (join lib pg caller race_id s)
  unfolding join with_race_id join_error Excused
  join-Excused none race_id s = inr (inr refl)
  join-Excused (some user_id) race_id s =
      if_rule (Excused s) (is_valid_race_id race_id)
        (λ _.
          answered (join_race lib pg race_id user_id s.tables)
            (join_race-Clean lib signs pg race_id user_id s.tables))
        (λ _. inr (inr refl))
    where
      answered :
          (x : Result String × Database)
          → Clean s.tables x
          → Excused s (elim x.0 as (λ _. Response × Server) [
            | err e ↦ (join_error e, record s { tables = x.1 })
            | ok t ↦ (write_json 200 (race_joined race_id t), record s { tables = x.1 })
          ])
      answered (ok t, db) h = inr (inl (omega arith))
      answered (err e, db) h = error-Excused join_error (λ _. omega arith) s e db h

  tell_room-Excused :
      (race_id : String) (r : Race) (s s' : Server) → Excused s (tell_room race_id r s')
  unfolding tell_room Excused
  tell_room-Excused race_id r s s' =
      match_rule (Excused s) (get race_id s'.rooms) (λ _. inl (omega arith))
        (λ _ _. inr (inl (omega arith)))

  start-Excused :
      (caller : Option String) (race_id : String) (s : Server)
      → Excused s (start lib pg caller race_id s)
  unfolding start with_race_id start_error Excused
  start-Excused none race_id s = inr (inr refl)
  start-Excused (some user_id) race_id s =
      if_rule (Excused s) (is_valid_race_id race_id)
        (λ _.
          answered (start_race_by lib pg race_id user_id s.tables)
            (start_race_by-Clean lib signs pg race_id user_id s.tables))
        (λ _. inr (inr refl))
    where
      answered :
          (x : Result Race × Database)
          → Clean s.tables x
          → Excused s (elim x.0 as (λ _. Response × Server) [
            | err e ↦ (start_error e, record s { tables = x.1 })
            | ok r ↦ tell_room race_id r (record s { tables = x.1 })
          ])
      answered (ok r, db) h = tell_room-Excused race_id r s (record s { tables = db })
      answered (err e, db) h = error-Excused start_error (λ _. omega arith) s e db h

  create-Excused :
      (caller : Option String) (body : Option (String × ℤ)) (s : Server)
      → Excused s (create lib pg caller body s)
  unfolding create Excused
  create-Excused none body s = inr (inr refl)
  create-Excused (some user_id) none s = inr (inr refl)
  create-Excused (some user_id) (some (name, d)) s =
      answered (create_race_and_join lib pg name d user_id s.tables)
        (create_race_lem lib pg name user_id d s.tables)
    where
      answered :
          (x : Creation × Database)
          → CreatesWell lib.generate_race_id user_id s.tables x
          → Excused s (elim x.0 as (λ _. Response × Server) [
            | invalid errs ↦ (field_errors 400 errs, record s { tables = x.1 })
            | failed e ↦ (internal_error, record s { tables = x.1 })
            | created r t ↦ (
              write_json 201 (race_created r t),
              record s { tables = x.1; rooms = spawn r.id s.rooms },
            )
          ])
      answered (invalid errs, db) h = inr (inr (ap (λ t. record s { tables = t }) h))
      answered (failed e, db) h = inl (omega arith)
      answered (created r t, db) h = inr (inl (omega arith))

  -- When a request to create, join or start a race is answered with a status of the 400s, nothing has
  -- changed: neither the tables, nor the rooms, nor what the actors were told. It is assumed that the
  -- errors of SignedString have a message around them, as the service gives them.
  pub client_errors_change_nothing :
      (caller : Option String) (q : Request) (s : Server)
      → 400 ≤ status_code (handle lib pg caller q s).0
      → status_code (handle lib pg caller q s).0 < 500
      → (handle lib pg caller q s).1 ≡ s
  unfolding Excused
  client_errors_change_nothing caller q s low high = elim (excused q) [
    | inl server ↦ absurd (omega (arith, high, server))
    | inr (inl fine) ↦ absurd (omega (arith, low, fine))
    | inr (inr same) ↦ same
  ]
    where
      excused : (q : Request) → Excused s (handle lib pg caller q s)
      excused (creates body) = create-Excused caller body s
      excused (joins race_id) = join-Excused caller race_id s
      excused (starts race_id) = start-Excused caller race_id s
