-- ===== src/Consumer/Repository.antt =====
-- backend/internal/postgres/workout_sample_repository.go: the samples on their way into Postgres.
use aviron.Base.{
  String, Bool, true, false, not, ◌&&◌, List, [], ◌∷◌, Option, none, some, if◌then◌else◌,
}
use aviron.Base.Dict
use aviron.Race.Data.{Database}
use aviron.Race.Repository.Tables.{find_race}
use aviron.Consumer.Data.{WorkoutSample, written, permanent, transient}
use aviron.Consumer.WorkoutLoop.{Insert}

-- An error of CopyFrom.
pub data CopyError : Type 0 where
  -- code 23503
  foreign_key_violation : CopyError
  -- another code, or none
  other_error : CopyError

-- What a CopyFrom meets: whether pgx can encode a user's id as a UUID, whether the connection is
-- lost, and the tables that the rows refer to.
pub record Copying : Type 0 where
  pub is_uuid : String → Bool
  pub lost : Bool
  pub db : Database

-- `all` of a list
abbrev pub all : {A : Type 0} → (A → Bool) → List A → Bool
all f [] = true
all f (x ∷ xs) = let rest = all f xs in if f x then rest else false

abbrev pub has_race : Database → String → Bool
has_race db race_id = elim (find_race race_id db.races) [ none ↦ false | some row ↦ true ]

-- The references of workout_samples.
unfoldable pub has_parents : Database → WorkoutSample → Bool
has_parents db s = has_race db s.race_id && Dict.has db.users s.user_id

-- CopyFrom into workout_samples: all rows or none. The references are checked once all rows are sent.
unfoldable pub copy_from : Copying → List WorkoutSample → Option CopyError
copy_from c rows =
    if c.lost
    then some other_error
    else if not (all (λ (s : WorkoutSample). c.is_uuid s.user_id) rows)
    then some other_error
    else if all (has_parents c.db) rows
    then none
    else some foreign_key_violation

-- InsertBatch
unfoldable pub insert_batch : Copying → Insert
insert_batch c samples = elim (copy_from c samples) [
  | none ↦ written
  | some foreign_key_violation ↦ permanent
  | some other_error ↦ transient
]
