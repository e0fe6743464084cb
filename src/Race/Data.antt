-- ===== src/Race/Data.antt =====
-- The data of backend/internal/race/race.go, and the tables of backend/migrations that
-- backend/internal/postgres/race_repository.go reads and writes. The columns of type INT and BIGINT
-- that only count are unbounded.
use aviron.Base.{ℕ, String, ◌≡◌, refl, subst, Bool, List, Option}
use aviron.Base.Int.{ℤ}
use aviron.Base.Dict.{Dict}
use aviron.Room.State.{Instant, Float64, Error}

-- The values of `status` that the program writes.
pub data RaceStatus : Type 0 where
  pending : RaceStatus
  active : RaceStatus
  finished : RaceStatus
  cancelled : RaceStatus

abbrev pub is_pending : RaceStatus → Bool
is_pending pending = Bool.true
is_pending _ = Bool.false

pub record Race : Type 0 where
  pub id : String
  pub name : String
  pub distance_meters : ℤ
  pub status : RaceStatus
  pub created_by : String
  pub created_at : Instant
  pub started_at : Option Instant
  pub prompt_text : Option String

-- A row of `races`.
pub record RaceRow : Type 0 where
  pub race : Race
  pub ended_at : Option Instant

-- A row of `race_participants`.
pub record ParticipantRow : Type 0 where
  pub race_id : String
  pub user_id : String
  pub joined_at : Instant
  pub finish_rank : Option ℕ
  pub finish_time_ms : Option ℤ
  pub avg_pace_watt : Option Float64
  pub disconnected_count : ℕ

-- A row of `leaderboard_alltime`, without its key.
pub record LeaderboardRow : Type 0 where
  pub best_2000m_ms : Option ℤ
  pub total_races : ℕ
  pub total_distance_m : ℤ
  pub total_wins : ℕ
  pub total_pace_watt_sum : Float64
  pub updated_at : Instant

pub record Database : Type 0 where
  -- the display name of every user
  pub users : Dict String
  pub races : List RaceRow
  pub race_participants : List ParticipantRow
  pub leaderboard_alltime : Dict LeaderboardRow

-- The errors of the package, and those of Postgres and other libraries with a message around them.
pub data RaceError : Type 0 where
  race_not_found : RaceError
  already_joined : RaceError
  race_not_pending : RaceError
  not_creator : RaceError
  prompt_not_ready : RaceError
  race_full : RaceError
  not_participant : RaceError
  -- no unique id after every attempt
  exhausted : RaceError
  -- a row refers to a user or a race that is not there
  foreign_key : RaceError
  wrapped : Error → RaceError

-- A value and a nil error, or an error.
pub data Result {ℓ} (A : Type ℓ) : Type ℓ where
  ok : A → Result A
  err : RaceError → Result A

-- What the tables do not say: the server's clock, the error that the `i`-th exchange of a method
-- with the server ends in (`none` when it succeeds), and the addition of its NUMERIC columns.
pub record Postgres : Type 0 where
  pub now : Database → Instant
  pub fault : Database → ℕ → Option Error
  pub add_watts : Float64 → Float64 → Float64

abbrev pub max_participants : ℕ
max_participants = 10

-- To prove a property of a match on a result.
pub result_rule {ℓ κ ι} :
    {A : Type ℓ} {B : Type κ} (P : B → Type ι) (x : Result A) {g : A → B} {f : RaceError → B}
    → ((a : A) → x ≡ ok a → P (g a))
    → ((e : RaceError) → x ≡ err e → P (f e))
    → P (elim x [ ok a ↦ g a | err e ↦ f e ])
result_rule P (ok a) g f = g a refl
result_rule P (err e) g f = f e refl

-- What a value is to have, if there is one.
abbrev pub OnSuccess {ℓ κ} : {A : Type ℓ} → (A → Type κ) → Result A → Type κ
OnSuccess P (ok a) = P a
OnSuccess P (err e) = Unit

pub succeeds {ℓ κ} :
    {A : Type ℓ} (P : A → Type κ) (x : Result A) (a : A) → OnSuccess P x → x ≡ ok a → P a
succeeds P x a h e = subst (OnSuccess P) e h

pub OnSuccess-map {ℓ κ ι} :
    {A : Type ℓ} (P : A → Type κ) (Q : A → Type ι)
    → ((a : A) → P a → Q a)
    → (x : Result A) → OnSuccess P x
    → OnSuccess Q x
OnSuccess-map P Q f (ok a) h = f a h
OnSuccess-map P Q f (err e) h = tt
