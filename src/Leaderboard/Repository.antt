-- ===== src/Leaderboard/Repository.antt =====
-- backend/internal/postgres/leaderboard_repository.go: its queries as functions on the tables.
pub mod Ordering
pub mod Standing
pub mod Unknown
use aviron.Base.{
  ℕ, ◌+◌, ◌*◌, String, Bool, true, false, ◌&&◌, ◌||◌, List, [], ◌∷◌, Option, none, some, length,
  take, drop, count_if, ltb, leb, if◌then◌else◌, ◌==◌,
}
use text.Mathlib.Text.{◌==◌ as ◌is_same◌}
use aviron.Base.Int.{ℤ, pos, negsuc}
use aviron.Base.Dict
use aviron.Base.Dict.{Dict}
use aviron.Room.State.{Instant, Float64}
use aviron.Race.Data.{RaceStatus, finished, RaceRow, ParticipantRow, LeaderboardRow, Database}
use aviron.Race.Repository.Tables.{find_race}
use aviron.Leaderboard.{Stats, Window, all_time, weekly, Entry, LeaderboardRepository}

-- What the tables do not say: the server's clock, whether the `i`-th exchange ends in an error, and the
-- arithmetic of NUMERIC columns.
pub record Server : Type 0 where
  pub now : Instant
  pub fault : ℕ → Bool
  pub quotient : Float64 → ℕ → Float64
  pub mean : List Float64 → Float64
  -- whether the first may come before the second under DESC, which puts NULL before every number
  pub is_before : Option Float64 → Option Float64 → Bool

-- A row of a ranking; `avg_wpm` may be NULL.
pub record RankedRow : Type 0 where
  pub user_id : String
  pub display_name : String
  pub races : ℕ
  pub wins : ℕ
  pub avg_wpm : Option Float64

-- GetUserStats; `zero_sum` is the float64 0
unfoldable pub get_user_stats : Server → Float64 → Database → String → Option Stats
get_user_stats srv zero_sum db user_id =
    if srv.fault 0 then none else elim (Dict.get db.leaderboard_alltime user_id) [
      | none ↦ some (record { total_races = 0; total_wins = 0; total_pace_watt_sum = zero_sum })
      | some row ↦ some (record {
        total_races = row.total_races;
        total_wins = row.total_wins;
        total_pace_watt_sum = row.total_pace_watt_sum;
      })
    ]

-- ORDER BY wins DESC, avg_wpm DESC
abbrev pub comes_first : Server → RankedRow → RankedRow → Bool
comes_first srv a b = ltb b.wins a.wins || (a.wins == b.wins && srv.is_before a.avg_wpm b.avg_wpm)

unfoldable pub insert_ordered : Server → RankedRow → List RankedRow → List RankedRow
insert_ordered srv a [] = a ∷ []
insert_ordered srv a (b ∷ bs) =
    let rest = insert_ordered srv a bs in if comes_first srv a b then a ∷ b ∷ bs else b ∷ rest

unfoldable pub order_rows : Server → List RankedRow → List RankedRow
order_rows srv [] = []
order_rows srv (a ∷ rows) = insert_ordered srv a (order_rows srv rows)

abbrev pub all_time_row : Server → String → String → LeaderboardRow → RankedRow
all_time_row srv user_id display_name row = record {
  user_id = user_id;
  display_name = display_name;
  races = row.total_races;
  wins = row.total_wins;
  avg_wpm = some (srv.quotient row.total_pace_watt_sum row.total_races);
}

-- topAllTimeQuery, before it is ordered and cut
unfoldable pub top_all_time : Server → Dict String → List (String × LeaderboardRow) → List RankedRow
top_all_time srv users [] = []
top_all_time srv users ((user_id, row) ∷ rows) =
    let rest = top_all_time srv users rows in
    if ltb 0 row.total_races
    then elim (Dict.get users user_id) [
      | none ↦ rest
      | some display_name ↦ all_time_row srv user_id display_name row ∷ rest
    ]
    else rest

-- countAllTimeQuery
abbrev pub count_all_time : List (String × LeaderboardRow) → ℕ
count_all_time rows = count_if (λ r. ltb 0 r.1.total_races) rows

abbrev pub is_finished : RaceStatus → Bool
is_finished finished = true
is_finished _ = false

-- interval '7 days'
abbrev pub seven_days : ℕ
seven_days = 604800 * 1000000000

-- r.status = 'finished' AND r.ended_at >= now() - interval '7 days'; NULL is not true
abbrev pub ended_this_week : Server → RaceRow → Bool
ended_this_week srv r =
    is_finished r.race.status
    && (elim r.ended_at [ none ↦ false | some ended_at ↦ leb srv.now (ended_at + seven_days) ])

-- The WHERE clause of the weekly queries, with JOIN races r ON r.id = rp.race_id
unfoldable pub weekly_participants :
    Server → List RaceRow → List ParticipantRow → List ParticipantRow
weekly_participants srv races [] = []
weekly_participants srv races (rp ∷ rps) =
    let rest = weekly_participants srv races rps in
    elim (find_race rp.race_id races) [
      | none ↦ rest
      | some r ↦ if ended_this_week srv r then rp ∷ rest else rest
    ]

-- The rows of a group.
unfoldable pub rows_of_user : String → List ParticipantRow → List ParticipantRow
rows_of_user user_id [] = []
rows_of_user user_id (rp ∷ rps) =
    let rest = rows_of_user user_id rps in if rp.user_id is_same user_id then rp ∷ rest else rest

-- The groups: each user once.
unfoldable pub distinct_users : List ParticipantRow → List String
distinct_users [] = []
distinct_users (rp ∷ rps) =
    let rest = distinct_users rps in
    elim (rows_of_user rp.user_id rps) [ [] ↦ rp.user_id ∷ rest | _ ∷ _ ↦ rest ]

-- The values that avg does not leave out.
unfoldable pub known_averages : List ParticipantRow → List Float64
known_averages [] = []
known_averages (rp ∷ rps) = elim rp.avg_pace_watt [
  | none ↦ known_averages rps
  | some w ↦ w ∷ known_averages rps
]

-- avg(rp.avg_pace_watt), NULL where there is no value
unfoldable pub average : Server → List Float64 → Option Float64
average srv [] = none
average srv (w ∷ ws) = some (srv.mean (w ∷ ws))

-- rp.finish_rank = 1
abbrev pub is_first : ParticipantRow → Bool
is_first rp = elim rp.finish_rank [ none ↦ false | some n ↦ n == 1 ]

abbrev pub weekly_row : Server → String → String → List ParticipantRow → RankedRow
weekly_row srv user_id display_name group = record {
  user_id = user_id;
  display_name = display_name;
  races = length group;
  wins = count_if is_first group;
  avg_wpm = average srv (known_averages group);
}

-- topWeeklyQuery, before it is ordered and cut
unfoldable pub top_weekly :
    Server → Dict String → List ParticipantRow → List String → List RankedRow
top_weekly srv users rps [] = []
top_weekly srv users rps (user_id ∷ user_ids) =
    let rest = top_weekly srv users rps user_ids in
    elim (Dict.get users user_id) [
      | none ↦ rest
      | some display_name ↦ weekly_row srv user_id display_name (rows_of_user user_id rps) ∷ rest
    ]

-- rows.Scan, which cannot put NULL into a float64
unfoldable pub scan_rows : List RankedRow → Option (List Entry)
scan_rows [] = some []
scan_rows (r ∷ rs) =
    let rest = scan_rows rs in
    elim r.avg_wpm [
      | none ↦ none
      | some avg_wpm ↦ elim rest [
        | none ↦ none
        | some es ↦ some (
            record {
              user_id = r.user_id;
              display_name = r.display_name;
              races = r.races;
              wins = r.wins;
              avg_wpm = avg_wpm;
            }
            ∷ es)
      ]
    ]

-- The exchanges of GetTop: the count, the query, and the end of its rows. OFFSET must not be negative.
unfoldable pub read_page : Server → List RankedRow → ℕ → ℕ → ℤ → Option (List Entry × ℕ)
read_page srv rows total limit (negsuc n) = none
read_page srv rows total limit (pos offset) =
    if srv.fault 0 || srv.fault 1 then none else elim (scan_rows (take limit (drop offset rows))) [
      | none ↦ none
      | some es ↦ if srv.fault 2 then none else some (es, total)
    ]

-- The rows of a window in their order, and their number.
unfoldable pub window_rows : Server → Database → Window → List RankedRow
window_rows srv db all_time =
    order_rows srv (top_all_time srv db.users (Dict.entries db.leaderboard_alltime))
window_rows srv db weekly =
    let rps = weekly_participants srv db.races db.race_participants in
    order_rows srv (top_weekly srv db.users rps (distinct_users rps))

unfoldable pub window_count : Server → Database → Window → ℕ
window_count srv db all_time = count_all_time (Dict.entries db.leaderboard_alltime)
window_count srv db weekly =
    length (distinct_users (weekly_participants srv db.races db.race_participants))

-- LeaderboardRepository over the tables
abbrev pub repository_of : Server → Float64 → Database → LeaderboardRepository
repository_of srv zero_sum db = record {
  get_user_stats = get_user_stats srv zero_sum db;
  get_top = λ window. read_page srv (window_rows srv db window) (window_count srv db window);
}
