-- ===== src/Tests/LeaderboardTests.antt =====
-- The pages of the leaderboard, backend/internal/leaderboard/service.go.
use aviron.Base.{
  ℕ, String, ◌≡◌, refl, List, [], ◌∷◌, Option, none, some, true, false, arith, length,
}
use aviron.Base.Int.{pos}
use aviron.Base.Dict
use aviron.Race.Data.{finished, RaceRow, ParticipantRow, LeaderboardRow, Database}
use aviron.Leaderboard.{all_time, Entry, offset_of, rank_entries, total_pages}
use aviron.Leaderboard.Pages.{read_pages}
use aviron.Leaderboard.Repository.{Server, repository_of, window_count}
use aviron.Leaderboard.Repository.Ordering.{IsDescending, entry_wins}
use aviron.Leaderboard.Repository.Standing.{all_time_pages}

abbrev instants : Server
instants = record {
  now = 1000;
  fault = λ i. false;
  quotient = λ sum n. sum;
  mean = λ ws. 60;
  is_before = λ a b. true;
}

abbrev standing : ℕ → LeaderboardRow
standing wins = record {
  best_2000m_ms = none;
  total_races = 3;
  total_distance_m = pos 0;
  total_wins = wins;
  total_pace_watt_sum = 180;
  updated_at = 0;
}

abbrev sprint : RaceRow
sprint = record {
  race = record {
    id = "r1";
    name = "Sprint";
    distance_meters = pos 100;
    status = finished;
    created_by = "ann";
    created_at = 0;
    started_at = some 1;
    prompt_text = some "one two three";
  };
  ended_at = some 900;
}

-- Ann has run; Bob has joined, and never connected.
abbrev result_of : String → Option ℕ → ParticipantRow
result_of user_id rank = record {
  race_id = "r1";
  user_id = user_id;
  joined_at = 0;
  finish_rank = rank;
  finish_time_ms = none;
  avg_pace_watt = rank;
  disconnected_count = 0;
}

abbrev tables : Database
tables = record {
  users = Dict.store (Dict.store Dict.empty "ann" "Ann") "bob" "Bob";
  races = sprint ∷ [];
  race_participants = result_of "ann" (some 1) ∷ result_of "bob" none ∷ [];
  leaderboard_alltime = Dict.store (Dict.store Dict.empty "ann" (standing 1)) "bob" (standing 2);
}

all_time_pages_example :
    (es : List Entry) × (read_pages
        (repository_of instants 0 tables)
        "alltime"
        (total_pages (window_count instants tables all_time))
        1
      ≡ rank_entries (pos 0) 0 es)
    × (length es ≡ window_count instants tables all_time)
    × IsDescending (entry_wins es)
unfolding Dict.get Dict.store Dict.empty Dict.entries
all_time_pages_example =
    all_time_pages instants 0 tables (λ i. refl) (refl, (refl, tt)) (omega arith)

-- The offset of a huge page wraps around to a small one.
huge_page_wraps : offset_of 3689348814741910325 ≡ pos 4
huge_page_wraps = refl
