-- ===== src/Tests/RaceFixtures.antt =====
-- A Postgres and libraries that never fail, and tables with one race.
use aviron.Base.{◌+◌, List, [], ◌∷◌, none, some}
use aviron.Base.Int.{pos}
use aviron.Base.Dict
use aviron.Room.State.{ParticipantResult}
use aviron.Race.Data.{pending, RaceRow, ParticipantRow, Database, ok, Postgres}
use aviron.Race.Service.{Libraries}

-- A server that never fails.
abbrev pub steady : Postgres
steady = record { now = λ db. 5; fault = λ db i. none; add_watts = λ a b. a + b }

abbrev pub libraries : Libraries
libraries = record {
  trim_space = λ s. s;
  len = λ s. 3;
  sign = λ r u. ok "token";
  generate_race_id = λ i. ok "r1";
  generate_prompt_text = λ n. "one two three";
}

abbrev pub sprint : RaceRow
sprint = record {
  race = record {
    id = "r1";
    name = "sprint";
    distance_meters = pos 3;
    status = pending;
    created_by = "ann";
    created_at = 1;
    started_at = none;
    prompt_text = none;
  };
  ended_at = none;
}

abbrev pub ann_row : ParticipantRow
ann_row = record {
  race_id = "r1";
  user_id = "ann";
  joined_at = 2;
  finish_rank = none;
  finish_time_ms = none;
  avg_pace_watt = none;
  disconnected_count = 0;
}

-- Ann and Bob, and a race in which Ann is.
abbrev pub tables : Database
tables = record {
  users = Dict.store (Dict.store Dict.empty "ann" "Ann") "bob" "Bob";
  races = sprint ∷ [];
  race_participants = ann_row ∷ [];
  leaderboard_alltime = Dict.empty;
}

abbrev pub ann_wins : List ParticipantResult
ann_wins =
    record {
      user_id = "ann";
      finish_rank = some 1;
      finish_time_ms = some (pos 900);
      avg_pace_watt = 60;
      disconnected_count = 0;
    }
    ∷ []
