-- ===== src/Race/Repository/Finishing.antt =====
-- backend/internal/postgres/race_repository.go: the two transactions, FinishRace and
-- ReconcileParticipantResults. A transaction works on a copy of the tables, which takes their
-- place when it commits.
use aviron.Base.{
  ℕ, ◌+◌, ◌*◌, String, Bool, false, List, [], ◌∷◌, Option, none, some, length, ◌==◌, is_some,
  if◌then◌else◌,
}
use aviron.Base.Int.{ℤ, ◌+ℤ◌, ltb_ℤ}
use aviron.Base.Dict
use aviron.Room.State.{Instant, ParticipantResult, RaceResultJson}
use aviron.Race.Data.{
  finished, RaceRow, ParticipantRow, LeaderboardRow, Database, foreign_key, wrapped, Result, ok,
  err, Postgres,
}
use aviron.Race.Repository.Tables.{update_races, update_rows}

-- `status = 'finished', ended_at = now()`
abbrev pub finished_race : Instant → RaceRow → RaceRow
finished_race now row = record row {
  race = record row.race { status = finished };
  ended_at = some now;
}

-- SET finish_rank, finish_time_ms, avg_pace_watt, disconnected_count
abbrev pub scored_row : ParticipantResult → ParticipantRow → ParticipantRow
scored_row res p = record p {
  finish_rank = res.finish_rank;
  finish_time_ms = res.finish_time_ms;
  avg_pace_watt = some res.avg_pace_watt;
  disconnected_count = res.disconnected_count;
}

-- `res.FinishRank != nil && *res.FinishRank == 1`
abbrev pub is_winner : ParticipantResult → Bool
is_winner res = elim res.finish_rank [ none ↦ false | some n ↦ n == 1 ]

abbrev pub won : ParticipantResult → ℕ
won res = if is_winner res then 1 else 0

-- The CASE of best_2000m_ms: the new time and the old.
abbrev pub best_time : Option ℤ → Option ℤ → Option ℤ
best_time none old = old
best_time (some new) none = some new
best_time (some new) (some old) = if ltb_ℤ new old then some new else some old

abbrev pub first_entry : ℤ → ParticipantResult → Instant → LeaderboardRow
first_entry distance_meters res now = record {
  best_2000m_ms = res.finish_time_ms;
  total_races = 1;
  total_distance_m = distance_meters;
  total_wins = won res;
  total_pace_watt_sum = res.avg_pace_watt;
  updated_at = now;
}

abbrev pub next_entry : Postgres → ℤ → ParticipantResult → Instant → LeaderboardRow → LeaderboardRow
next_entry pg distance_meters res now old = record {
  best_2000m_ms = best_time res.finish_time_ms old.best_2000m_ms;
  total_races = old.total_races + 1;
  total_distance_m = old.total_distance_m +ℤ distance_meters;
  total_wins = old.total_wins + won res;
  total_pace_watt_sum = pg.add_watts old.total_pace_watt_sum res.avg_pace_watt;
  updated_at = now;
}

-- INSERT INTO leaderboard_alltime ... ON CONFLICT (user_id) DO UPDATE
unfoldable pub upsert_leaderboard : Postgres → ℤ → ParticipantResult → Database → Result Database
upsert_leaderboard pg distance_meters res tx = elim (Dict.get tx.leaderboard_alltime res.user_id) [
  | some old ↦ ok (record tx {
    leaderboard_alltime =
        Dict.store tx.leaderboard_alltime res.user_id
          (next_entry pg distance_meters res (pg.now tx) old);
  })
  | none ↦
      if Dict.has tx.users res.user_id
      then ok (record tx {
        leaderboard_alltime =
            Dict.store tx.leaderboard_alltime res.user_id
              (first_entry distance_meters res (pg.now tx));
      })
      else err foreign_key
]

abbrev pub score : String → ParticipantResult → Database → Database
score race_id res tx = record tx {
  race_participants = update_rows (scored_row res) race_id res.user_id tx.race_participants;
}

-- The loop over the results, its exchanges numbered from `i` on.
unfoldable pub finish_results :
    Postgres → String → ℤ → ℕ → List ParticipantResult → Database → Result Database
finish_results pg race_id distance_meters i [] tx = ok tx
finish_results pg race_id distance_meters i (res ∷ results) tx = elim (pg.fault tx i) [
  | some e ↦ err (wrapped e)
  | none ↦
      let scored = score race_id res tx in
      elim (pg.fault scored (i + 1)) [
        | some e ↦ err (wrapped e)
        | none ↦ elim (upsert_leaderboard pg distance_meters res scored) [
          | err e ↦ err e
          | ok upserted ↦ finish_results pg race_id distance_meters (i + 2) results upserted
        ]
      ]
]

-- The end of a transaction: it commits, if everything before went well and the commit does.
abbrev pub commit : Postgres → ℕ → Result Database → Database → Result (Unit {0}) × Database
commit pg i (err e) db = (err e, db)
commit pg i (ok tx) db = elim (pg.fault tx i) [
  | some e ↦ (err (wrapped e), db)
  | none ↦ (ok tt, tx)
]

abbrev pub mark_finished : Postgres → String → Database → Database
mark_finished pg race_id db = record db {
  races = update_races (finished_race (pg.now db)) race_id db.races;
}

-- FinishRace
unfoldable pub finish_race :
    Postgres → String → ℤ → List ParticipantResult → Database → Result (Unit {0}) × Database
finish_race pg race_id distance_meters results db = elim (pg.fault db 0) [
  | some e ↦ (err (wrapped e), db)
  | none ↦ elim (pg.fault db 1) [
    | some e ↦ (err (wrapped e), db)
    | none ↦
        commit pg (2 * length results + 2)
          (finish_results pg race_id distance_meters 2 results (mark_finished pg race_id db)) db
  ]
]

-- SET finish_rank, finish_time_ms, avg_pace_watt where finish_rank IS NULL
abbrev pub filled_row : RaceResultJson → ParticipantRow → ParticipantRow
filled_row res p = if is_some p.finish_rank then p else record p {
  finish_rank = res.finish_rank;
  finish_time_ms = res.finish_time_ms;
  avg_pace_watt = some res.avg_pace_watt;
}

abbrev pub fill_in : String → RaceResultJson → Database → Database
fill_in race_id res tx = record tx {
  race_participants = update_rows (filled_row res) race_id res.user_id tx.race_participants;
}

unfoldable pub reconcile_results :
    Postgres → String → ℕ → List RaceResultJson → Database → Result Database
reconcile_results pg race_id i [] tx = ok tx
reconcile_results pg race_id i (res ∷ results) tx = elim (pg.fault tx i) [
  | some e ↦ err (wrapped e)
  | none ↦ reconcile_results pg race_id (i + 1) results (fill_in race_id res tx)
]

-- ReconcileParticipantResults
unfoldable pub reconcile_participant_results :
    Postgres → String → List RaceResultJson → Database → Result (Unit {0}) × Database
reconcile_participant_results pg race_id results db = elim (pg.fault db 0) [
  | some e ↦ (err (wrapped e), db)
  | none ↦ commit pg (length results + 1) (reconcile_results pg race_id 1 results db) db
]
