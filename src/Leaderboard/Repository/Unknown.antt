-- ===== src/Leaderboard/Repository/Unknown.antt =====
-- A user without an average in the ranking of the week.
use text.Mathlib.TextEquality.{eq_iff}
use text.Mathlib.Text.{◌==◌}
use aviron.Base.{
  ◌≤◌, String, ◌≡◌, ◌≢◌, refl, ap, ◌∙◌, Bool, true, false, List, [], ◌∷◌, none, some, length, ◌||◌,
  inl, inr, Bool-cases, arith, match_rule, list_rule, drop, take_all,
}
use aviron.Base.Int.{pos}
use aviron.Base.Dict
use aviron.Base.Dict.{Dict}
use aviron.Room.State.{Float64}
use aviron.Race.Data.{ParticipantRow, Database}
use aviron.Leaderboard.{weekly, get_top, window_of, failed}
use aviron.Leaderboard.Repository.{
  Server, RankedRow, weekly_participants, rows_of_user, distinct_users, known_averages, average,
  top_weekly, scan_rows, read_page, window_rows, window_count, repository_of, order_rows,
}
use aviron.Leaderboard.Repository.Ordering.{length-order_rows, scan_rows-order_rows}

-- Whether a user is in a list.
abbrev pub is_listed : String → List String → Bool
is_listed user_id [] = false
is_listed user_id (u ∷ us) = (u == user_id) || is_listed user_id us

distinct_users-listed :
    (user_id : String) (rps : List ParticipantRow)
    → rows_of_user user_id rps ≢ []
    → is_listed user_id (distinct_users rps) ≡ true
unfolding distinct_users rows_of_user
distinct_users-listed user_id [] h = absurd (h refl)
distinct_users-listed user_id (rp ∷ rps) h =
    list_rule (λ (us : List String). is_listed user_id us ≡ true) (rows_of_user rp.user_id rps)
      (elim (Bool-cases (rp.user_id == user_id)) [
        | inl t ↦ ground (arith, t)
        | inr f ↦ ground (arith, distinct_users-listed user_id rps (λ e. h (ground (arith, f, e))))
      ])
      (λ rp' rps' e.
        distinct_users-listed user_id rps
          (λ e'. h (ground (arith, e, e', eq_iff rp.user_id user_id))))

module _ (srv : Server) (users : Dict String) (rps : List ParticipantRow) (user_id name : String)
    (registered : Dict.get users user_id ≡ some name)
    (unknown : known_averages (rows_of_user user_id rps) ≡ []) where
  top_weekly-unknown :
      (user_ids : List String)
      → is_listed user_id user_ids ≡ true
      → scan_rows (top_weekly srv users rps user_ids) ≡ none
  unfolding top_weekly scan_rows average
  top_weekly-unknown [] h = ground (arith, h)
  top_weekly-unknown (u ∷ us) h =
      match_rule (λ (rows : List RankedRow). scan_rows rows ≡ none) (Dict.get users u)
        (λ n. top_weekly-unknown us (ground (arith, h, n, registered, eq_iff u user_id)))
        (λ display_name g. elim (Bool-cases (u == user_id)) [
          | inl t ↦ ground (arith, t, unknown, eq_iff u user_id)
          | inr f ↦ ground (arith, top_weekly-unknown us (ground (arith, f, h)))
        ])

length-top_weekly :
    (srv : Server) (users : Dict String) (rps : List ParticipantRow) (user_ids : List String)
    → length (top_weekly srv users rps user_ids) ≤ length user_ids
unfolding top_weekly
length-top_weekly srv users rps [] = omega arith
length-top_weekly srv users rps (u ∷ us) = ground (arith, length-top_weekly srv users rps us)

-- When someone joined a race that ended within the week, but none of their races of the week has an
-- average, as for one who never sent a frame, and at most five users are in the ranking: the first
-- page of the weekly leaderboard is answered with an error.
pub unknown_average_fails :
    (srv : Server) (zero_sum : Float64) (db : Database) (user_id name : String)
    → Dict.get db.users user_id ≡ some name
    → rows_of_user user_id (weekly_participants srv db.races db.race_participants) ≢ []
    → known_averages (rows_of_user user_id (weekly_participants srv db.races db.race_participants))
      ≡ []
    → window_count srv db weekly ≤ 5
    → get_top (repository_of srv zero_sum db) "weekly" (pos 1) ≡ failed
unfolding get_top window_of read_page window_rows window_count drop
unknown_average_fails srv zero_sum db user_id name registered joined unknown few =
    let rps = weekly_participants srv db.races db.race_participants in
    let user_ids = distinct_users rps in
    let raw = top_weekly srv db.users rps user_ids in
    let whole = take_all 5 (order_rows srv raw) (
      omega (arith, few, length-order_rows srv raw, length-top_weekly srv db.users rps user_ids)) in
    let null =
      top_weekly-unknown srv db.users rps user_id name registered unknown user_ids
        (distinct_users-listed user_id rps joined) in
    ground (arith, ap scan_rows whole ∙ scan_rows-order_rows srv raw null)
