-- ===== src/Leaderboard/Repository/Standing.antt =====
-- The ranking of all time over the tables, read page by page.
use aviron.Base.{
  ℕ, ◌^◌, ◌<◌, String, ◌≡◌, refl, sym, ap, ◌∙◌, subst, true, false, List, [], ◌∷◌, some, length,
  All, arith, if_rule, match_rule, is_some, ltb, take, drop,
}
use aviron.Base.Int.{pos}
use aviron.Base.Dict
use aviron.Base.Dict.{Dict}
use aviron.Room.State.{Float64}
use aviron.Race.Data.{LeaderboardRow, Database}
use aviron.Leaderboard.{all_time, Entry, total_pages, rank_entries, window_of}
use aviron.Leaderboard.Pages.{read_pages, pages_rank_everyone, ServesPages}
use aviron.Leaderboard.Repository.{
  Server, top_all_time, count_all_time, read_page, window_rows, window_count, repository_of,
  order_rows,
}
use aviron.Leaderboard.Repository.Ordering.{
  IsDescending, AllKnown, order_rows-IsDescending, length-order_rows, order_rows-AllKnown, scanned,
  length-scanned, scan_rows-take, drop-AllKnown, scanned-drop, entry_wins, entry_wins-scanned,
}

-- The reference of `user_id` to `users`.
abbrev pub RefersToUsers : Database → Type 0
RefersToUsers db =
    All (λ r. is_some (Dict.get db.users r.0) ≡ true) (Dict.entries db.leaderboard_alltime)

module _ (srv : Server) (users : Dict String) where
  top_all_time-AllKnown :
      (rows : List (String × LeaderboardRow)) → AllKnown (top_all_time srv users rows)
  unfolding top_all_time
  top_all_time-AllKnown [] = tt
  top_all_time-AllKnown ((user_id, row) ∷ rows) =
      let rest = top_all_time-AllKnown rows in
      if_rule AllKnown (ltb 0 row.total_races)
        (λ _. match_rule AllKnown (Dict.get users user_id) (λ _. rest) (λ name _. (refl, rest)))
        (λ _. rest)

  length-top_all_time :
      (rows : List (String × LeaderboardRow))
      → All (λ r. is_some (Dict.get users r.0) ≡ true) rows
      → length (top_all_time srv users rows) ≡ count_all_time rows
  unfolding top_all_time
  length-top_all_time [] k = refl
  length-top_all_time ((user_id, row) ∷ rows) k =
      ground (arith, k.0, length-top_all_time rows (k.1))

-- With a server that answers, and users for all rows of the ranking, of which fewer than 2 ^ 62 have a
-- race: the pages of the all-time leaderboard from 1 to the last one that is reported are, one after
-- another, as many entries as there are users with a race, ranked from 1 on, and no entry has more
-- wins than the one before it.
pub all_time_pages :
    (srv : Server) (zero_sum : Float64) (db : Database)
    → ((i : ℕ) → srv.fault i ≡ false)
    → RefersToUsers db
    → count_all_time (Dict.entries db.leaderboard_alltime) < 2 ^ 62
    → (es : List Entry) × (read_pages
          (repository_of srv zero_sum db)
          "alltime"
          (total_pages (window_count srv db all_time))
          1
        ≡ rank_entries (pos 0) 0 es)
      × (length es ≡ window_count srv db all_time)
      × IsDescending (entry_wins es)
unfolding window_rows window_count read_page window_of
all_time_pages srv zero_sum db answers refers few =
    let raw = top_all_time srv db.users (Dict.entries db.leaderboard_alltime) in
    let rows = order_rows srv raw in
    let known = order_rows-AllKnown srv raw (top_all_time-AllKnown srv db.users _) in
    let es = scanned rows in
    let counted : length es ≡ count_all_time (Dict.entries db.leaderboard_alltime) =
      length-scanned rows known
      ∙ length-order_rows srv raw
      ∙ length-top_all_time srv db.users _ refers in
    let serves : ServesPages (repository_of srv zero_sum db) all_time es = λ limit offset.
      let page =
        scan_rows-take limit (drop offset rows) (drop-AllKnown offset rows known)
        ∙ ap (λ xs. some (take limit xs)) (scanned-drop offset rows known) in
      ground (arith, answers 0, answers 1, answers 2, page, counted) in
    (
      es,
      subst
          (λ n.
            read_pages (repository_of srv zero_sum db) "alltime" (total_pages n) 1
            ≡ rank_entries (pos 0) 0 es)
          counted
          (pages_rank_everyone (repository_of srv zero_sum db) "alltime" all_time es refl serves
            (subst (λ n. n < 2 ^ 62) (sym counted) few)),
      counted,
      subst IsDescending (sym (entry_wins-scanned rows known)) (order_rows-IsDescending srv raw),
    )
