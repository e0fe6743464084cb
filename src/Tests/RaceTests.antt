-- ===== src/Tests/RaceTests.antt =====
-- Races in Postgres and the service over them, backend/internal/postgres and backend/internal/race.
use aviron.Tests.RaceFixtures.{steady, libraries, tables, ann_wins}
use aviron.Base.Int.{negsuc}
use aviron.Base.Strings.{split, join, lacks}
use aviron.Race.Prompt.{draw_words, generate_prompt_text}
use aviron.Race.Prompt.Counted.{started_text_has_all_words}
use aviron.Race.Repository.{start_race, get_race, started_race}
use aviron.Race.Repository.Tables.{find_race}
use aviron.Race.Service.{Libraries, start_race_by}
use aviron.Tests.RaceFixtures.{libraries, sprint}
use aviron.Base.{some, String, length, ◌≡◌, ◌⊎◌, ◌+◌, refl, [], ◌∷◌, arith}
use aviron.Base.Int.{pos}
use aviron.Base.Dict
use aviron.Race.Data.{RaceError, ok, err}
use aviron.Race.Repository.Tables.{update_races}
use aviron.Race.Repository.Finishing.{
  finish_race, finish_results, upsert_leaderboard, finished_race,
}
use aviron.Race.Repository.Success.{finish_race_succeeds}
use aviron.Race.Repository.Fastest.{ImprovesAll, finish_race-ImprovesAll}
use aviron.Race.Repository.Outcome.{finish_race_all_or_nothing, races_run, wins, entry}
use aviron.Race.Service.Limits.{joins, leaves, starts, serve_all, serve_all-IsWithin, IsWithin}

finish_race_all_or_nothing_example :
    let (res, tx) = finish_race steady "r1" (pos 3) ann_wins tables in
    ((e : RaceError) × (res ≡ err e) × (tx ≡ tables))
    ⊎ ((res ≡ ok tt)
        × (tx.races ≡ update_races (finished_race 5) "r1" tables.races)
        × (races_run (entry tx "ann") ≡ races_run (entry tables "ann") + 1)
        × (wins (entry tx "ann") ≡ wins (entry tables "ann") + 1))
finish_race_all_or_nothing_example =
    finish_race_all_or_nothing steady (pos 3) "r1" ann_wins tables "ann"

tables-IsWithin : IsWithin tables
tables-IsWithin j = ground arith

serve_all-IsWithin_example : IsWithin (
    serve_all libraries steady
      (joins "r1" "bob" ∷ starts "r1" "ann" ∷ leaves "r1" "ann" ∷ [])
      tables)
serve_all-IsWithin_example =
    serve_all-IsWithin libraries steady
      (joins "r1" "bob" ∷ starts "r1" "ann" ∷ leaves "r1" "ann" ∷ []) tables tables-IsWithin

finish_race_succeeds_example : (finish_race steady "r1" (pos 3) ann_wins tables).0 ≡ ok tt
unfolding Dict.has Dict.get Dict.store Dict.empty
finish_race_succeeds_example =
    finish_race_succeeds steady (pos 3) "r1" ann_wins tables (λ t i. refl) (refl, tt)

finish_race-ImprovesAll_example :
    ImprovesAll "ann" ann_wins tables (finish_race steady "r1" (pos 3) ann_wins tables).1
unfolding finish_race finish_results upsert_leaderboard Dict.get Dict.has Dict.store Dict.empty
finish_race-ImprovesAll_example =
    finish_race-ImprovesAll steady (pos 3) "ann" "r1" ann_wins tables refl

-- Every word is drawn as the same.
abbrev draws_one : Libraries
draws_one = record libraries {
  generate_prompt_text =
      λ d. elim d [ pos n ↦ generate_prompt_text (λ i. "one") n | negsuc n ↦ "" ];
}

started_text_has_all_words_example :
    (text : String) × ((started_race 5 "one one one" sprint).race.prompt_text ≡ some text)
    × (length (split 32 text) ≡ 3)
unfolding start_race_by start_race get_race find_race generate_prompt_text draw_words join lacks
started_text_has_all_words_example =
    started_text_has_all_words (λ i. "one") draws_one steady "r1" "ann" tables
      (started_race 5 "one one one" sprint).race 2 (λ i. refl) (λ k. refl) refl refl
