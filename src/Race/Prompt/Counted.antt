-- ===== src/Race/Prompt/Counted.antt =====
-- The words of the text that a started race has.
use text.Mathlib.Text.{◌==◌ as ◌is_same◌}
use aviron.Base.{
  ℕ, zero, suc, String, ◌≡◌, refl, ap, ◌∙◌, true, some, length, All, arith, match_rule, if_rule,
}
use aviron.Base.Int.{pos}
use aviron.Base.Strings.{split, lacks, split-join}
use aviron.Race.Data.{Race, Database, Result, ok, Postgres, result_rule, is_pending}
use aviron.Race.Repository.{get_race, start_race}
use aviron.Race.Service.{Libraries, from, start_race_by}
use aviron.Race.Service.Starting.{found-get_race}
use aviron.Race.Repository.Tables.{find_race}
use aviron.Race.Prompt.{space, draw_words, generate_prompt_text}

module _ (word : ℕ → String) (one_word : (i : ℕ) → lacks 32 (word i) ≡ true) where
  draw_words-lacks : (i n : ℕ) → All (λ v. lacks 32 v ≡ true) (draw_words word i n)
  unfolding draw_words
  draw_words-lacks i zero = tt
  draw_words-lacks i (suc n) = (one_word i, draw_words-lacks (suc i) n)

  length-draw_words : (i n : ℕ) → length (draw_words word i n) ≡ n
  unfolding draw_words
  length-draw_words i zero = refl
  length-draw_words i (suc n) = ap suc (length-draw_words (suc i) n)

  length-generate_prompt_text :
      (n : ℕ) → length (split 32 (generate_prompt_text word (suc n))) ≡ suc n
  unfolding generate_prompt_text draw_words
  length-generate_prompt_text n =
      ap length
        (split-join 32 space (word 0) (draw_words word 1 n) refl (draw_words-lacks 0 (suc n)))
      ∙ ap suc (length-draw_words 1 n)

-- The text that a start gives a race is drawn for its distance.
start_race_by-prompt :
    (lib : Libraries) (pg : Postgres) (race_id caller_id : String) (db : Database) (r : Race)
    → (start_race_by lib pg race_id caller_id db).0 ≡ ok r
    → r.prompt_text ≡ some (lib.generate_prompt_text r.distance_meters)
unfolding start_race_by start_race
start_race_by-prompt lib pg race_id caller_id db r =
    result_rule Given (get_race pg race_id db)
      (λ q e.
        if_rule Given (q.created_by is_same caller_id)
          (λ _. if_rule Given (is_pending q.status) (λ _. given q e) (λ _ h. ground (arith, h)))
          (λ _ h. ground (arith, h)))
      (λ x e h. ground (arith, h))
  where
    Given : Result Race × Database → Type 0
    Given x = x.0 ≡ ok r → r.prompt_text ≡ some (lib.generate_prompt_text r.distance_meters)

    given :
        (q : Race)
        → get_race pg race_id db ≡ ok q
        → Given (start_race (from 1 pg) race_id (lib.generate_prompt_text q.distance_meters) db)
    given q e =
        let (row, found, same) = found-get_race lib pg race_id caller_id db q e in
        match_rule Given (pg.fault db 1)
          (λ _.
            match_rule Given (find_race race_id db.races) (λ n h. ground (arith, h))
              (λ row' found' h. ground (arith, h, found, found', same)))
          (λ x _ h. ground (arith, h))

-- When a start succeeds, the race has a text, and between its spaces stand exactly as many words as the
-- race's distance, if that is positive, the text is drawn by generatePromptText, and no word that is
-- drawn has a space.
pub started_text_has_all_words :
    (word : ℕ → String) (lib : Libraries) (pg : Postgres) (race_id caller_id : String)
    (db : Database) (r : Race) (n : ℕ)
    → ((i : ℕ) → lacks 32 (word i) ≡ true)
    → ((k : ℕ) → lib.generate_prompt_text (pos k) ≡ generate_prompt_text word k)
    → (start_race_by lib pg race_id caller_id db).0 ≡ ok r
    → r.distance_meters ≡ pos (suc n)
    → (text : String) × (r.prompt_text ≡ some text) × (length (split 32 text) ≡ suc n)
started_text_has_all_words word lib pg race_id caller_id db r n one_word drawn h d =
    let asked = ap lib.generate_prompt_text d ∙ drawn (suc n) in
    (
      generate_prompt_text word (suc n),
      start_race_by-prompt lib pg race_id caller_id db r h ∙ ap some asked,
      length-generate_prompt_text word one_word n,
    )
