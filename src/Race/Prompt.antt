-- ===== src/Race/Prompt.antt =====
-- backend/internal/race/prompt.go: the text of a race.
pub mod Counted
use Prim.Native.Char.{Char}
use Prim.Native.String.{[], ◌∷◌}
use aviron.Base.{ℕ, zero, suc, String, List, [], ◌∷◌}
use aviron.Base.Strings.{join}

-- " "
abbrev pub space : Char
space = " "

-- What so many calls of gofakeit.Word draw, from the `i`-th on.
unfoldable pub draw_words : (ℕ → String) → ℕ → ℕ → List String
draw_words word i zero = []
draw_words word i (suc n) = word i ∷ draw_words word (suc i) n

-- generatePromptText, for a count that is not negative
unfoldable pub generate_prompt_text : (ℕ → String) → ℕ → String
generate_prompt_text word word_count = join space (draw_words word 0 word_count)
