-- ===== src/Race/Ids.antt =====
-- backend/internal/race/id.go, and the pattern of backend/internal/race/handler.go that ids are
-- checked by.
pub mod Valid
use Prim.Native.Char.{Char, code}
use Prim.Native.String.{[], ◌∷◌, char_at, count}
use aviron.Base.{ℕ, zero, suc, ◌+◌, String, Bool, true, ◌&&◌, ◌||◌, leb, ◌==◌, if◌then◌else◌}
use aviron.Race.Data.{Result, ok, err}

abbrev pub base58_alphabet : String
base58_alphabet = "123456789ABCDEFGHJKLMNPQRSTUVWXYZabcdefghijkmnopqrstuvwxyz"

abbrev pub race_id_length : ℕ
race_id_length = 12

-- The turns of GenerateRaceID from one on; `draws` are the answers of rand.Int.
unfoldable pub draw_characters : (ℕ → Result ℕ) → ℕ → ℕ → Result String
draw_characters draws i zero = ok []
draw_characters draws i (suc left) =
    let rest = draw_characters draws (i + 1) left in
    elim (draws i) [
      | err e ↦ err e
      | ok n ↦ elim rest [ err e ↦ err e | ok s ↦ ok (char_at base58_alphabet n ∷ s) ]
    ]

-- GenerateRaceID
unfoldable pub generate_race_id : (ℕ → Result ℕ) → Result String
generate_race_id draws = draw_characters draws 0 race_id_length

-- A range of characters, by their numbers.
abbrev pub is_between : ℕ → ℕ → Char → Bool
is_between low high c = leb low (code c) && leb (code c) high

-- [1-9A-HJ-NP-Za-km-z]
unfoldable pub is_base58 : Char → Bool
is_base58 c =
    is_between 49 57 c
    || (is_between 65 72 c || is_between 74 78 c || is_between 80 90 c)
    || (is_between 97 107 c || is_between 109 122 c)

unfoldable pub all_base58 : String → Bool
all_base58 [] = true
all_base58 (c ∷ s) = is_base58 c && all_base58 s

-- isValidRaceID
unfoldable pub is_valid_race_id : String → Bool
is_valid_race_id s = all_base58 s && count s == race_id_length
