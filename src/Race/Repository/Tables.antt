-- ===== src/Race/Repository/Tables.antt =====
-- The WHERE clauses of backend/internal/postgres/race_repository.go over the rows of a table.
use text.Mathlib.Text.{◌==◌}
use aviron.Base.{
  ℕ, String, Bool, false, true, ◌&&◌, List, [], ◌∷◌, Option, none, some, count_if, if◌then◌else◌,
}
use aviron.Race.Data.{RaceRow, ParticipantRow}

-- FROM races WHERE id = $1, the key of the table
unfoldable pub find_race : String → List RaceRow → Option RaceRow
find_race race_id [] = none
find_race race_id (row ∷ rows) = if row.race.id == race_id then some row else find_race race_id rows

-- UPDATE races ... WHERE id = $1
unfoldable pub update_races : (RaceRow → RaceRow) → String → List RaceRow → List RaceRow
update_races change race_id [] = []
update_races change race_id (row ∷ rows) =
    let rest = update_races change race_id rows in
    if row.race.id == race_id then change row ∷ rest else row ∷ rest

-- WHERE race_id = $1 AND user_id = $2
abbrev pub is_row_of : String → String → ParticipantRow → Bool
is_row_of race_id user_id p = p.race_id == race_id && p.user_id == user_id

-- SELECT EXISTS (...)
unfoldable pub has_row : String → String → List ParticipantRow → Bool
has_row race_id user_id [] = false
has_row race_id user_id (p ∷ ps) =
    if is_row_of race_id user_id p then true else has_row race_id user_id ps

-- SELECT count(*) ... WHERE race_id = $1
abbrev pub count_rows : String → List ParticipantRow → ℕ
count_rows race_id ps = count_if (λ p. p.race_id == race_id) ps

-- DELETE FROM race_participants
unfoldable pub delete_rows : String → String → List ParticipantRow → List ParticipantRow
delete_rows race_id user_id [] = []
delete_rows race_id user_id (p ∷ ps) =
    let rest = delete_rows race_id user_id ps in
    if is_row_of race_id user_id p then rest else p ∷ rest

-- UPDATE race_participants ... WHERE race_id = $1 AND user_id = $2
unfoldable pub update_rows :
    (ParticipantRow → ParticipantRow) → String → String → List ParticipantRow → List ParticipantRow
update_rows change race_id user_id [] = []
update_rows change race_id user_id (p ∷ ps) =
    let rest = update_rows change race_id user_id ps in
    if is_row_of race_id user_id p then change p ∷ rest else p ∷ rest
