-- ===== src/Leaderboard.antt =====
-- backend/internal/leaderboard: service.go over repository.go.
pub mod Pages
pub mod Handler
pub mod Repository
use aviron.Base.{
  ℕ, zero, suc, ◌+◌, ◌-◌, ◌*◌, ◌/◌, ◌%◌, ◌^◌, String, Bool, true, false, List, [], ◌∷◌, Option,
  none, some, ltb, leb, if◌then◌else◌,
}
use aviron.Base.Int.{ℤ, pos, negsuc, pos_part, ltb_ℤ, ◌+ℤ◌}
use aviron.Base.Dict
use aviron.Base.Dict.{Dict}
use aviron.Room.State.{Float64}
use text.Mathlib.Text.{◌==◌}

pub record Stats : Type 0 where
  pub total_races : ℕ
  pub total_wins : ℕ
  pub total_pace_watt_sum : Float64

pub data Window : Type 0 where
  all_time : Window
  weekly : Window

pub record Entry : Type 0 where
  pub user_id : String
  pub display_name : String
  pub races : ℕ
  pub wins : ℕ
  pub avg_wpm : Float64

-- LeaderboardRepository, `none` for an error; GetTop takes a window, a limit and an offset.
pub record LeaderboardRepository : Type 0 where
  pub get_user_stats : String → Option Stats
  pub get_top : Window → ℕ → ℤ → Option (List Entry × ℕ)

-- LeaderboardMeResponse
pub record MeResponse : Type 0 where
  pub races_joined : ℕ
  pub races_won : ℕ
  pub avg_wpm : Float64

-- GetMyStats; `average` is the rounded quotient of a float64 by a count
unfoldable pub get_my_stats :
    LeaderboardRepository → (Float64 → ℕ → Float64) → Float64 → String → Option MeResponse
get_my_stats repo average zero_wpm user_id = elim (repo.get_user_stats user_id) [
  | none ↦ none
  | some stats ↦ some (record {
    races_joined = stats.total_races;
    races_won = stats.total_wins;
    avg_wpm =
        if ltb 0 stats.total_races
        then average stats.total_pace_watt_sum stats.total_races
        else zero_wpm;
  })
]

abbrev pub page_size : ℕ
page_size = 5

-- An int of 64 bits with the lowest bits of a product.
abbrev pub to_int64 : ℕ → ℤ
to_int64 n = let low = n % 2 ^ 64 in if ltb low (2 ^ 63) then pos low else negsuc (2 ^ 64 - 1 - low)

-- `if page < 1 { page = 1 }`
abbrev pub clamp_page : ℤ → ℕ
clamp_page page = if ltb_ℤ page (pos 1) then 1 else pos_part page

-- `(page - 1) * pageSize`
abbrev pub offset_of : ℕ → ℤ
offset_of page = to_int64 ((page - 1) * page_size)

-- `max(1, (total+pageSize-1)/pageSize)`
abbrev pub total_pages : ℕ → ℕ
total_pages total = let n = (total + page_size - 1) / page_size in if leb n 1 then 1 else n

-- A rank and the entry that has it: LeaderboardEntryResponse.
unfoldable pub rank_entries : ℤ → ℕ → List Entry → List (ℤ × Entry)
rank_entries offset i [] = []
rank_entries offset i (e ∷ es) = (offset +ℤ pos (i + 1), e) ∷ rank_entries offset (i + 1) es

-- LeaderboardTopResponse
pub record TopResponse : Type 0 where
  pub window : Window
  pub page : ℕ
  pub total_pages_count : ℕ
  pub entries : List (ℤ × Entry)

-- Window(windowParam), `none` for another text
unfoldable pub window_of : String → Option Window
window_of param =
    if param == "alltime" then some all_time else if param == "weekly" then some weekly else none

-- What GetTop returns.
pub data Top : Type 0 where
  wrong_window : Top
  failed : Top
  found : TopResponse → Top

-- GetTop
unfoldable pub get_top : LeaderboardRepository → String → ℤ → Top
get_top repo window_param page_param = elim (window_of window_param) [
  | none ↦ wrong_window
  | some window ↦
      let page = clamp_page page_param in
      elim (repo.get_top window page_size (offset_of page)) [
        | none ↦ failed
        | some (entries, total) ↦ found (record {
          window = window;
          page = page;
          total_pages_count = total_pages total;
          entries = rank_entries (offset_of page) 0 entries;
        })
      ]
]
