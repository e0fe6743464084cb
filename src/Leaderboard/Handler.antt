-- ===== src/Leaderboard/Handler.antt =====
-- backend/internal/leaderboard/handler.go: the leaderboard over HTTP. `caller` is the user that the
-- middleware has put into the context, if any.
use aviron.Base.{ℕ, String, ◌≡◌, true, Option, none, some, arith}
use aviron.Base.Int.{ℤ, pos, ltb_ℤ}
use aviron.Room.State.{Float64}
use aviron.Leaderboard.{
  LeaderboardRepository, MeResponse, TopResponse, Top, wrong_window, failed, found, get_my_stats,
  get_top,
}

-- The body of a response with a status of success.
pub data Body : Type 0 where
  me_response : MeResponse → Body
  top_response : TopResponse → Body

pub data Response : Type 0 where
  -- httpx.WriteError: a status and a code
  write_error : ℕ → String → Response
  -- a status, and an error for one field
  field_error : ℕ → String → String → Response
  -- httpx.WriteJSON of a result
  write_json : ℕ → Body → Response

abbrev pub unauthorized : Response
unauthorized = write_error 401 "unauthorized"

-- LeaderboardHandler.Me
unfoldable pub me :
    LeaderboardRepository → (Float64 → ℕ → Float64) → Float64 → Option String → Response
me repo average zero_wpm none = unauthorized
me repo average zero_wpm (some user_id) = elim (get_my_stats repo average zero_wpm user_id) [
  | none ↦ write_error 500 "internal_error"
  | some stats ↦ write_json 200 (me_response stats)
]

-- The branches of Top after the service has returned.
unfoldable pub top_response_of : Top → Response
top_response_of wrong_window = field_error 400 "window" "must be alltime or weekly"
top_response_of failed = write_error 500 "internal_error"
top_response_of (found resp) = write_json 200 (top_response resp)

-- LeaderboardHandler.Top; `atoi` is the number that strconv.Atoi returns, with or without an error
unfoldable pub top :
    LeaderboardRepository → (String → ℤ) → Option String → String → String → Response
top repo atoi none window_param page_param = unauthorized
top repo atoi (some user_id) window_param page_param =
    top_response_of (get_top repo window_param (atoi page_param))

-- A page that is read as less than 1, as one that is missing or no number is read as 0, is answered as
-- the first one is.
top-first_page :
    (repo : LeaderboardRepository) (atoi : String → ℤ) (caller : Option String)
    (window_param page_param first : String)
    → ltb_ℤ (atoi page_param) (pos 1) ≡ true
    → atoi first ≡ pos 1
    → top repo atoi caller window_param page_param ≡ top repo atoi caller window_param first
unfolding top get_top
top-first_page repo atoi caller window_param page_param first h f = ground (arith, h, f)
