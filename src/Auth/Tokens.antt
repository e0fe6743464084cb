-- ===== src/Auth/Tokens.antt =====
-- The JWTs of the program: the login token that backend/internal/middleware/auth.go checks, and the
-- session token for a race, signed by backend/internal/race/service.go and checked by
-- backend/internal/wsgateway/session_token.go.
pub mod Kinds
use Prim.Native.String.{len}
use aviron.Base.{ℕ, ◌+◌, ◌*◌, ◌/◌, String, Bool, Option, none, some, ltb, ◌==◌, if◌then◌else◌}
use aviron.Base.Strings.{trim_prefix}
use aviron.Room.State.{Instant}

abbrev pub second : ℕ
second = 1000000000

-- jwt.MapClaims: the claims that are strings, and the expiry in seconds.
pub record Claims : Type 0 where
  pub sub : Option String
  pub email : Option String
  pub user_id : Option String
  pub race_id : Option String
  pub exp : Option ℕ

-- The library with the program's secret: the signed token of claims, and the claims of a token with
-- a good signature that is valid at some time, `none` for an error.
pub record Jwt : Type 0 where
  pub sign : Claims → Option String
  pub parse : Instant → String → Option Claims

-- The claims of Login: 24 hours
abbrev pub login_claims : String → String → Instant → Claims
login_claims user_id email now = record {
  sub = some user_id;
  email = some email;
  user_id = none;
  race_id = none;
  exp = some ((now + 86400 * second) / second);
}

-- The claims of signSessionToken: 6 hours
abbrev pub session_claims : String → String → Instant → Claims
session_claims race_id user_id now = record {
  sub = none;
  email = none;
  user_id = some user_id;
  race_id = some race_id;
  exp = some ((now + 21600 * second) / second);
}

unfoldable pub sign_session_token : Jwt → Instant → String → String → Option String
sign_session_token jwt now race_id user_id = jwt.sign (session_claims race_id user_id now)

-- `!ok || s == ""` of a claim
abbrev pub string_claim : Option String → Option String
string_claim none = none
string_claim (some s) = if len s == 0 then none else some s

-- The claims of a token that has an expiry which is not past.
unfoldable pub unexpired_claims : Jwt → Instant → String → Option Claims
unexpired_claims jwt now token = elim (jwt.parse now token) [
  | none ↦ none
  | some claims ↦ elim claims.exp [
    | none ↦ none
    | some exp ↦ if ltb (exp * second) now then none else some claims
  ]
]

-- Auth: the user that the header of a request authenticates, `none` for 401
unfoldable pub authenticate : Jwt → Instant → String → Option String
authenticate jwt now header = elim (trim_prefix header "Bearer ") [
  | none ↦ none
  | some token ↦ if len token == 0 then none else elim (unexpired_claims jwt now token) [
    | none ↦ none
    | some claims ↦ string_claim claims.sub
  ]
]

-- verifySessionToken: the user and the race of a token, `none` for an error
unfoldable pub verify_session_token : Jwt → Instant → String → Option (String × String)
verify_session_token jwt now token = elim (unexpired_claims jwt now token) [
  | none ↦ none
  | some claims ↦ elim (string_claim claims.user_id) [
    | none ↦ none
    | some user_id ↦ elim (string_claim claims.race_id) [
      | none ↦ none
      | some race_id ↦ some (user_id, race_id)
    ]
  ]
]
