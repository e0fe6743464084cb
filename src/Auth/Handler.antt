-- ===== src/Auth/Handler.antt =====
-- backend/internal/auth/handler.go with dtos.go: signing up and signing in over HTTP. A body is what
-- the request's JSON decodes to, `none` where Decode returns an error.
pub mod Hiding
use aviron.Base.{ℕ, String, Option, none, some}
use aviron.Base.Dict.{Dict}
use aviron.Room.State.{Instant}
use aviron.Auth.{
  User, AuthError, email_taken, invalid_credentials, Outcome, ok, err, Postgres, Users, Libraries,
  Registration, invalid, failed, registered, register, login,
}
use aviron.Auth.Tokens.{Jwt}

pub record RegisterRequest : Type 0 where
  pub email : String
  pub password : String
  pub display_name : String

pub record LoginRequest : Type 0 where
  pub email : String
  pub password : String

-- The body of a response with a status of success. A time stands for its text.
pub data Body : Type 0 where
  -- registerResponse: id, email, display_name
  register_response : String → String → String → Body
  -- loginResponse: token, expires_at
  login_response : String → Instant → Body

pub data Response : Type 0 where
  -- httpx.WriteError: a status and a code
  write_error : ℕ → String → Response
  -- a status, and an error for each field
  field_errors : ℕ → Dict String → Response
  -- httpx.WriteJSON of a result
  write_json : ℕ → Body → Response

-- The branches of Register after the service has returned.
unfoldable pub register_response_of : Registration → Response
register_response_of (invalid errs) = field_errors 400 errs
register_response_of (failed email_taken) = write_error 409 "email_taken"
register_response_of (failed _) = write_error 500 "internal_error"
register_response_of (registered u) = write_json 201 (register_response u.id u.email u.display_name)

-- AuthHandler.Register
unfoldable pub handle_register :
    Libraries → Postgres → Option RegisterRequest → Users → Response × Users
handle_register lib pg none users = (write_error 400 "invalid_body", users)
handle_register lib pg (some req) users =
    let (made, users') = register lib pg req.email req.password req.display_name users in
    (register_response_of made, users')

-- The branches of Login after the service has returned.
unfoldable pub login_response_of : Outcome (String × Instant) → Response
login_response_of (err invalid_credentials) = write_error 401 "invalid_credentials"
login_response_of (err _) = write_error 500 "internal_error"
login_response_of (ok (token, expires_at)) = write_json 200 (login_response token expires_at)

-- AuthHandler.Login
unfoldable pub handle_login :
    Libraries → Jwt → Postgres → Instant → Option LoginRequest → Users → Response
handle_login lib jwt pg now none users = write_error 400 "invalid_body"
handle_login lib jwt pg now (some req) users =
    login_response_of (login lib jwt pg now req.email req.password users)
