-- ===== src/Auth.antt =====
-- backend/internal/auth/service.go with user.go, and the repository of
-- backend/internal/postgres/auth_repository.go.
pub mod Tokens
pub mod SignIn
pub mod Handler
use Prim.Native.String.{len}
use aviron.Base.{
  ℕ, ◌+◌, ◌*◌, String, Bool, true, false, ◌||◌, not, Option, none, some, ltb, leb, if◌then◌else◌,
  ◌==◌,
}
use aviron.Base.Dict
use aviron.Base.Dict.{Dict}
use aviron.Room.State.{Instant, Error}
use Tokens.{Claims, Jwt, second, login_claims}

pub record User : Type 0 where
  pub id : String
  pub email : String
  pub display_name : String
  pub password_hash : String
  pub created_at : Instant

-- The errors of the package, and those of others with a message around them.
pub data AuthError : Type 0 where
  email_taken : AuthError
  user_not_found : AuthError
  invalid_credentials : AuthError
  wrapped : Error → AuthError

-- A value and a nil error, or an error.
pub data Outcome (A : Type 0) : Type 0 where
  ok : A → Outcome A
  err : AuthError → Outcome A

-- What the tables do not say: the server's clock, the ids that it makes, and the error that an
-- exchange ends in.
pub record Postgres : Type 0 where
  pub now : Instant
  pub gen_random_uuid : String
  pub fault : Option Error

-- The table `users`, by its unique column.
abbrev pub Users : Type 0
Users = Dict User

-- CreateUser
unfoldable pub create_user : Postgres → String → String → String → Users → Outcome User × Users
create_user pg email display_name password_hash users =
    let u : User = record {
      id = pg.gen_random_uuid;
      email = email;
      display_name = display_name;
      password_hash = password_hash;
      created_at = pg.now;
    } in
    elim pg.fault [
      | some e ↦ (err (wrapped e), users)
      | none ↦
          if Dict.has users email
          then (err email_taken, users)
          else (ok (record u { password_hash = "" }), Dict.store users email u)
    ]

-- GetUserByEmail
unfoldable pub get_user_by_email : Postgres → String → Users → Outcome User
get_user_by_email pg email users = elim pg.fault [
  | some e ↦ err (wrapped e)
  | none ↦ elim (Dict.get users email) [ none ↦ err user_not_found | some u ↦ ok u ]
]

-- The libraries behind the service.
pub record Libraries : Type 0 where
  -- whether mail.ParseAddress returns no error
  pub parse_address : String → Bool
  -- strings.ToLower, strings.TrimSpace
  pub to_lower : String → String
  pub trim_space : String → String
  -- bcrypt.GenerateFromPassword, and whether CompareHashAndPassword returns no error
  pub generate_from_password : String → Option String
  pub compare_hash_and_password : String → String → Bool

-- A message for a field, where it is wrong.
abbrev pub note_if : Bool → String → String → Dict String → Dict String
note_if wrong field message errs = if wrong then Dict.store errs field message else errs

-- validateRegister
unfoldable pub validate_register : Libraries → String → String → String → Dict String
validate_register lib email password display_name =
    note_if (leb (len (lib.trim_space display_name)) 0 || ltb 50 (len display_name)) "display_name"
      "must be 1-50 characters"
      (note_if (ltb (len password) 8) "password" "must be at least 8 characters"
        (note_if (not (lib.parse_address email)) "email" "invalid format" Dict.empty))

-- What Register returns.
pub data Registration : Type 0 where
  invalid : Dict String → Registration
  failed : AuthError → Registration
  registered : User → Registration

-- Register
unfoldable pub register :
    Libraries → Postgres → String → String → String → Users → Registration × Users
register lib pg email password display_name users =
    let errs = validate_register lib email password display_name in
    if ltb 0 (Dict.size errs)
    then (invalid errs, users)
    else elim (lib.generate_from_password password) [
      | none ↦ (failed (wrapped "hash password"), users)
      | some hash ↦
          let (made, users') = create_user pg (lib.to_lower email) display_name hash users in
          elim made [ err e ↦ (failed e, users') | ok u ↦ (registered u, users') ]
    ]

-- `s == ""`
abbrev pub is_empty : String → Bool
is_empty s = len s == 0

-- Login: the token and its expiry
unfoldable pub login :
    Libraries → Jwt → Postgres → Instant → String → String → Users → Outcome (String × Instant)
login lib jwt pg now email password users =
    if is_empty email || is_empty password
    then err invalid_credentials
    else elim (get_user_by_email pg (lib.to_lower email) users) [
      | err user_not_found ↦ err invalid_credentials
      | err e ↦ err e
      | ok u ↦
          if lib.compare_hash_and_password u.password_hash password
          then elim (jwt.sign (login_claims u.id u.email now)) [
            | none ↦ err (wrapped "sign token")
            | some token ↦ ok (token, now + 86400 * second)
          ]
          else err invalid_credentials
    ]
