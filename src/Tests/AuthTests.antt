-- ===== src/Tests/AuthTests.antt =====
-- Sign-up, sign-in and tokens, backend/internal/auth.
use Prim.Native.String.{◌++◌}
use text.Mathlib.Text.{◌==◌ as ◌is_same◌}
use text.Mathlib.TextEquality.{eq_iff}
use aviron.Base.{
  ℕ, ◌*◌, ◌<◌, String, ◌≡◌, refl, sym, ap, ◌∙◌, subst, true, Option, none, some, arith, ltb,
  if_rule, if◌then◌else◌,
}
use aviron.Base.Dict
use aviron.Room.State.{Instant}
use aviron.Auth.Tokens.{
  Claims, Jwt, second, login_claims, session_claims, sign_session_token, authenticate,
  verify_session_token,
}
use aviron.Auth.Tokens.Kinds.{JwtLaws, tokens_do_not_mix}
use aviron.Auth.{
  User, Postgres, Users, Libraries, register, create_user, validate_register, login, ok,
}
use aviron.Auth.Handler.{LoginRequest, handle_login}
use aviron.Auth.Handler.Hiding.{TellsNothing, login_hides_users}
use aviron.Auth.SignIn.{registered_user_signs_in}

-- The claims of the tests, issued at 0, with an id of "u1".
abbrev logged_in : Claims
logged_in = login_claims "u1" "ann@x.org" 0

abbrev in_race : Claims
in_race = session_claims "r1" "u1" 0

-- A library for these claims: the token is one of two words.
abbrev parse_word : Instant → String → Option Claims
parse_word now t =
    if t is_same "login"
    then (if ltb now (86400 * second) then some logged_in else none)
    else if ltb now (21600 * second)
    then some in_race
    else none

abbrev two_words : Jwt
two_words = record {
  sign = λ c. elim c.sub [ none ↦ some "session" | some id ↦ some "login" ];
  parse = parse_word;
}

-- A word stands for claims: it parses to them until they expire.
module _ (c : Claims) (word : String) (limit : ℕ) (h : two_words.sign c ≡ some word)
    (until : c.exp ≡ some limit)
    (parses : (now : Instant)
      → parse_word now word ≡ (if ltb now (limit * second) then some c else none)) where
  word-parses :
      (t : String) (exp : ℕ) (now : Instant)
      → two_words.sign c ≡ some t
      → c.exp ≡ some exp
      → now < exp * second
      → parse_word now t ≡ some c
  word-parses t exp now k e l =
      let same : word ≡ t = ground (arith, h, k) in
      let due : limit ≡ exp = ground (arith, until, e) in
      subst (λ x. parse_word now x ≡ some c) same (parses now ∙ ground (arith, due, l))

  word-own :
      (c' : Claims) (t : String) (now : Instant)
      → two_words.sign c ≡ some t
      → parse_word now t ≡ some c'
      → c' ≡ c
  word-own c' t now k p =
      let same : word ≡ t = ground (arith, h, k) in
      if_rule (λ (x : Option Claims). x ≡ some c' → c' ≡ c) (ltb now (limit * second))
        (λ _ e. ground arith) (λ _ e. ground arith)
        (sym (parses now) ∙ ap (parse_word now) same ∙ p)

abbrev login_laws : JwtLaws two_words logged_in
login_laws = record {
  sign-total = ("login", refl, refl);
  parse-unexpired = word-parses logged_in "login" 86400 refl refl (λ now. refl);
  parse-own = word-own logged_in "login" 86400 refl refl (λ now. refl);
}

abbrev session_laws : JwtLaws two_words in_race
session_laws = record {
  sign-total = ("session", refl, refl);
  parse-unexpired = word-parses in_race "session" 21600 refl refl (λ now. refl);
  parse-own = word-own in_race "session" 21600 refl refl (λ now. refl);
}

tokens_do_not_mix_example :
    (verify_session_token two_words 7 "login" ≡ none)
    × (authenticate two_words 7 "Bearer session" ≡ none)
unfolding sign_session_token
tokens_do_not_mix_example =
    tokens_do_not_mix two_words "u1" "ann@x.org" "r1" 0 7 login_laws session_laws "login" "session"
      refl refl

-- A bcrypt that keeps the password as it is.
abbrev plain : Libraries
plain = record {
  parse_address = λ s. true;
  to_lower = λ s. if s is_same "Ann@x.org" then "ann@x.org" else s;
  trim_space = λ s. s;
  generate_from_password = λ p. some p;
  compare_hash_and_password = λ hash p. hash is_same p;
}

plain-compares :
    (password hash : String)
    → plain.generate_from_password password ≡ some hash
    → plain.compare_hash_and_password hash password ≡ true
plain-compares password hash h = ground (arith, eq_iff hash password)

abbrev steady : Postgres
steady = record { now = 0; gen_random_uuid = "u1"; fault = none }

abbrev ann : User
ann = record {
  id = "u1";
  email = "ann@x.org";
  display_name = "Ann";
  password_hash = "";
  created_at = 0;
}

abbrev signed_up : Users
signed_up = (register plain steady "Ann@x.org" "correct horse" "Ann" Dict.empty).1

registered_user_signs_in_example :
    (token : String) × (login plain two_words steady 0 "ann@x.org" "correct horse" signed_up
      ≡ ok (token, 86400 * second))
    × (authenticate two_words 7 ("Bearer " ++ token) ≡ some "u1")
unfolding register create_user validate_register Dict.has Dict.get Dict.store Dict.empty Dict.size
registered_user_signs_in_example =
    registered_user_signs_in plain two_words plain-compares steady "Ann@x.org" "correct horse" "Ann"
      Dict.empty signed_up ann refl steady "ann@x.org" 0 7 login_laws refl refl refl refl
      (omega arith)

-- Every claim is signed.
abbrev one_word : Jwt
one_word = record { sign = λ c. some "token"; parse = λ now t. none }

abbrev guess : LoginRequest
guess = record { email = "ann@x.org"; password = "wrong horse" }

login_hides_users_example :
    TellsNothing plain one_word steady 0
      (λ c. ("token", refl))
      refl
      (some guess)
      (handle_login plain one_word steady 0 (some guess) signed_up)
login_hides_users_example =
    login_hides_users plain one_word steady 0 (λ c. ("token", refl)) refl (some guess) signed_up
