-- ===== src/Auth/SignIn.antt =====
-- From sign-up to an authenticated request.
use Prim.Native.String.{len, ◌++◌}
use text.Mathlib.TextEquality.{eq_iff}
use aviron.Base.{
  ◌+◌, ◌*◌, ◌/◌, ◌<◌, String, ◌≡◌, refl, ap, ◌∙◌, subst, Bool, true, false, not, ◌||◌, none, some,
  length, arith, if_rule, match_rule, ltb, leb,
}
use aviron.Base.Dict
use aviron.Base.Dict.{Dict}
use aviron.Room.State.{Instant}
use aviron.Auth.Tokens.{Jwt, second, login_claims, authenticate}
use aviron.Auth.Tokens.Kinds.{JwtLaws, login_token_authenticates}
use aviron.Auth.{
  User, Outcome, ok, err, Postgres, Users, create_user, get_user_by_email, Libraries, note_if,
  validate_register, Registration, failed, registered, register, is_empty, login,
}

module _ (lib : Libraries) (pg : Postgres) (email password display_name : String)
    (users : Users) where
  -- What a user who was registered leaves in the tables.
  Registers : Registration × Users → Type 0
  Registers (registered u, users') =
      (is_empty password ≡ false)
      × ((hash : String) × (lib.generate_from_password password ≡ some hash)
          × (Dict.get users' (lib.to_lower email) ≡ some (record u { password_hash = hash })))
  Registers (_, users') = Unit

  size-note_if :
      (wrong : Bool) (field message : String) (errs : Dict String)
      → ltb 0 (Dict.size (note_if wrong field message errs)) ≡ false
      → (wrong ≡ false) × (ltb 0 (Dict.size errs) ≡ false)
  unfolding Dict.size
  size-note_if true field message errs h =
      ground (arith, h, ap length (Dict.values-store errs field message))
  size-note_if false field message errs h = (refl, h)

  password-not_empty :
      ltb 0 (Dict.size (validate_register lib email password display_name)) ≡ false
      → is_empty password ≡ false
  unfolding validate_register
  password-not_empty h =
      let named = leb (len (lib.trim_space display_name)) 0 || ltb 50 (len display_name) in
      let addressed = note_if (not (lib.parse_address email)) "email" "invalid format" Dict.empty in
      let short = ltb (len password) 8 in
      let checked = note_if short "password" "must be at least 8 characters" addressed in
      let (_, rest) = size-note_if named "display_name" "must be 1-50 characters" checked h in
      let (long, _) =
        size-note_if short "password" "must be at least 8 characters" addressed rest in
      ground (arith, long)

  -- The row of a user who was created.
  Creates : String → Outcome User × Users → Type 0
  Creates hash (ok u, users') =
      Dict.get users' (lib.to_lower email) ≡ some (record u { password_hash = hash })
  Creates hash (err e, users') = Unit

  create_user-Creates :
      (hash : String) → Creates hash (create_user pg (lib.to_lower email) display_name hash users)
  unfolding create_user Creates
  create_user-Creates hash =
      let key = lib.to_lower email in
      match_rule (Creates hash) pg.fault
        (λ _.
          if_rule (Creates hash) (Dict.has users key) (λ _. tt)
            (λ _. Dict.get-store users key key _ ∙ ground (arith, eq_iff key key)))
        (λ _ _. tt)

  register-Registers : Registers (register lib pg email password display_name users)
  unfolding register Registers Creates
  register-Registers =
      if_rule Registers (ltb 0 (Dict.size (validate_register lib email password display_name)))
        (λ _. tt)
        (λ fine.
          match_rule Registers (lib.generate_from_password password) (λ _. tt)
            (λ hash h.
              ends (password-not_empty fine) hash h
                (create_user pg (lib.to_lower email) display_name hash users)
                (create_user-Creates hash)))
    where
      ends :
          is_empty password ≡ false
          → (hash : String) → lib.generate_from_password password ≡ some hash
          → (x : Outcome User × Users) → Creates hash x
          → Registers (elim x.0 as (λ _. Registration × Users) [
            | err e ↦ (failed e, x.1)
            | ok u ↦ (registered u, x.1)
          ])
      ends long hash h (err e, users') row = tt
      ends long hash h (ok u, users') row = (long, (hash, h, row))

-- Whoever was registered can log in, with the same password and an email that differs at most in its
-- case, on a Postgres that answers. The token that they get authenticates their requests, as the
-- registered user, until the second in which it expires. What bcrypt hashes, it compares.
pub registered_user_signs_in :
    (lib : Libraries) (jwt : Jwt)
    (compares : (password hash : String)
      → lib.generate_from_password password ≡ some hash
      → lib.compare_hash_and_password hash password ≡ true)
    (pg : Postgres) (email password display_name : String) (users users' : Users) (u : User)
    → register lib pg email password display_name users ≡ (registered u, users')
    → (pg' : Postgres) (email' : String) (now now' : Instant)
    → JwtLaws jwt (login_claims u.id u.email now)
    → pg'.fault ≡ none
    → is_empty email' ≡ false
    → is_empty u.id ≡ false
    → lib.to_lower email' ≡ lib.to_lower email
    → now' < (now + 86400 * second) / second * second
    → (token : String) × (login lib jwt pg' now email' password users'
        ≡ ok (token, now + 86400 * second))
      × (authenticate jwt now' ("Bearer " ++ token) ≡ some u.id)
unfolding login get_user_by_email Registers
registered_user_signs_in lib jwt compares pg email password display_name users users' u h pg' email'
      now now' laws up given named same fresh =
    let (long, (hash, made, row)) =
      subst (Registers lib pg email password display_name users) h
        (register-Registers lib pg email password display_name users) in
    let (token, signed, some_text) = laws.sign-total in
    let found : Dict.get users' (lib.to_lower email') ≡ some (record u { password_hash = hash }) =
      ap (Dict.get users') same ∙ row in
    (
      token,
      ground (arith, up, given, long, found, compares password hash made, signed),
      login_token_authenticates jwt u.id u.email now now' laws token signed some_text named fresh,
    )
