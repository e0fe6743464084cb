-- ===== src/Auth/Handler/Hiding.antt =====
-- What an attempt to sign in tells about who is registered.
use aviron.Base.{
  ◌+◌, ◌*◌, true, false, String, ◌≡◌, refl, sym, ap, ◌∙◌, ◌⊎◌, inl, inr, Bool, ◌||◌, Option, none,
  some, arith,
}
use aviron.Base.Dict
use aviron.Base.Dict.{Dict}
use aviron.Room.State.{Instant}
use aviron.Auth.{
  User, Outcome, ok, err, invalid_credentials, Postgres, Users, Libraries, get_user_by_email, login,
  is_empty,
}
use aviron.Auth.Tokens.{Claims, Jwt, second, login_claims}
use aviron.Auth.Handler.{LoginRequest, Body, Response, write_json, handle_login, login_response_of}

module _ (lib : Libraries) (jwt : Jwt) (pg : Postgres) (now : Instant)
    (signs : (claims : Claims) → (token : String) × (jwt.sign claims ≡ some token))
    (answers : pg.fault ≡ none) where
  -- A response of 200, or one that is as if nobody were registered.
  abbrev pub TellsNothing : Option LoginRequest → Response → Type 0
  TellsNothing body x =
      ((token : Body) × (x ≡ write_json 200 token))
      ⊎ (x ≡ handle_login lib jwt pg now body Dict.empty)

  -- What `login` comes to when someone is found, or nobody.
  login_nobody :
      (email password : String)
      → login lib jwt pg now email password Dict.empty ≡ err invalid_credentials
  unfolding login get_user_by_email Dict.empty Dict.get
  login_nobody email password = ground (arith, answers)

  -- The two ends of an attempt.
  Ends : Outcome (String × Instant) → Type 0
  Ends x = ((granted : String × Instant) × (x ≡ ok granted)) ⊎ (x ≡ err invalid_credentials)

  login-Ends :
      (email password : String) (users : Users) → Ends (login lib jwt pg now email password users)
  unfolding login get_user_by_email Ends
  login-Ends email password users = by_user (Dict.get users (lib.to_lower email)) refl
    where
      by_tests :
          (u : User)
          → Dict.get users (lib.to_lower email) ≡ some u
          → (empty matches : Bool) → (is_empty email || is_empty password) ≡ empty
          → lib.compare_hash_and_password u.password_hash password ≡ matches
          → Ends (login lib jwt pg now email password users)
      by_tests u h true matches e m = inr (ground (arith, e))
      by_tests u h false false e m = inr (ground (arith, answers, h, e, m))
      by_tests u h false true e m =
          let (token, signed) = signs (login_claims u.id u.email now) in
          inl ((token, now + 86400 * second), ground (arith, answers, h, e, m, signed))

      by_user :
          (o : Option User)
          → Dict.get users (lib.to_lower email) ≡ o
          → Ends (login lib jwt pg now email password users)
      by_user none h = inr (ground (arith, answers, h))
      by_user (some u) h = by_tests u h _ _ refl refl

  -- Where Postgres answers and tokens can be signed, an attempt to log in that does not succeed is
  -- answered exactly as it would be if nobody were registered.
  pub login_hides_users :
      (body : Option LoginRequest) (users : Users)
      → TellsNothing body (handle_login lib jwt pg now body users)
  unfolding handle_login login_response_of Ends
  login_hides_users none users = inr refl
  login_hides_users (some req) users = elim (login-Ends req.email req.password users) [
    | inl (granted, e) ↦ inl (_, ap login_response_of e)
    | inr e ↦ inr (ap login_response_of (e ∙ sym (login_nobody req.email req.password)))
  ]
