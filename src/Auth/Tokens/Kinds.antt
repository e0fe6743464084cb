-- ===== src/Auth/Tokens/Kinds.antt =====
-- The two kinds of token: each opens what it is for, and not the other.
use Prim.Native.String.{len, ◌++◌}
use aviron.Base.{
  ℕ, ◌+◌, ◌*◌, ◌/◌, ◌<◌, String, ◌≡◌, refl, sym, ap, ◌∙◌, subst, false, Option, none, some, arith,
  if_rule, match_rule, ltb, ◌==◌,
}
use aviron.Base.Strings.{trim_prefix-append}
use aviron.Room.State.{Instant}
use aviron.Auth.Tokens.{
  Claims, Jwt, second, login_claims, session_claims, sign_session_token, string_claim,
  unexpired_claims, authenticate, verify_session_token,
}

-- What the JWT library documents, for a token of some claims under the program's secret: signing with
-- a key of bytes never fails and its token is not empty; the token parses to its own claims only, and
-- does so until it expires.
pub record JwtLaws (jwt : Jwt) (c : Claims) : Type 0 where
  pub sign-total : (t : String) × (jwt.sign c ≡ some t) × ((len t == 0) ≡ false)
  pub parse-unexpired :
      (t : String) (exp : ℕ) (now : Instant)
      → jwt.sign c ≡ some t
      → c.exp ≡ some exp
      → now < exp * second
      → jwt.parse now t ≡ some c
  pub parse-own :
      (c' : Claims) (t : String) (now : Instant)
      → jwt.sign c ≡ some t
      → jwt.parse now t ≡ some c'
      → c' ≡ c

module _ (jwt : Jwt) (c : Claims) (laws : JwtLaws jwt c) (token : String)
    (signed : jwt.sign c ≡ some token) where
  -- The claims that a token is taken for are its own.
  unexpired_claims-own :
      (now : Instant) (c' : Claims) → unexpired_claims jwt now token ≡ some c' → c' ≡ c
  unfolding unexpired_claims
  unexpired_claims-own now c' =
      match_rule P (jwt.parse now token) (λ _ h. ground arith)
        (λ x parsed.
          match_rule P x.exp (λ _ h. ground arith)
            (λ exp _.
              if_rule P (ltb (exp * second) now) (λ _ h. ground arith)
                (λ _ h.
                  let same : x ≡ c' = ground arith in
                  sym same ∙ laws.parse-own x token now signed parsed)))
    where
      P : Option Claims → Type 0
      P y = y ≡ some c' → c' ≡ c

  unexpired_claims-fresh :
      (now : Instant) (exp : ℕ)
      → c.exp ≡ some exp
      → now < exp * second
      → unexpired_claims jwt now token ≡ some c
  unfolding unexpired_claims
  unexpired_claims-fresh now exp e h =
      ground (arith, laws.parse-unexpired token exp now signed e h, e)

  -- A header with the token asks for the user of the token's claims.
  authenticate-token :
      (now : Instant)
      → (len token == 0) ≡ false
      → authenticate jwt now ("Bearer " ++ token)
        ≡ (elim (unexpired_claims jwt now token) as (λ _. Option String) [
          | none ↦ none
          | some claims ↦ string_claim claims.sub
        ])
  unfolding authenticate
  authenticate-token now h = ground (arith, trim_prefix-append "Bearer " token, h)

  authenticates-nobody :
      (now : Instant)
      → (len token == 0) ≡ false
      → c.sub ≡ none
      → authenticate jwt now ("Bearer " ++ token) ≡ none
  authenticates-nobody now h no_sub =
      authenticate-token now h
      ∙ claims_of (unexpired_claims jwt now token) (unexpired_claims-own now)
    where
      claims_of :
          (o : Option Claims)
          → ((c' : Claims) → o ≡ some c' → c' ≡ c)
          → (elim o as (λ _. Option String) [ none ↦ none | some claims ↦ string_claim claims.sub ])
            ≡ none
      claims_of none own = refl
      claims_of (some x) own =
          ap (λ (y : Claims). string_claim y.sub) (own x refl) ∙ ap string_claim no_sub

  opens-no_room : (now : Instant) → c.user_id ≡ none → verify_session_token jwt now token ≡ none
  unfolding verify_session_token
  opens-no_room now no_user =
      match_rule (λ x. x ≡ none) (unexpired_claims jwt now token) (λ _. refl)
        (λ x h.
          let same = ap (λ (y : Claims). string_claim y.user_id) (unexpired_claims-own now x h) in
          ground (arith, same, no_user))

-- A login token opens no room, and a session token authenticates no request, at any time, although
-- both are signed with one secret.
pub tokens_do_not_mix :
    (jwt : Jwt) (user_id email race_id : String) (issued now : Instant)
    (laws : JwtLaws jwt (login_claims user_id email issued))
    (laws' : JwtLaws jwt (session_claims race_id user_id issued))
    (login_token session_token : String)
    → jwt.sign (login_claims user_id email issued) ≡ some login_token
    → sign_session_token jwt issued race_id user_id ≡ some session_token
    → (verify_session_token jwt now login_token ≡ none)
      × (authenticate jwt now ("Bearer " ++ session_token) ≡ none)
unfolding sign_session_token
tokens_do_not_mix jwt user_id email race_id issued now laws laws' login_token session_token l s =
    let (t, signed, some_text) = laws'.sign-total in
    let same : t ≡ session_token = ground (arith, s, signed) in
    (
      opens-no_room jwt (login_claims user_id email issued) laws login_token l now refl,
      authenticates-nobody jwt (session_claims race_id user_id issued) laws' session_token s now
          (subst (λ x. (len x == 0) ≡ false) same some_text) refl,
    )

-- A session token gives back the user and the race that it was signed for, until the second in which
-- it expires.
pub verify-sign_session_token :
    (jwt : Jwt) (user_id race_id : String) (issued now : Instant)
    (laws : JwtLaws jwt (session_claims race_id user_id issued)) (token : String)
    → sign_session_token jwt issued race_id user_id ≡ some token
    → (len user_id == 0) ≡ false
    → (len race_id == 0) ≡ false
    → now < (issued + 21600 * second) / second * second
    → verify_session_token jwt now token ≡ some (user_id, race_id)
unfolding sign_session_token verify_session_token
verify-sign_session_token jwt user_id race_id issued now laws token s u r h = ground (
  arith,
  u,
  r,
  unexpired_claims-fresh jwt (session_claims race_id user_id issued) laws token s now _ refl h,
)

-- A login token authenticates its user until the second in which it expires.
pub login_token_authenticates :
    (jwt : Jwt) (user_id email : String) (issued now : Instant)
    (laws : JwtLaws jwt (login_claims user_id email issued)) (token : String)
    → jwt.sign (login_claims user_id email issued) ≡ some token
    → (len token == 0) ≡ false
    → (len user_id == 0) ≡ false
    → now < (issued + 86400 * second) / second * second
    → authenticate jwt now ("Bearer " ++ token) ≡ some user_id
login_token_authenticates jwt user_id email issued now laws token s t u h =
    authenticate-token jwt (login_claims user_id email issued) laws token s now t
    ∙ ground (
      arith,
      u,
      unexpired_claims-fresh jwt (login_claims user_id email issued) laws token s now _ refl h,
    )
