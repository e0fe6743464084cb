-- ===== src/Gateway/Session/Evicted.antt =====
-- The handshake over the evicted set that the rooms write to Redis.
use aviron.Base.{String, ◌≡◌, ◌≢◌, inl, inr, Bool, true, false, Option, none, some, arith}
use aviron.Locator.{
  Answer, failure, answer, answer_rule, Redis, owner, is_evicted, mark_evicted, evicted_key,
}
use aviron.Locator.Claims.{RedisLaws}
use aviron.Gateway.Session.Frames.{serve_http_lem}
use aviron.Gateway.Session.{Checks, served, serve_http}

-- Whether Owner has found an instance.
abbrev found : Answer (Option String) → Answer Bool
found failure = failure
found (answer none) = answer false
found (answer (some instance_id)) = answer true

-- The checks of a handshake while Redis is in some state.
abbrev pub checks_over :
    {S : Type 0} → Redis S → S → (String → Option (String × String)) → Bool → Checks
checks_over redis s verify_session_token accepts = record {
  verify_session_token = verify_session_token;
  owner = λ race_id. found (owner redis race_id s);
  is_evicted = λ race_id user_id. is_evicted redis race_id user_id s;
  accepts = accepts;
}

module _ {S : Type 0} (redis : Redis S) (laws : RedisLaws redis) (race_id user_id : String) where
  marked :
      (s : S)
      → (mark_evicted redis race_id user_id s).0 ≡ true
      → laws.members (mark_evicted redis race_id user_id s).1 (evicted_key race_id) user_id ≡ true
  unfolding mark_evicted
  marked s =
      answer_rule P (redis.s_add (evicted_key race_id) user_id s).0 (λ _ h. ground arith)
        (λ u e _. laws.s_add-adds (evicted_key race_id) user_id s e)
    where
      P : Bool × S → Type 0
      P x = x.0 ≡ true → laws.members x.1 (evicted_key race_id) user_id ≡ true

  -- Once MarkEvicted has returned without an error, no handshake for that race serves that user,
  -- whatever their token and whatever Redis answers.
  pub evicted_is_refused :
      (s : S) (verify : String → Option (String × String)) (accepts : Bool) (token : String)
      → (mark_evicted redis race_id user_id s).0 ≡ true
      → serve_http
          (checks_over redis (mark_evicted redis race_id user_id s).1 verify accepts)
          race_id
          token
        ≢ served user_id
  unfolding is_evicted
  evicted_is_refused s verify accepts token h let_in =
      let s' = (mark_evicted redis race_id user_id s).1 in
      let (_, _, cleared, _) =
        (serve_http_lem (checks_over redis s' verify accepts) race_id token user_id).0 let_in in
      let member = marked s h in
      elim (laws.s_is_member-reads (evicted_key race_id) user_id s') [
        | inl failed ↦ ground (arith, cleared, failed)
        | inr read ↦ ground (arith, cleared, read, member)
      ]
