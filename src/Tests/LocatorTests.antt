-- ===== src/Tests/LocatorTests.antt =====
-- The locator over a Redis in memory, backend/internal/roomlocator/locator.go.
use text.Mathlib.Text.{◌==◌ as ◌is_same◌}
use text.Mathlib.TextEquality.{eq_iff}
use aviron.Base.{
  ℕ, String, ◌≡◌, ◌≢◌, ◌⊎◌, inr, refl, Bool, true, false, ◌&&◌, List, [], ◌∷◌, none, some, arith,
  if_rule, ◌∙◌, if◌then◌else◌,
}
use aviron.Base.Dict
use aviron.Base.Dict.{Dict}
use aviron.Locator.{
  Answer, failure, answer, Redis, Locator, claim, owner, publish, refresh, mark_evicted,
}
use aviron.Locator.Claims.{RedisLaws, claim_is_exclusive, lapsed_claim_stays_lost, heartbeat}
use aviron.Gateway.Session.{serve_http, served}
use aviron.Gateway.Session.Evicted.{checks_over, evicted_is_refused}

-- The strings and the sets of a server that never fails; keys do not lapse.
record Store : Type 0 where
  strings : Dict String
  sets : List (String × String)

abbrev is_in : String → String → List (String × String) → Bool
is_in k x [] = false
is_in k x (e ∷ es) = if e.0 is_same k && e.1 is_same x then true else is_in k x es

abbrev in_memory : Redis Store
in_memory = record {
  set_nx = λ k v ttl s.
      if Dict.has s.strings k
      then (answer false, s)
      else (answer true, record s { strings = Dict.store s.strings k v });
  expire = λ k ttl s. (answer (Dict.has s.strings k), s);
  del = λ k s. (answer tt, record s { strings = Dict.delete s.strings k });
  get = λ k s. answer (Dict.get s.strings k);
  s_add = λ k x s. (answer tt, record s { sets = (k, x) ∷ s.sets });
  s_is_member = λ k x s. answer (is_in k x s.sets);
  publish = λ c p s. (answer tt, s);
}

set_nx-sets :
    (k v : String) (ttl : ℕ) (s : Store)
    → (in_memory.set_nx k v ttl s).0 ≡ answer true
    → (Dict.get s.strings k ≡ none) × (Dict.get (in_memory.set_nx k v ttl s).1.strings k ≡ some v)
unfolding Dict.has
set_nx-sets k v ttl s =
    if_rule P (Dict.has s.strings k) (λ _ h. ground arith)
      (λ n _. (ground arith, Dict.get-store s.strings k k v ∙ ground (arith, eq_iff k k)))
  where
    P : Answer Bool × Store → Type 0
    P x = x.0 ≡ answer true → (Dict.get s.strings k ≡ none) × (Dict.get x.1.strings k ≡ some v)

expire-missing :
    (k : String) (s : Store)
    → Dict.get s.strings k ≡ none
    → answer (Dict.has s.strings k) ≡ answer false
unfolding Dict.has
expire-missing k s h = ground (arith, h)

is_in-added : (k x : String) (es : List (String × String)) → is_in k x ((k, x) ∷ es) ≡ true
is_in-added k x es = ground (arith, eq_iff k k, eq_iff x x)

abbrev laws : RedisLaws in_memory
laws = record {
  holds = λ s k. Dict.get s.strings k;
  members = λ s k x. is_in k x s.sets;
  get-reads = λ k s. inr refl;
  set_nx-sets = set_nx-sets;
  expire-missing = λ k ttl s h. (inr (expire-missing k s h), h);
  publish-keeps = λ c p s k. refl;
  s_add-adds = λ k x s h. is_in-added k x s.sets;
  s_is_member-reads = λ k x s. inr refl;
}

abbrev instance_one : Locator
instance_one = record { instance_id = "one:8080"; marshal = λ ev. some []; unmarshal = λ p. none }

abbrev instance_two : Locator
instance_two = record instance_one { instance_id = "two:8080" }

abbrev blank : Store
blank = record { strings = Dict.empty; sets = [] }

claim_is_exclusive_example :
    let s' = (claim in_memory instance_one "r1" blank).1 in
    ((owner in_memory "r1" s' ≡ failure) ⊎ (owner in_memory "r1" s' ≡ answer (some "one:8080")))
    × ((claim in_memory instance_two "r1" s').0.claimed ≡ false)
unfolding claim publish Dict.has Dict.get Dict.empty
claim_is_exclusive_example =
    claim_is_exclusive in_memory laws "r1" instance_one instance_two blank refl

lapsed_claim_stays_lost_example :
    let s' = heartbeat in_memory instance_one "r1" ((λ s. s) ∷ (λ s. s) ∷ []) blank in
    ((refresh in_memory instance_one "r1" s').0 ≡ false)
    × ((owner in_memory "r1" s' ≡ failure) ⊎ (owner in_memory "r1" s' ≡ answer none))
unfolding Dict.get Dict.empty
lapsed_claim_stays_lost_example =
    lapsed_claim_stays_lost in_memory laws "r1" instance_one ((λ s. s) ∷ (λ s. s) ∷ []) blank
      ((λ s h. h), ((λ s h. h), tt)) refl

evicted_is_refused_example :
    serve_http
      (checks_over in_memory
        (mark_evicted in_memory "r1" "ann" blank).1
        (λ t. some ("ann", "r1"))
        true)
      "r1"
      "token"
    ≢ served "ann"
unfolding mark_evicted
evicted_is_refused_example =
    evicted_is_refused in_memory laws "r1" "ann" blank (λ t. some ("ann", "r1")) true "token" refl
