-- ===== src/Base/Strings.antt =====
-- Go's strings, character by character.
use Prim.Native.Char.{Char, code}
use Prim.Native.Nat.{ℕ, zero, suc, ◌+◌, ◌/◌, ◌%◌, ◌^◌, ◌<◌}
use Prim.Native.String.append
use Prim.Native.String.{String, [], ◌∷◌, ◌++◌}
use mathlib.Core.Path.{◌≡◌, refl, sym, ap, ◌∙◌, subst}
use mathlib.Core.Bool.{Bool, true, false}
use mathlib.Core.List.{List, [], ◌∷◌}
use mathlib.Core.Option.{Option, none, some}
use native.Mathlib.Omega.{arith}
use aviron.Base.Lists.{All}
use aviron.Base.Tests.{◌==◌, ltb, if◌then◌else◌}

-- strings.HasPrefix with strings.TrimPrefix: what follows a prefix, `none` where it is none
unfoldable pub trim_prefix : String → String → Option String
trim_prefix s [] = some s
trim_prefix [] (p ∷ ps) = none
trim_prefix (c ∷ s) (p ∷ ps) =
    let rest = trim_prefix s ps in if code c == code p then rest else none

pub trim_prefix-append : (p s : String) → trim_prefix (p ++ s) p ≡ some s
unfolding trim_prefix
trim_prefix-append [] s = subst (λ x. trim_prefix x [] ≡ some s) (sym (append.nil s)) refl
trim_prefix-append (c ∷ p) s =
    subst (λ x. trim_prefix x (c ∷ p) ≡ some s) (sym (append.cons c p s))
      (ground (arith, trim_prefix-append p s))

-- strconv's decimal digits, for numbers of at most so many digits
abbrev digit : ℕ → String
digit n =
    if n == 0
    then "0"
    else if n == 1
    then "1"
    else if n == 2
    then "2"
    else if n == 3
    then "3"
    else if n == 4
    then "4"
    else if n == 5
    then "5"
    else if n == 6
    then "6"
    else if n == 7
    then "7"
    else if n == 8
    then "8"
    else "9"

unfoldable pub decimal_within : ℕ → ℕ → String
decimal_within zero n = ""
decimal_within (suc size) n =
    let front = decimal_within size (n / 10) in
    if ltb n 10 then digit n else front ++ digit (n % 10)

-- %d of an int32 that is not negative
abbrev pub decimal : ℕ → String
decimal n = decimal_within 10 n

-- With more digits to spend than a number has, its text is the same.
pub decimal_within-enough :
    (size more n : ℕ)
    → n < 10 ^ size
    → decimal_within (suc (size + more)) n ≡ decimal_within (suc size) n
unfolding decimal_within
decimal_within-enough zero more n h = ground (arith, h)
decimal_within-enough (suc size) more n h =
    let one_more : suc size + more ≡ suc (size + more) = omega arith in
    ap (λ front. if ltb n 10 then digit n else front ++ digit (n % 10))
      (ap (λ k. decimal_within k (n / 10)) one_more
        ∙ decimal_within-enough size more (n / 10) (omega (arith, h)))

-- strings.Split at a character, given by its code
unfoldable pub split : ℕ → String → List String
split sep [] = "" ∷ []
split sep (c ∷ s) =
    let parts = split sep s in
    if code c == sep
    then "" ∷ parts
    else elim parts [ [] ↦ (c ∷ "") ∷ [] | part ∷ rest ↦ (c ∷ part) ∷ rest ]

-- strings.Join with a character
unfoldable pub join : Char → List String → String
join sep [] = ""
join sep (w ∷ []) = w
join sep (w ∷ (v ∷ ws)) = w ++ (sep ∷ join sep (v ∷ ws))

unfoldable pub lacks : ℕ → String → Bool
lacks sep [] = true
lacks sep (c ∷ s) = let rest = lacks sep s in if code c == sep then false else rest

lacks_rest : (sep : ℕ) (c : Char) (s : String) → lacks sep (c ∷ s) ≡ true → lacks sep s ≡ true
unfolding lacks
lacks_rest sep c s h = ground (arith, h)

split_whole : (sep : ℕ) (w : String) → lacks sep w ≡ true → split sep w ≡ w ∷ []
unfolding split lacks
split_whole sep [] h = refl
split_whole sep (c ∷ w) h = ground (arith, h, split_whole sep w (lacks_rest sep c w h))

split-append :
    (sep : ℕ) (c : Char) (w s : String)
    → lacks sep w ≡ true
    → code c ≡ sep
    → split sep (w ++ (c ∷ s)) ≡ w ∷ split sep s
unfolding split lacks
split-append sep c [] s h e =
    subst (λ x. split sep x ≡ "" ∷ split sep s) (sym (append.nil (c ∷ s))) (ground (arith, e))
split-append sep c (d ∷ w) s h e =
    subst (λ x. split sep x ≡ (d ∷ w) ∷ split sep s) (sym (append.cons d w (c ∷ s)))
      (ground (arith, h, split-append sep c w s (lacks_rest sep d w h) e))

-- Words that lack the separator come apart as they were joined.
pub split-join :
    (sep : ℕ) (c : Char) (w : String) (ws : List String)
    → code c ≡ sep
    → All (λ v. lacks sep v ≡ true) (w ∷ ws)
    → split sep (join c (w ∷ ws)) ≡ w ∷ ws
unfolding join
split-join sep c w [] e h = split_whole sep w (h.0)
split-join sep c w (v ∷ ws) e h =
    split-append sep c w (join c (v ∷ ws)) (h.0) e
    ∙ ap (λ xs. w ∷ xs) (split-join sep c v ws e (h.1))
