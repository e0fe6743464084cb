-- ===== src/Race/Ids/Valid.antt =====
-- Generated ids match the pattern.
use Prim.Native.String.{[], ◌∷◌, char_at, count}
use Prim.Native.String.count as count_clauses
use aviron.Base.{
  ℕ, zero, suc, ◌+◌, ◌<◌, String, ◌≡◌, refl, subst, ap, ◌∙◌, Bool, true, ◌&&◌, arith, ◌==◌,
  Bool-cases, inl, inr,
}
use aviron.Race.Data.{Result, ok, OnSuccess, OnSuccess-map, succeeds, result_rule}
use aviron.Race.Ids.{
  base58_alphabet, race_id_length, draw_characters, generate_race_id, is_base58, all_base58,
  is_valid_race_id,
}

-- Whether a test holds of the numbers below one.
unfoldable all_below : (ℕ → Bool) → ℕ → Bool
all_below f zero = true
all_below f (suc n) = f n && all_below f n

all_below-at : (f : ℕ → Bool) (n i : ℕ) → all_below f n ≡ true → i < n → f i ≡ true
unfolding all_below
all_below-at f zero i h l = absurd (omega (arith, l))
all_below-at f (suc n) i h l = elim (Bool-cases (n == i)) [
  | inl e ↦ let same : n ≡ i = ground arith in subst (λ k. f k ≡ true) same (ground arith)
  | inr d ↦ all_below-at f n i (ground arith) (ground arith)
]

alphabet-is_base58 : all_below (λ n. is_base58 (char_at base58_alphabet n)) 58 ≡ true
unfolding all_below is_base58
alphabet-is_base58 = refl

module _ (draws : ℕ → Result ℕ) (in_range : (i n : ℕ) → draws i ≡ ok n → n < 58) where
  Drawn : ℕ → Result String → Type 0
  Drawn left = OnSuccess (λ s. (all_base58 s ≡ true) × (count s ≡ left))

  draw_characters-Drawn : (i left : ℕ) → Drawn left (draw_characters draws i left)
  unfolding draw_characters all_base58 Drawn
  draw_characters-Drawn i zero = (refl, count_clauses.nil)
  draw_characters-Drawn i (suc left) =
      result_rule (Drawn (suc left)) (draws i)
        (λ n h.
          result_rule (Drawn (suc left)) (draw_characters draws (i + 1) left)
            (λ s k.
              let kept =
                succeeds (λ s. (all_base58 s ≡ true) × (count s ≡ left)) _ s
                  (draw_characters-Drawn (i + 1) left) k in
              let good =
                all_below-at (λ n. is_base58 (char_at base58_alphabet n)) 58 n alphabet-is_base58
                  (in_range i n h) in
              (
                ground (arith, good, kept),
                count_clauses.cons (char_at base58_alphabet n) s ∙ ap suc kept.1,
              ))
            (λ _ _. tt))
        (λ _ _. tt)

  -- An id that is generated matches the pattern by which the handlers check ids.
  pub generate_race_id-valid : OnSuccess (λ id. is_valid_race_id id ≡ true) (generate_race_id draws)
  unfolding generate_race_id is_valid_race_id Drawn
  generate_race_id-valid =
      OnSuccess-map (λ s. (all_base58 s ≡ true) × (count s ≡ 12)) (λ id. is_valid_race_id id ≡ true)
        (λ s h. ground (arith, h)) (draw_characters draws 0 12) (draw_characters-Drawn 0 12)

  draw_characters-succeeds :
      ((i : ℕ) → (n : ℕ) × (draws i ≡ ok n))
      → (i left : ℕ) → (s : String) × (draw_characters draws i left ≡ ok s)
  unfolding draw_characters
  draw_characters-succeeds total i zero = ([], refl)
  draw_characters-succeeds total i (suc left) =
      let (n, h) = total i in
      let (s, k) = draw_characters-succeeds total (i + 1) left in
      (char_at base58_alphabet n ∷ s, ground (arith, h, k))

  -- When the source of randomness never fails, and draws below 58 as it is asked to, GenerateRaceID
  -- returns an id, and isValidRaceID accepts it.
  pub generate_race_id-returns :
      ((i : ℕ) → (n : ℕ) × (draws i ≡ ok n))
      → (id : String) × (generate_race_id draws ≡ ok id) × (is_valid_race_id id ≡ true)
  unfolding generate_race_id
  generate_race_id-returns total =
      let (id, h) = draw_characters-succeeds total 0 race_id_length in
      (id, h, succeeds (λ x. is_valid_race_id x ≡ true) _ id generate_race_id-valid h)
