-- ===== src/Gateway/Routing/Balance.antt =====
-- How nextBackend spreads the requests that belong to no room over a pool.
use native.Mathlib.Nat.{suc-mod, mod-eq_of_lt, mod_self, mod-lt}
use aviron.Base.{
  ℕ, zero, suc, ◌+◌, ◌-◌, ◌%◌, ◌^◌, ◌≤◌, ◌<◌, String, ◌≡◌, refl, ap, ◌∙◌, Bool, List, [], ◌∷◌,
  Option, some, length, arith, count_if, ◌==◌, if_rule, if◌then◌else◌,
}
use aviron.Gateway.Routing.{Router, succ_uint64, pick, next_backend, backend_at}

-- The addresses of so many calls in a row.
unfoldable pub draws : List String → ℕ → Router → List (Option String)
draws bs zero gw = []
draws bs (suc n) gw = let (address, gw') = next_backend bs gw in address ∷ draws bs n gw'

-- The next position in a ring.
abbrev wrap : ℕ → ℕ → ℕ
wrap size r = if suc r == size then 0 else suc r

-- What stands at so many positions from one on: in a row, and around the ring.
unfoldable row : List String → ℕ → ℕ → List (Option String)
row bs r zero = []
row bs r (suc n) = backend_at bs r ∷ row bs (suc r) n

unfoldable ring : List String → ℕ → ℕ → List (Option String)
ring bs r zero = []
ring bs r (suc n) = backend_at bs r ∷ ring bs (wrap (length bs) r) n

suc-mod_wrap : (k size : ℕ) → 0 < size → suc k % size ≡ wrap size (k % size)
suc-mod_wrap k size p =
    if_rule (λ x. suc k % size ≡ x) (suc (k % size) == size)
      (λ h.
        let end : suc (k % size) ≡ size = ground arith in
        suc-mod k size ∙ ap (λ x. x % size) end ∙ mod_self size)
      (λ h. suc-mod k size ∙ mod-eq_of_lt (ground (arith, mod-lt k p)))

pick_counter : (k size : ℕ) → k < 2 ^ 64 → pick (succ_uint64 k) size ≡ k % size
pick_counter k size h = ap (λ x. x % size) (omega arith)

next_backend_lem :
    (bs : List String) (gw : Router)
    → 0 < length bs
    → gw.next < 2 ^ 64
    → next_backend bs gw
      ≡ (backend_at bs (gw.next % length bs), record gw { next = succ_uint64 gw.next })
unfolding next_backend
next_backend_lem bs gw p h =
    if_rule
      (λ x. x ≡ (backend_at bs (gw.next % length bs), record gw { next = succ_uint64 gw.next }))
      (length bs == 0) (λ e. ground arith)
      (λ e.
        ap (λ i. (backend_at bs i, record gw { next = succ_uint64 gw.next }))
          (pick_counter gw.next (length bs) h))

draws-ring :
    (bs : List String) (n : ℕ) (gw : Router)
    → 0 < length bs
    → gw.next + n < 2 ^ 64
    → draws bs n gw ≡ ring bs (gw.next % length bs) n
unfolding draws ring next_backend
draws-ring bs zero gw p h = refl
draws-ring bs (suc n) gw p h =
    let k = gw.next in
    let gw' : Router = record gw { next = succ_uint64 k } in
    let counted : succ_uint64 k ≡ suc k = omega arith in
    let rest = draws-ring bs n gw' p (omega (arith, counted)) in
    let moved : succ_uint64 k % length bs ≡ wrap (length bs) (k % length bs) =
      ap (λ x. x % length bs) counted ∙ suc-mod_wrap k (length bs) p in
    let first = next_backend_lem bs gw p (omega (arith, h)) in
    ap (λ x. x.0 ∷ draws bs n x.1) first
    ∙ ap (λ ds. backend_at bs (k % length bs) ∷ ds) (rest ∙ ap (λ i. ring bs i n) moved)

module _ (f : Option String → Bool) where
  -- So many positions up to the end of the ring, and the others from its start.
  ring-splits :
      (bs : List String) (r n n' total : ℕ)
      → r + suc n ≡ length bs
      → total ≡ suc n + n'
      → count_if f (ring bs r total) ≡ count_if f (row bs r (suc n)) + count_if f (ring bs 0 n')
  unfolding ring row
  ring-splits bs r n n' zero e h = ground arith
  ring-splits bs r zero n' (suc total) e h =
      let same : total ≡ n' = omega (arith, h) in
      ground (arith, ap (λ k. count_if f (ring bs 0 k)) same)
  ring-splits bs r (suc n) n' (suc total) e h =
      ground (arith, e, ring-splits bs (suc r) n n' total (omega (arith, e)) (omega (arith, h)))

  ring-row :
      (bs : List String) (r n : ℕ)
      → r + n ≤ length bs
      → count_if f (ring bs r n) ≡ count_if f (row bs r n)
  unfolding ring row
  ring-row bs r zero h = refl
  ring-row bs r (suc zero) h = ground arith
  ring-row bs r (suc (suc n)) h = ground (arith, h, ring-row bs (suc r) (suc n) (omega (arith, h)))

  row-add :
      (bs : List String) (r n n' total : ℕ)
      → total ≡ n + n'
      → count_if f (row bs r total) ≡ count_if f (row bs r n) + count_if f (row bs (r + n) n')
  unfolding row
  row-add bs r zero n' total h =
      let same : total ≡ n' = omega (arith, h) in
      let here : r + 0 ≡ r = omega arith in
      ground
        (arith, ap (λ k. count_if f (row bs r k)) same, ap (λ i. count_if f (row bs i n')) here)
  row-add bs r (suc n) n' zero h = ground arith
  row-add bs r (suc n) n' (suc total) h =
      let here : r + suc n ≡ suc r + n = omega arith in
      ground (
        arith,
        row-add bs (suc r) n n' total (omega (arith, h)),
        ap (λ i. count_if f (row bs i n')) here,
      )

  row-cons :
      (b : String) (bs : List String) (r n : ℕ)
      → count_if f (row (b ∷ bs) (suc r) n) ≡ count_if f (row bs r n)
  unfolding row backend_at
  row-cons b bs r zero = refl
  row-cons b bs r (suc n) = ground (arith, row-cons b bs (suc r) n)

  row_all : (bs : List String) → count_if f (row bs 0 (length bs)) ≡ count_if (λ b. f (some b)) bs
  unfolding row backend_at
  row_all [] = refl
  row_all (b ∷ bs) = ground (arith, row-cons b bs 0 (length bs), row_all bs)

  -- Around the ring once, from anywhere.
  ring_all :
      (bs : List String) (r n : ℕ)
      → r + suc n ≡ length bs
      → count_if f (ring bs r (length bs)) ≡ count_if (λ b. f (some b)) bs
  ring_all bs r n e =
      let here : 0 + r ≡ r = omega arith in
      omega (
        arith,
        ring-splits bs r n r (length bs) e (omega (arith, e)),
        ring-row bs 0 r (omega (arith, e)),
        row-add bs 0 r (suc n) (length bs) (omega (arith, e)),
        ap (λ i. count_if f (row bs i (suc n))) here,
        row_all bs,
      )

  -- From any counter that does not pass 2 ^ 64 meanwhile, as many calls as the pool has addresses
  -- return every address of the pool as often as it stands in it.
  pub draws_spread_evenly :
      (bs : List String) (gw : Router)
      → 0 < length bs
      → gw.next + length bs < 2 ^ 64
      → count_if f (draws bs (length bs) gw) ≡ count_if (λ b. f (some b)) bs
  draws_spread_evenly bs gw p h =
      let r = gw.next % length bs in
      let below : r < length bs = mod-lt gw.next p in
      ap (count_if f) (draws-ring bs (length bs) gw p h)
      ∙ ring_all bs r (length bs - suc r) (omega (arith, below))
