-- ===== src/Leaderboard/Repository/Ordering.antt =====
-- What the ORDER BY of a ranking keeps, and what Scan makes of its rows.
use aviron.Base.{
  ℕ, zero, suc, ◌≤◌, ◌≡◌, refl, true, List, [], ◌∷◌, none, some, length, All, take, drop, arith,
  if_rule, is_some,
}
use aviron.Leaderboard.{Entry}
use aviron.Leaderboard.Repository.{
  Server, RankedRow, comes_first, insert_ordered, order_rows, scan_rows,
}

abbrev pub wins_of : List RankedRow → List ℕ
wins_of [] = []
wins_of (r ∷ rs) = r.wins ∷ wins_of rs

abbrev pub IsDescending : List ℕ → Type 0
IsDescending [] = Unit
IsDescending (n ∷ ns) = All (λ m. m ≤ n) ns × IsDescending ns

-- Whether no average is NULL.
abbrev pub AllKnown : List RankedRow → Type 0
AllKnown [] = Unit
AllKnown (r ∷ rs) = (is_some r.avg_wpm ≡ true) × AllKnown rs

All-weaken : (m n : ℕ) (ns : List ℕ) → m ≤ n → All (λ k. k ≤ m) ns → All (λ k. k ≤ n) ns
All-weaken m n [] h a = tt
All-weaken m n (k ∷ ks) h a = (omega (arith, h, a.0), All-weaken m n ks h (a.1))

module _ (srv : Server) where
  insert_ordered-All :
      (n : ℕ) (a : RankedRow) (rows : List RankedRow)
      → a.wins ≤ n
      → All (λ k. k ≤ n) (wins_of rows)
      → All (λ k. k ≤ n) (wins_of (insert_ordered srv a rows))
  unfolding insert_ordered
  insert_ordered-All n a [] h all = (h, tt)
  insert_ordered-All n a (b ∷ bs) h all =
      if_rule (λ (xs : List RankedRow). All (λ k. k ≤ n) (wins_of xs)) (comes_first srv a b)
        (λ _. (h, all)) (λ _. (all.0, insert_ordered-All n a bs h (all.1)))

  insert_ordered-IsDescending :
      (a : RankedRow) (rows : List RankedRow)
      → IsDescending (wins_of rows)
      → IsDescending (wins_of (insert_ordered srv a rows))
  unfolding insert_ordered
  insert_ordered-IsDescending a [] d = (tt, tt)
  insert_ordered-IsDescending a (b ∷ bs) d =
      if_rule (λ (xs : List RankedRow). IsDescending (wins_of xs)) (comes_first srv a b)
        (λ t.
          let less : b.wins ≤ a.wins = ground (arith, t) in
          ((less, All-weaken b.wins a.wins (wins_of bs) less (d.0)), d))
        (λ f. (
          insert_ordered-All b.wins a bs (ground (arith, f)) (d.0),
          insert_ordered-IsDescending a bs (d.1),
        ))

  pub order_rows-IsDescending :
      (rows : List RankedRow) → IsDescending (wins_of (order_rows srv rows))
  unfolding order_rows
  order_rows-IsDescending [] = tt
  order_rows-IsDescending (a ∷ rows) =
      insert_ordered-IsDescending a (order_rows srv rows) (order_rows-IsDescending rows)

  length-insert_ordered :
      (a : RankedRow) (rows : List RankedRow)
      → length (insert_ordered srv a rows) ≡ suc (length rows)
  unfolding insert_ordered
  length-insert_ordered a [] = refl
  length-insert_ordered a (b ∷ bs) =
      if_rule (λ (xs : List RankedRow). length xs ≡ suc (suc (length bs))) (comes_first srv a b)
        (λ _. refl) (λ _. omega (arith, length-insert_ordered a bs))

  pub length-order_rows : (rows : List RankedRow) → length (order_rows srv rows) ≡ length rows
  unfolding order_rows
  length-order_rows [] = refl
  length-order_rows (a ∷ rows) =
      omega (arith, length-insert_ordered a (order_rows srv rows), length-order_rows rows)

  insert_ordered-AllKnown :
      (a : RankedRow) (rows : List RankedRow)
      → is_some a.avg_wpm ≡ true
      → AllKnown rows
      → AllKnown (insert_ordered srv a rows)
  unfolding insert_ordered
  insert_ordered-AllKnown a [] h k = (h, tt)
  insert_ordered-AllKnown a (b ∷ bs) h k =
      if_rule AllKnown (comes_first srv a b) (λ _. (h, k))
        (λ _. (k.0, insert_ordered-AllKnown a bs h (k.1)))

  pub order_rows-AllKnown : (rows : List RankedRow) → AllKnown rows → AllKnown (order_rows srv rows)
  unfolding order_rows
  order_rows-AllKnown [] k = tt
  order_rows-AllKnown (a ∷ rows) k =
      insert_ordered-AllKnown a (order_rows srv rows) (k.0) (order_rows-AllKnown rows (k.1))

  -- A NULL stays, wherever the rows go.
  scan_rows-insert_ordered :
      (a : RankedRow) (rows : List RankedRow)
      → scan_rows (a ∷ rows) ≡ none
      → scan_rows (insert_ordered srv a rows) ≡ none
  unfolding insert_ordered scan_rows
  scan_rows-insert_ordered a [] h = h
  scan_rows-insert_ordered a (b ∷ bs) h =
      if_rule (λ (xs : List RankedRow). scan_rows xs ≡ none) (comes_first srv a b) (λ _. h)
        (λ _. ground (arith, h, scan_rows-insert_ordered a bs))

  pub scan_rows-order_rows :
      (rows : List RankedRow) → scan_rows rows ≡ none → scan_rows (order_rows srv rows) ≡ none
  unfolding order_rows scan_rows
  scan_rows-order_rows [] h = h
  scan_rows-order_rows (a ∷ rows) h =
      scan_rows-insert_ordered a (order_rows srv rows)
        (ground (arith, h, scan_rows-order_rows rows))

-- What Scan yields for rows without NULL.
abbrev pub scanned : List RankedRow → List Entry
scanned [] = []
scanned (r ∷ rs) = elim r.avg_wpm [
  | none ↦ scanned rs
  | some avg_wpm ↦
      record {
        user_id = r.user_id;
        display_name = r.display_name;
        races = r.races;
        wins = r.wins;
        avg_wpm = avg_wpm;
      }
      ∷ scanned rs
]

pub scan_rows-scanned :
    (rows : List RankedRow) → AllKnown rows → scan_rows rows ≡ some (scanned rows)
unfolding scan_rows
scan_rows-scanned [] k = refl
scan_rows-scanned (r ∷ rs) k = ground (arith, k.0, scan_rows-scanned rs (k.1))

pub length-scanned : (rows : List RankedRow) → AllKnown rows → length (scanned rows) ≡ length rows
length-scanned [] k = refl
length-scanned (r ∷ rs) k = ground (arith, k.0, length-scanned rs (k.1))

pub scan_rows-take :
    (n : ℕ) (rows : List RankedRow)
    → AllKnown rows
    → scan_rows (take n rows) ≡ some (take n (scanned rows))
unfolding scan_rows take
scan_rows-take zero rows k = refl
scan_rows-take (suc n) [] k = refl
scan_rows-take (suc n) (r ∷ rs) k = ground (arith, k.0, scan_rows-take n rs (k.1))

pub drop-AllKnown : (n : ℕ) (rows : List RankedRow) → AllKnown rows → AllKnown (drop n rows)
unfolding drop
drop-AllKnown zero rows k = k
drop-AllKnown (suc n) [] k = tt
drop-AllKnown (suc n) (r ∷ rs) k = drop-AllKnown n rs (k.1)

pub scanned-drop :
    (n : ℕ) (rows : List RankedRow) → AllKnown rows → scanned (drop n rows) ≡ drop n (scanned rows)
unfolding drop
scanned-drop zero rows k = refl
scanned-drop (suc n) [] k = refl
scanned-drop (suc n) (r ∷ rs) k = ground (arith, k.0, scanned-drop n rs (k.1))

abbrev pub entry_wins : List Entry → List ℕ
entry_wins [] = []
entry_wins (e ∷ es) = e.wins ∷ entry_wins es

pub entry_wins-scanned :
    (rows : List RankedRow) → AllKnown rows → entry_wins (scanned rows) ≡ wins_of rows
entry_wins-scanned [] k = refl
entry_wins-scanned (r ∷ rs) k = ground (arith, k.0, entry_wins-scanned rs (k.1))
