-- ===== src/Leaderboard/Pages.antt =====
-- The pages of the leaderboard, one after another.
use aviron.Base.{
  ℕ, zero, suc, ◌+◌, ◌*◌, ◌^◌, ◌≤◌, ◌<◌, String, ◌≡◌, refl, sym, ap, ◌∙◌, List, [], ◌∷◌, ◌++◌, some,
  arith, length, take, drop, drop-drop, take_all,
}
use aviron.Base.Int.{ℤ, pos, ◌+ℤ◌}
use aviron.Leaderboard.{
  Window, Entry, LeaderboardRepository, page_size, clamp_page, offset_of, total_pages, rank_entries,
  window_of, Top, wrong_window, failed, found, get_top,
}

-- The ranked entries of an answer.
abbrev pub entries_of : Top → List (ℤ × Entry)
entries_of wrong_window = []
entries_of failed = []
entries_of (found r) = r.entries

-- So many pages, from one on.
unfoldable pub read_pages : LeaderboardRepository → String → ℕ → ℕ → List (ℤ × Entry)
read_pages repo window_param zero page = []
read_pages repo window_param (suc n) page =
    entries_of (get_top repo window_param (pos page)) ++ read_pages repo window_param n (suc page)

-- LIMIT and OFFSET over the rows of a window.
abbrev pub ServesPages : LeaderboardRepository → Window → List Entry → Type 0
ServesPages repo window rows =
    (limit offset : ℕ)
    → repo.get_top window limit (pos offset) ≡ some (take limit (drop offset rows), length rows)

rank_entries-shift :
    (a i k : ℕ) (es : List Entry)
    → k ≡ a + i
    → rank_entries (pos a) i es ≡ rank_entries (pos 0) k es
unfolding rank_entries
rank_entries-shift a i k [] h = refl
rank_entries-shift a i k (e ∷ es) h =
    ground (arith, h, rank_entries-shift a (i + 1) (k + 1) es (omega (arith, h)))

rank_entries-take :
    (i j k m total : ℕ) (es : List Entry)
    → total ≡ k + m
    → j ≡ i + k
    → rank_entries (pos 0) i (take total es)
      ≡ rank_entries (pos 0) i (take k es) ++ rank_entries (pos 0) j (take m (drop k es))
unfolding rank_entries take drop
rank_entries-take i j zero m total es h g =
    ap (λ n. rank_entries (pos 0) i (take n es)) (omega (arith, h))
    ∙ ap (λ n. rank_entries (pos 0) n (take m es)) (omega (arith, g))
rank_entries-take i j (suc k) m zero es h g = absurd (omega (arith, h))
rank_entries-take i j (suc k) zero (suc total) [] h g = refl
rank_entries-take i j (suc k) (suc m) (suc total) [] h g = refl
rank_entries-take i j (suc k) m (suc total) (e ∷ es) h g =
    ap (λ xs. (pos 0 +ℤ pos (i + 1), e) ∷ xs)
      (rank_entries-take (i + 1) j k m total es (omega (arith, h)) (omega (arith, g)))

offset_of-exact : (q : ℕ) → q * 5 < 2 ^ 63 → offset_of (suc q) ≡ pos (q * 5)
offset_of-exact q h = ground arith

module _ (repo : LeaderboardRepository) (window_param : String) (window : Window)
    (rows : List Entry) (known : window_of window_param ≡ some window)
    (serves : ServesPages repo window rows) where
  -- One page.
  page-entries :
      (q : ℕ)
      → q * 5 < 2 ^ 63
      → entries_of (get_top repo window_param (pos (suc q)))
        ≡ rank_entries (pos 0) (q * 5) (take 5 (drop (q * 5) rows))
  unfolding get_top
  page-entries q h =
      let clamped : clamp_page (pos (suc q)) ≡ suc q = ground arith in
      let at = ap offset_of clamped ∙ offset_of-exact q h in
      let served = ap (repo.get_top window page_size) at ∙ serves page_size (q * 5) in
      let page = take page_size (drop (q * 5) rows) in
      let shown : entries_of (get_top repo window_param (pos (suc q)))
          ≡ rank_entries (offset_of (clamp_page (pos (suc q)))) 0 page =
        ground (arith, known, served) in
      shown
      ∙ ap (λ o. rank_entries o 0 page) at
      ∙ rank_entries-shift (q * 5) 0 (q * 5) page (omega arith)

  pages-entries :
      (n q : ℕ)
      → (q + n) * 5 < 2 ^ 63
      → read_pages repo window_param n (suc q)
        ≡ rank_entries (pos 0) (q * 5) (take (n * 5) (drop (q * 5) rows))
  unfolding read_pages rank_entries take
  pages-entries zero q h = refl
  pages-entries (suc n) q h =
      let rest = pages-entries n (suc q) (omega (arith, h)) in
      let next = drop-drop (q * 5) 5 (suc q * 5) rows (omega arith) in
      ap (λ xs. xs ++ read_pages repo window_param n (suc (suc q)))
        (page-entries q (omega (arith, h)))
      ∙ ap (λ xs. rank_entries (pos 0) (q * 5) (take 5 (drop (q * 5) rows)) ++ xs)
          (rest ∙ ap (λ xs. rank_entries (pos 0) (suc q * 5) (take (n * 5) xs)) (sym next))
      ∙ sym (
          rank_entries-take (q * 5) (suc q * 5) 5 (n * 5) (suc n * 5) (drop (q * 5) rows)
            (omega arith) (omega arith))

  -- Where the repository serves the rows of a window by limit and offset, and counts them, and there
  -- are fewer than 2 ^ 62 of them, the pages from 1 to the last one that GetTop reports are, one after
  -- another, all the rows, ranked from 1 on without a gap.
  pub pages_rank_everyone :
      length rows < 2 ^ 62
      → read_pages repo window_param (total_pages (length rows)) 1 ≡ rank_entries (pos 0) 0 rows
  unfolding drop
  pages_rank_everyone few =
      let pages = total_pages (length rows) in
      let enough : length rows ≤ pages * 5 = ground arith in
      pages-entries pages 0 (ground arith)
      ∙ ap (rank_entries (pos 0) 0) (take_all (pages * 5) rows enough)
