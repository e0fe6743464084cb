-- ===== src/Room/Snapshot.antt =====
-- The snapshots that a room broadcasts: broadcastSnapshot of backend/internal/room/room.go.
use mathlib.Core.List.Perm
use aviron.Base.{
  ℕ, zero, suc, ◌+◌, ◌≡◌, refl, ap, ◌∙◌, Bool, true, false, List, [], ◌∷◌, map, Perm, arith,
  if◌then◌else◌, All, Bool-cases, inl, inr, length, ◌&&◌,
}
use aviron.Base.Int.{ℤ, leb_ℤ, ltb_ℤ}
use aviron.Base.Dict
use aviron.Room.State.{ParticipantState, ParticipantStateJson, Message, race_state, RoomActor}
use aviron.Room.Env.{Env}
use aviron.Room.Actor.{insert_ranked, sort_ranked, snapshot_entries, standings, snapshot}

-- The first has at least as many words as the second.
abbrev pub Leads : ParticipantState → ParticipantState → Type 0
Leads p q = leb_ℤ q.words_correct p.words_correct ≡ true

-- Everyone leads all who come behind.
abbrev pub IsRankedList : List ParticipantState → Type 0
IsRankedList [] = Unit
IsRankedList (p ∷ ps) = All (Leads p) ps × IsRankedList ps

insert_ranked-perm :
    (p : ParticipantState) (ps : List ParticipantState) → Perm (insert_ranked p ps) (p ∷ ps)
unfolding insert_ranked
insert_ranked-perm p [] = Perm.refl _
insert_ranked-perm p (q ∷ qs) = elim (Bool-cases (ltb_ℤ p.words_correct q.words_correct)) [
  | inl h ↦ rw h (Perm.trans (Perm.cons q (insert_ranked-perm p qs)) (Perm.swap p q qs))
  | inr h ↦ rw h (Perm.refl _)
]

sort_ranked-perm : (ps : List ParticipantState) → Perm (sort_ranked ps) ps
unfolding sort_ranked
sort_ranked-perm [] = Perm.refl _
sort_ranked-perm (p ∷ ps) =
    Perm.trans (insert_ranked-perm p (sort_ranked ps)) (Perm.cons p (sort_ranked-perm ps))

-- Leading is transitive.
All-Leads :
    (p q : ParticipantState) (ps : List ParticipantState)
    → Leads p q
    → All (Leads q) ps
    → All (Leads p) ps
All-Leads p q [] h a = tt
All-Leads p q (x ∷ xs) h a = (ground arith, All-Leads p q xs h a.1)

All-insert_ranked :
    (x p : ParticipantState) (ps : List ParticipantState)
    → Leads x p
    → All (Leads x) ps
    → All (Leads x) (insert_ranked p ps)
unfolding insert_ranked
All-insert_ranked x p [] h a = (h, tt)
All-insert_ranked x p (q ∷ qs) h a = ground (arith, All-insert_ranked x p qs h a.1)

insert_ranked-IsRankedList :
    (p : ParticipantState) (ps : List ParticipantState)
    → IsRankedList ps
    → IsRankedList (insert_ranked p ps)
unfolding insert_ranked
insert_ranked-IsRankedList p [] h = (tt, tt)
insert_ranked-IsRankedList p (q ∷ qs) h =
    elim (Bool-cases (ltb_ℤ p.words_correct q.words_correct)) [
      | inl e ↦
          rw e (All-insert_ranked q p qs (ground arith) h.0, insert_ranked-IsRankedList p qs h.1)
      | inr e ↦ let lead : Leads p q = ground arith in rw e ((lead, All-Leads p q qs lead h.0), h)
    ]

sort_ranked-IsRankedList : (ps : List ParticipantState) → IsRankedList (sort_ranked ps)
unfolding sort_ranked
sort_ranked-IsRankedList [] = tt
sort_ranked-IsRankedList (p ∷ ps) =
    insert_ranked-IsRankedList p (sort_ranked ps) (sort_ranked-IsRankedList ps)

-- Those who pass a test, in their order.
abbrev pub keep : (ParticipantState → Bool) → List ParticipantState → List ParticipantState
keep f [] = []
keep f (p ∷ ps) = let rest = keep f ps in if f p then p ∷ rest else rest

-- A test that nobody passes together with someone who has more words.
abbrev SeparatesRanks : (ParticipantState → Bool) → Type 0
SeparatesRanks f =
    (p q : ParticipantState)
    → ltb_ℤ p.words_correct q.words_correct ≡ true
    → f p ≡ true
    → f q ≡ false

keep-insert_ranked :
    (f : ParticipantState → Bool)
    → SeparatesRanks f
    → (p : ParticipantState) (ps : List ParticipantState)
    → keep f (insert_ranked p ps) ≡ keep f (p ∷ ps)
unfolding insert_ranked
keep-insert_ranked f sep p [] = refl
keep-insert_ranked f sep p (q ∷ qs) = elim (Bool-cases (ltb_ℤ p.words_correct q.words_correct)) [
  | inl e ↦ rw e (ground (arith, keep-insert_ranked f sep p qs, sep p q e))
  | inr e ↦ rw e
]

keep-sort_ranked :
    (f : ParticipantState → Bool)
    → SeparatesRanks f
    → (ps : List ParticipantState) → keep f (sort_ranked ps) ≡ keep f ps
unfolding sort_ranked
keep-sort_ranked f sep [] = refl
keep-sort_ranked f sep (p ∷ ps) =
    keep-insert_ranked f sep p (sort_ranked ps) ∙ ground (arith, keep-sort_ranked f sep ps)

-- Whether a participant has exactly `w` words.
abbrev pub has_words : ℤ → ParticipantState → Bool
has_words w p = leb_ℤ p.words_correct w && leb_ℤ w p.words_correct

has_words-separates : (w : ℤ) → SeparatesRanks (has_words w)
has_words-separates w p q h e = ground arith

-- `n` numbers from `i` on.
abbrev pub count_up : ℕ → ℕ → List ℕ
count_up i zero = []
count_up i (suc n) = i ∷ count_up (i + 1) n

-- The entries of a snapshot.
abbrev pub shown : Message → List ParticipantStateJson
shown (race_state n es) = es
shown _ = []

module _ (env : Env) where
  entries-users :
      (i : ℕ) (ps : List ParticipantState)
      → map (λ e. e.user_id) (snapshot_entries env i ps) ≡ map (λ p. p.user_id) ps
  unfolding snapshot_entries
  entries-users i [] = refl
  entries-users i (p ∷ ps) = ap (◌∷◌ p.user_id) (entries-users (i + 1) ps)

  entries-ranks :
      (i : ℕ) (ps : List ParticipantState)
      → map (λ e. e.rank) (snapshot_entries env i ps) ≡ count_up (i + 1) (length ps)
  unfolding snapshot_entries
  entries-ranks i [] = refl
  entries-ranks i (p ∷ ps) = ap (◌∷◌ (i + 1)) (entries-ranks (i + 1) ps)

  -- In the snapshot that a room sends, the users are those of `standings`, with the ranks 1, 2, 3
  -- and so on; `standings` has everyone in the room once, nobody behind someone with fewer words.
  pub snapshot_lem :
      (r : RoomActor)
      → (map (λ e. e.user_id) (shown (snapshot env r)) ≡ map (λ p. p.user_id) (standings env r))
        × (map (λ e. e.rank) (shown (snapshot env r)) ≡ count_up 1 (length (standings env r)))
        × Perm (standings env r) (Dict.values r.participants)
        × IsRankedList (standings env r)
  unfolding snapshot standings
  snapshot_lem r =
      let ps = sort_ranked (env.order r (Dict.values r.participants)) in
      (
        entries-users 0 ps,
        entries-ranks 0 ps,
        Perm.trans (sort_ranked-perm _) (env.order-perm r (Dict.values r.participants)),
        sort_ranked-IsRankedList _,
      )

  -- Players with equally many words stand in a snapshot in the order in which Go happened to walk
  -- the map of participants.
  pub ties_follow_map_order :
      (r : RoomActor) (w : ℤ)
      → keep (has_words w) (standings env r)
        ≡ keep (has_words w) (env.order r (Dict.values r.participants))
  unfolding standings
  ties_follow_map_order r w = keep-sort_ranked (has_words w) (has_words-separates w) _
