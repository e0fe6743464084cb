-- ===== src/Race/Service/Joining.antt =====
-- Joining and leaving a race that is still pending.
use text.Mathlib.Text.{◌==◌}
use text.Mathlib.TextEquality.{eq_iff}
use aviron.Base.{
  ℕ, ◌+◌, ◌≤◌, ◌<◌, String, ◌≡◌, ◌≢◌, refl, sym, ap, ◌∙◌, Bool, true, false, List, [], ◌∷◌, ◌++◌,
  none, some, leb, arith, if_rule, match_rule, if◌then◌else◌, ◌⊎◌, inl, inr,
}
use aviron.Race.Data.{
  ParticipantRow, Database, Result, ok, err, Race, Postgres, result_rule, is_pending,
  max_participants, RaceRow,
}
use aviron.Race.Repository.{
  get_race, add_participant, remove_participant, count_participants, is_participant,
  new_participant_row, has_both,
}
use aviron.Race.Repository.Tables.{is_row_of, has_row, delete_rows, count_rows, find_race}
use aviron.Race.Service.{Libraries, from, join_race, join_pending, leave_race}

delete_rows-absent :
    (race_id user_id : String) (ps : List ParticipantRow)
    → has_row race_id user_id ps ≡ false
    → delete_rows race_id user_id ps ≡ ps
unfolding has_row delete_rows
delete_rows-absent race_id user_id [] h = refl
delete_rows-absent race_id user_id (p ∷ ps) h =
    ground (arith, delete_rows-absent race_id user_id ps)

-- Deleting the row that was put behind the others, when none of them is of that race and user.
delete_rows-added :
    (race_id user_id : String) (q : ParticipantRow) (ps : List ParticipantRow)
    → has_row race_id user_id ps ≡ false
    → is_row_of race_id user_id q ≡ true
    → delete_rows race_id user_id (ps ++ q ∷ []) ≡ ps
unfolding has_row delete_rows
delete_rows-added race_id user_id q [] h k = ground arith
delete_rows-added race_id user_id q (p ∷ ps) h k =
    ground (arith, delete_rows-added race_id user_id q ps)

pub has_row-added :
    (race_id user_id : String) (q : ParticipantRow) (ps : List ParticipantRow)
    → is_row_of race_id user_id q ≡ true
    → has_row race_id user_id (ps ++ q ∷ []) ≡ true
unfolding has_row
has_row-added race_id user_id q [] k = ground arith
has_row-added race_id user_id q (p ∷ ps) k = ground (arith, has_row-added race_id user_id q ps k)

-- The rows of a race when one is added.
pub count_rows-added :
    (j : String) (q : ParticipantRow) (ps : List ParticipantRow)
    → count_rows j (ps ++ q ∷ []) ≡ count_rows j ps + (if q.race_id == j then 1 else 0)
count_rows-added j q [] = ground arith
count_rows-added j q (p ∷ ps) = ground (arith, count_rows-added j q ps)

pub count_rows-deleted :
    (j race_id user_id : String) (ps : List ParticipantRow)
    → count_rows j (delete_rows race_id user_id ps) ≤ count_rows j ps
unfolding delete_rows
count_rows-deleted j race_id user_id [] = omega arith
count_rows-deleted j race_id user_id (p ∷ ps) =
    ground (arith, count_rows-deleted j race_id user_id ps)

-- Whether a race is there and pending.
abbrev pub is_open : String → List RaceRow → Bool
is_open race_id rows = elim (find_race race_id rows) [
  | none ↦ false
  | some row ↦ is_pending row.race.status
]

get_race-is_open :
    (pg : Postgres) (race_id : String) (db : Database) (r : Race)
    → get_race pg race_id db ≡ ok r
    → is_open race_id db.races ≡ is_pending r.status
unfolding get_race
get_race-is_open pg race_id db r h = ground arith

is_participant-has_row :
    (pg : Postgres) (race_id user_id : String) (db : Database) (b : Bool)
    → is_participant pg race_id user_id db ≡ ok b
    → has_row race_id user_id db.race_participants ≡ b
unfolding is_participant
is_participant-has_row pg race_id user_id db b h = ground arith

count_participants-rows :
    (pg : Postgres) (race_id : String) (db : Database) (n : ℕ)
    → count_participants pg race_id db ≡ ok n
    → count_rows race_id db.race_participants ≡ n
unfolding count_participants
count_participants-rows pg race_id db n h = ground arith

-- The tables with one more participant.
abbrev pub with_row : Postgres → String → String → Database → Database
with_row pg race_id user_id db = record db {
  race_participants = db.race_participants ++ new_participant_row race_id user_id (pg.now db) ∷ [];
}

pub add_participant-tables :
    (pg : Postgres) (race_id user_id : String) (db : Database)
    → ((add_participant pg race_id user_id db).1 ≡ db)
      ⊎ ((add_participant pg race_id user_id db).1 ≡ with_row pg race_id user_id db)
unfolding add_participant
add_participant-tables pg race_id user_id db =
    match_rule P (pg.fault db 0)
      (λ _.
        if_rule P (has_row race_id user_id db.race_participants) (λ _. inl refl)
          (λ _. if_rule P (has_both race_id user_id db) (λ _. inr refl) (λ _. inl refl)))
      (λ _ _. inl refl)
  where
    P : Result (Unit {0}) × Database → Type 0
    P x = (x.1 ≡ db) ⊎ (x.1 ≡ with_row pg race_id user_id db)

module _ (lib : Libraries) (pg : Postgres) (race_id user_id : String) (db : Database) where
  -- The tables stay, or the user, who was not in the race, comes in, while the race is pending and
  -- has room.
  abbrev pub Joins : Result String × Database → Type 0
  Joins x =
      (x.1 ≡ db)
      ⊎ ((is_open race_id db.races ≡ true)
          × (has_row race_id user_id db.race_participants ≡ false)
          × (count_rows race_id db.race_participants < max_participants)
          × (x.1 ≡ with_row pg race_id user_id db))

  join_pending-Joins :
      (pg' : Postgres)
      → pg'.now db ≡ pg.now db
      → is_open race_id db.races ≡ true
      → has_row race_id user_id db.race_participants ≡ false
      → Joins (join_pending lib pg' race_id user_id db)
  unfolding join_pending
  join_pending-Joins pg' same o n =
      result_rule Joins (count_participants pg' race_id db)
        (λ c e.
          if_rule Joins (leb max_participants c) (λ _. inl refl)
            (λ l.
              ends _ _ (ground (arith, count_participants-rows pg' race_id db c e))
                (add_participant-tables (from 1 pg') race_id user_id db)))
        (λ _ _. inl refl)
    where
      ends :
          (added : Result (Unit {0})) (joined : Database)
          → count_rows race_id db.race_participants < max_participants
          → (joined ≡ db) ⊎ (joined ≡ with_row (from 1 pg') race_id user_id db)
          → Joins
              (elim added [ err e ↦ (err e, joined) | ok u ↦ (lib.sign race_id user_id, joined) ])
      ends (ok u) joined l (inl s) = inl s
      ends (err e) joined l (inl s) = inl s
      ends (ok u) joined l (inr s) = inr (
        o,
        n,
        l,
        s
            ∙ ap
                (λ t. record db {
                  race_participants =
                      db.race_participants ++ new_participant_row race_id user_id t ∷ [];
                })
                same,
      )
      ends (err e) joined l (inr s) = inr (
        o,
        n,
        l,
        s
            ∙ ap
                (λ t. record db {
                  race_participants =
                      db.race_participants ++ new_participant_row race_id user_id t ∷ [];
                })
                same,
      )

  -- JoinRace leaves the tables as they are, or adds one row behind the others, and the latter only
  -- for a race that is there, pending and short of ten participants, and a user who is not in it.
  pub join_race_lem : Joins (join_race lib pg race_id user_id db)
  unfolding join_race
  join_race_lem =
      result_rule Joins (get_race pg race_id db)
        (λ r e.
          result_rule Joins (is_participant (from 1 pg) race_id user_id db)
            (λ b e'.
              if_rule Joins b (λ _. inl refl)
                (λ f.
                  if_rule Joins (is_pending r.status)
                    (λ p.
                      join_pending-Joins (from 2 pg) refl (get_race-is_open pg race_id db r e ∙ p)
                        (is_participant-has_row (from 1 pg) race_id user_id db b e' ∙ f))
                    (λ _. inl refl)))
            (λ _ _. inl refl))
        (λ _ _. inl refl)

leave_race-with_row :
    (pg : Postgres) (race_id user_id : String) (db : Database)
    → is_open race_id db.races ≡ true
    → has_row race_id user_id db.race_participants ≡ false
    → let joined = with_row pg race_id user_id db in
      ((i : ℕ) → pg.fault joined i ≡ none) → leave_race pg race_id user_id joined ≡ (ok tt, db)
unfolding leave_race remove_participant get_race
leave_race-with_row pg race_id user_id db o n up =
    let q = new_participant_row race_id user_id (pg.now db) in
    ground (
      arith,
      up 0,
      up 1,
      eq_iff race_id race_id,
      eq_iff user_id user_id,
      has_row-added race_id user_id q db.race_participants,
      delete_rows-added race_id user_id q db.race_participants,
    )

-- When a join has changed the tables, and Postgres answers without an error, leaving succeeds and
-- the tables are those of before the join.
pub leave_race-join_race :
    (lib : Libraries) (pg : Postgres) (race_id user_id : String) (db : Database)
    → let joined = (join_race lib pg race_id user_id db).1 in
      (joined ≢ db)
      → ((i : ℕ) → pg.fault joined i ≡ none)
      → leave_race pg race_id user_id joined ≡ (ok tt, db)
leave_race-join_race lib pg race_id user_id db changed up =
    elim (join_race_lem lib pg race_id user_id db) [
      | inl same ↦ absurd (changed same)
      | inr (o, n, l, e) ↦
          ap (leave_race pg race_id user_id) e
          ∙ leave_race-with_row pg race_id user_id db o n
              (λ i. ap (λ t. pg.fault t i) (sym e) ∙ up i)
    ]
