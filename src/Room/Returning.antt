-- ===== src/Room/Returning.antt =====
-- Who left a race that goes on, and joins again: backend/internal/room/room.go.
use text.Mathlib.TextEquality.{eq_iff}
use aviron.Base.{String, ◌≡◌, ap, ◌∙◌, true, Option, some, none, arith, if_rule, match_rule}
use aviron.Base.Dict
use aviron.Base.Dict.{get-delete, get-store}
use aviron.Room.State.{ParticipantState, participant_left, participant_joined, RoomActor}
use aviron.Room.Env.{Env}
use aviron.Room.Apply.{apply_event, on_left, on_joined, join, new_participant}
use aviron.Room.Board.{Board}
use aviron.Room.Refines.{board-depart_participant, board-broadcast_snapshot}
use aviron.Room.Grace.{live}

-- The participant who left a room under a name, with a result to keep.
abbrev pub departed : RoomActor → String → Option ParticipantState
departed r u = Dict.get r.departed_participants u

module _ (env : Env) where
  board-left_active :
      (r : RoomActor) (u : String) (p : ParticipantState)
      → r.active ≡ true
      → live r u ≡ some p
      → (live (apply_event env (participant_left u) r) u ≡ none)
        × (departed (apply_event env (participant_left u) r) u ≡ some p)
  unfolding apply_event on_left
  board-left_active r u p a e =
      match_rule After (Dict.get r.participants u) (λ h. ground arith)
        (λ p' e'.
          if_rule After r.active
            (λ _.
              let same = board-depart_participant env u p' r in
              (
                ap (λ (b : Board). Dict.get b.live u) same
                    ∙ ground (arith, get-delete r.participants u u, eq_iff u u),
                ap (λ (b : Board). Dict.get b.gone u) same
                    ∙ ground (arith, get-store r.departed_participants u u p', eq_iff u u),
              ))
            (λ f. ground arith))
    where
      After : RoomActor → Type 0
      After s = (live s u ≡ none) × (departed s u ≡ some p)

  joined_unknown :
      (r : RoomActor) (u name : String) (p : ParticipantState)
      → live r u ≡ none
      → departed r u ≡ some p
      → (live (apply_event env (participant_joined u name) r) u
          ≡ some (new_participant env r u name))
        × (departed (apply_event env (participant_joined u name) r) u ≡ some p)
  unfolding apply_event on_joined join
  joined_unknown r u name p e d =
      let same = board-broadcast_snapshot env (join env u name r) in
      let (back, kept) = joins in
      (
        ap (λ (b : Board). Dict.get b.live u) same ∙ back,
        ap (λ (b : Board). Dict.get b.gone u) same ∙ kept,
      )
    where
      After : RoomActor → Type 0
      After s = (live s u ≡ some (new_participant env r u name)) × (departed s u ≡ some p)

      joins : After (join env u name r)
      joins =
          match_rule After (Dict.get r.participants u)
            (λ _. (
              ground
                  (arith, get-store r.participants u u (new_participant env r u name), eq_iff u u),
              d,
            ))
            (λ q h. ground arith)

  -- In a race that goes on, a participant who leaves and joins again is in the room anew, with no
  -- words and no rank, while the result of before is kept too.
  pub leaver_returns_twice :
      (r : RoomActor) (u name : String) (p : ParticipantState)
      → r.active ≡ true
      → live r u ≡ some p
      → let left = apply_event env (participant_left u) r in
        let back = apply_event env (participant_joined u name) left in
        (live back u ≡ some (new_participant env left u name)) × (departed back u ≡ some p)
  leaver_returns_twice r u name p a e =
      let (out, kept) = board-left_active r u p a e in joined_unknown _ u name p out kept
