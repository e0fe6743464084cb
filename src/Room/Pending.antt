-- ===== src/Room/Pending.antt =====
-- The lobby, before a race starts: backend/internal/room/room.go.
use text.Mathlib.TextEquality.{eq_iff}
use aviron.Base.{◌+◌, String, ◌≡◌, refl, ap, ◌∙◌, false, some, none, arith, if_rule, match_rule}
use aviron.Base.Dict
use aviron.Base.Dict.{get-delete}
use aviron.Room.State.{ParticipantState, participant_left, participant_joined, RoomActor}
use aviron.Room.Env.{Env}
use aviron.Room.Apply.{apply_event, on_left, leave_pending, on_joined, join}
use aviron.Room.Board.{Board, board}
use aviron.Room.Refines.{board-check_race_finished, board-broadcast_snapshot}

module _ (env : Env) where
  board-left_pending :
      (r : RoomActor) (u : String) (p : ParticipantState)
      → r.active ≡ false
      → Dict.get r.participants u ≡ some p
      → board (apply_event env (participant_left u) r)
        ≡ board (record r { participants = Dict.delete r.participants u })
  unfolding apply_event on_left leave_pending
  board-left_pending r u p a e =
      match_rule After (Dict.get r.participants u) (λ h. cc)
        (λ p' _. if_rule After r.active (λ t. cc) (λ _. board-check_race_finished env _))
    where
      After : RoomActor → Type 0
      After s = board s ≡ board (record r { participants = Dict.delete r.participants u })

  board-joined_unknown :
      (r : RoomActor) (u name : String)
      → Dict.get r.participants u ≡ none
      → (apply_event env (participant_joined u name) r).total_participants
        ≡ r.total_participants + 1
  unfolding apply_event on_joined join
  board-joined_unknown r u name e =
      ap (λ (b : Board). b.seen) (board-broadcast_snapshot env (join env u name r))
      ∙ rw (e, join) refl

  -- Whoever leaves before the start and joins again is counted once more, so that the count of
  -- participants, which is the rank of all who do not finish, exceeds the number of people.
  pub rejoin_counts_again :
      (r : RoomActor) (u name : String) (p : ParticipantState)
      → r.active ≡ false
      → Dict.get r.participants u ≡ some p
      → (apply_event env
          (participant_joined u name)
          (apply_event env (participant_left u) r)).total_participants
        ≡ r.total_participants + 1
  rejoin_counts_again r u name p a e =
      let left = board-left_pending r u p a e in
      board-joined_unknown _ u name (
        ap (λ (b : Board). Dict.get b.live u) left
        ∙ ground (arith, get-delete r.participants u u, eq_iff u u))
      ∙ ap (λ (b : Board). b.seen + 1) left
