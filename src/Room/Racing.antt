-- ===== src/Room/Racing.antt =====
-- When a race ends, and when it does not: checkRaceFinished of backend/internal/room/room.go.
use text.Mathlib.TextEquality.{eq_iff}
use aviron.Base.{
  ℕ, String, ◌≡◌, refl, sym, ap, ◌∙◌, true, false, List, [], ◌∷◌, none, some, arith, count_if,
  if_rule, match_rule,
}
use aviron.Base.Int.{ℤ, leb_ℤ}
use aviron.Base.Dict
use aviron.Base.Dict.{get-store, values-store, count_if-delete, count_if-store}
use aviron.Room.State.{
  Float64, RoomEvent, telemetry_received, ParticipantState, ParticipantResult, Call, finish_race,
  RoomActor,
}
use aviron.Room.Env.{Env}
use aviron.Room.Actor.{any_racing, is_racing, perform, race_results, check_race_finished}
use aviron.Room.Apply.{
  apply_event, on_telemetry, accept_progress, publish_progress, cross_line, with_progress,
  reaches_target,
}
use aviron.Room.Board.{Board}
use aviron.Room.Refines.{board-check_race_finished}
use aviron.Room.Endings.{finish_race_with_rule, check_race_finished_rule}
use aviron.Room.Events.{is_ending, apply_event-keeps}

-- How many calls to end a race were made, whatever came of them.
abbrev pub endings : RoomActor → ℕ
endings r = count_if (λ c. is_ending c.0) r.calls

-- Someone in the room has not finished.
abbrev pub IsRacing : RoomActor → Type 0
IsRacing r = any_racing (Dict.values r.participants) ≡ true

-- Started, and no nearer to its end than `r`.
abbrev GoesOn : RoomActor → RoomActor → Type 0
GoesOn r s = (s.active ≡ true) × (s.finished ≡ r.finished) × (endings s ≡ endings r)

module _ (env : Env) where
  quiet-GoesOn :
      (r : RoomActor) (c : Call) (s : RoomActor)
      → is_ending c ≡ false
      → GoesOn r s
      → GoesOn r (perform env c s)
  quiet-GoesOn r c s q v = rw q v

  checks-GoesOn :
      (r s : RoomActor)
      → IsRacing (check_race_finished env s)
      → GoesOn r s
      → GoesOn r (check_race_finished env s)
  checks-GoesOn r s q v =
      check_race_finished_rule env (GoesOn r) s v (λ _ n _. cc here) (λ _ n _. cc here)
    where
      here : IsRacing s
      here =
          sym
            (ap (λ (b : Board). any_racing (Dict.values b.live)) (board-check_race_finished env s))
          ∙ q

  -- As long as someone in a started room has not finished, no event makes a call that ends the
  -- race, and none changes whether it counts as finished.
  pub racing_goes_on :
      (ev : RoomEvent) (r : RoomActor)
      → r.active ≡ true
      → IsRacing (apply_event env ev r)
      → ((apply_event env ev r).finished ≡ r.finished)
        × (endings (apply_event env ev r) ≡ endings r)
  racing_goes_on ev r a q =
      let (_, f, e) =
        apply_event-keeps env (GoesOn r) IsRacing (λ s live gone out seen ticks count ms v. v)
          (quiet-GoesOn r) (λ s v. (refl, v.1, v.2)) (λ s i _ v. cc) (checks-GoesOn r) ev r
          (a, refl, refl) q in
      (f, e)

any_racing-count : (ps : List ParticipantState) → count_if is_racing ps ≡ 0 → any_racing ps ≡ false
unfolding any_racing
any_racing-count [] h = refl
any_racing-count (p ∷ ps) h = ground (arith, any_racing-count ps)

count-any_racing : (ps : List ParticipantState) → any_racing ps ≡ false → count_if is_racing ps ≡ 0
unfolding any_racing
count-any_racing [] h = refl
count-any_racing (p ∷ ps) h = ground (arith, count-any_racing ps)

module _ (env : Env) where
  -- Postgres takes the results of a race.
  abbrev pub Saves : Type 0
  Saves =
      (s : RoomActor) (id : String) (d : ℤ) (rs : List ParticipantResult)
      → env.answer s (finish_race id d rs) ≡ none

  -- Over, and its context cancelled.
  abbrev IsOver : RoomActor → Type 0
  IsOver r = (r.finished ≡ true) × (r.cancelled ≡ true)

  check_race_finished-IsOver :
      (r : RoomActor)
      → Saves
      → r.finished ≡ false
      → r.active ≡ true
      → any_racing (Dict.values r.participants) ≡ false
      → IsOver (check_race_finished env r)
  unfolding check_race_finished
  check_race_finished-IsOver r saves f a n =
      if_rule IsOver r.finished (λ t. cc)
        (λ _.
          if_rule IsOver (any_racing (Dict.values r.participants)) (λ t. cc)
            (λ _.
              if_rule IsOver r.active
                (λ _.
                  finish_race_with_rule env IsOver (race_results env r) r
                    (λ ms e s h. cc (saves s r.id r.distance_meters (race_results env r)))
                    (λ ms x. (refl, refl)))
                (λ t. cc)))

  -- With the last participant who raced across the line, nobody races.
  nobody_racing :
      (r : RoomActor) (u : String) (q q' : ParticipantState)
      → is_racing q' ≡ false
      → any_racing (Dict.values (Dict.delete r.participants u)) ≡ false
      → any_racing (Dict.values (Dict.store (Dict.store r.participants u q) u q')) ≡ false
  nobody_racing r u q q' h alone = any_racing-count _ (
      ground (
        arith,
        count-any_racing _ alone,
        count_if-store is_racing (Dict.store r.participants u q) u q',
        get-store r.participants u u q,
        eq_iff u u,
        values-store r.participants u q,
      ))

  -- In a started race that is not over, when Postgres takes the results: once the last participant
  -- who is racing sends words up to the target, with a new sequence number, the race is over and
  -- its room's context is cancelled, by that very event.
  pub last_finisher_ends :
      (r : RoomActor) (u : String) (p : ParticipantState) (seq words : ℤ) (pace : Float64)
      → Saves
      → r.active ≡ true
      → r.finished ≡ false
      → Dict.get r.participants u ≡ some p
      → p.finish_rank ≡ none
      → any_racing (Dict.values (Dict.delete r.participants u)) ≡ false
      → leb_ℤ seq p.last_seq ≡ false
      → leb_ℤ r.distance_meters words ≡ true
      → let s = apply_event env (telemetry_received u seq words pace) r in
        (s.finished ≡ true) × (s.cancelled ≡ true)
  unfolding apply_event on_telemetry accept_progress publish_progress cross_line
  last_finisher_ends r u p seq words pace saves a f e n alone fresh far =
      if_rule IsOver r.active
        (λ _.
          match_rule IsOver (Dict.get r.participants u) (λ h. cc)
            (λ p' e'.
              if_rule IsOver (leb_ℤ seq p'.last_seq) (λ h. ground arith)
                (λ _.
                  let q : ParticipantState = with_progress p' seq words pace in
                  if_rule IsOver (reaches_target r q)
                    (λ _. check_race_finished-IsOver _ saves f a (nobody_racing r u q _ refl alone))
                    (λ h. ground arith))))
        (λ h. cc)
