-- ===== src/Consumer/Order.antt =====
-- The order of offsets in the loop of workout.sample, and what its commits cover.
use aviron.Base.{
  ℕ, ◌<◌, ◌≤◌, ◌≡◌, refl, Bool, false, ◌&&◌, List, [], ◌∷◌, All, All-append, arith, count_if,
  if_rule,
}
use aviron.Room.State.{Instant}
use aviron.Consumer.Data.{
  WorkoutSample, KafkaMessage, Decoders, Broker, written, received, received_in, committed_in,
  covers,
}
use aviron.Consumer.Batch.{add, reset}
use aviron.Consumer.WorkoutLoop.{WorkoutLoop, flush_with}
use aviron.Consumer.Accounting.{decodes_to}

-- Messages, the newest first, in the order of their offsets.
abbrev pub IsBelow : ℕ → KafkaMessage → Type 0
IsBelow k m = m.offset < k

abbrev pub Descends : List KafkaMessage → Type 0
Descends [] = Unit
Descends (m ∷ ms) = All (IsBelow m.offset) ms × Descends ms

-- What is committed was received before all that the batch has.
abbrev pub IsBehind : WorkoutLoop → Type 0
IsBehind l =
    ((k : ℕ)
      → All (IsBelow k) (received_in l.log)
      → All (IsBelow k) (committed_in l.log) × All (IsBelow k) l.batch.messages)
    × All (λ (m : KafkaMessage). All (IsBelow m.offset) (committed_in l.log)) l.batch.messages

pub committed-IsBehind :
    (b : Broker) (l : WorkoutLoop) → IsBehind l → IsBehind (flush_with b written l)
unfolding flush_with reset received_in committed_in
committed-IsBehind b l (older, _) = (
  λ k h. (
    if_rule (All (IsBelow k)) (b.commits l.batch.messages)
        (λ _.
          All-append (IsBelow k) l.batch.messages (committed_in l.log) (older k h).1 (older k h).0)
        (λ _. (older k h).0),
    tt,
  ),
  tt,
)

pub add-IsBehind :
    (m : KafkaMessage) (s : WorkoutSample) (now : Instant) (l : WorkoutLoop)
    → All (IsBelow m.offset) (received_in l.log)
    → IsBehind l
    → IsBehind (record { batch = add s m now l.batch; log = received m ∷ l.log })
unfolding add received_in committed_in
add-IsBehind m s now l newest (older, behind) = (
  λ k h. (
    (older k (h.1)).0,
    All-append (IsBelow k) l.batch.messages (m ∷ []) (older k (h.1)).1 (h.0, tt),
  ),
  All-append (λ (n : KafkaMessage). All (IsBelow n.offset) (committed_in l.log)) l.batch.messages
      (m ∷ []) behind ((older m.offset newest).0, tt),
)

pub below-covers : (o : ℕ) (ms : List KafkaMessage) → All (IsBelow o) ms → covers o ms ≡ false
below-covers o [] h = refl
below-covers o (m ∷ ms) h = ground (arith, h.0, below-covers o ms (h.1))

-- No test counts what is behind the messages of a batch.
pub uncovered_batch :
    (dec : Decoders) (g : WorkoutSample → Bool) (committed ms : List KafkaMessage)
    → All (λ (m : KafkaMessage). All (IsBelow m.offset) committed) ms
    → count_if (λ (m : KafkaMessage). covers m.offset committed && decodes_to dec g m) ms ≡ 0
uncovered_batch dec g committed [] h = refl
uncovered_batch dec g committed (m ∷ ms) h =
    ground (arith, below-covers m.offset committed (h.0), uncovered_batch dec g committed ms (h.1))

pub count_if-both :
    {A : Type 0} (f g : A → Bool) (xs : List A) → count_if (λ x. f x && g x) xs ≤ count_if g xs
count_if-both f g [] = omega arith
count_if-both f g (x ∷ xs) = ground (arith, count_if-both f g xs)
