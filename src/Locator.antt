-- ===== src/Locator.antt =====
-- backend/internal/roomlocator/locator.go: who runs a room, and who was evicted from one, in Redis.
pub mod Claims
use Prim.Native.String.{◌++◌}
use aviron.Base.{
  ℕ, ◌≡◌, refl, ◌*◌, String, Bool, true, false, List, [], ◌∷◌, Option, none, some, if◌then◌else◌,
}
use aviron.Base.Strings.{trim_prefix}
use aviron.Room.State.{Payload}

-- What a question to another process is answered with: an error, or a value.
pub data Answer {ℓ} (A : Type ℓ) : Type ℓ where
  failure : Answer A
  answer : A → Answer A

-- To prove a property of a match on an answer.
pub answer_rule {ℓ κ ι} :
    {A : Type ℓ} {B : Type κ} (P : B → Type ι) (x : Answer A) {f : B} {g : A → B}
    → (x ≡ failure → P f)
    → ((a : A) → x ≡ answer a → P (g a))
    → P (elim x [ failure ↦ f | answer a ↦ g a ])
answer_rule P failure f g = f refl
answer_rule P (answer a) f g = g a refl

-- The commands of Redis that the package uses, over the states of a server. Each comes with its
-- answer and the state that it leaves; `none` stands for redis.Nil.
pub record Redis (S : Type 0) : Type 0 where
  pub set_nx : String → String → ℕ → S → Answer Bool × S
  pub expire : String → ℕ → S → Answer Bool × S
  pub del : String → S → Answer (Unit {0}) × S
  pub get : String → S → Answer (Option String)
  pub s_add : String → String → S → Answer (Unit {0}) × S
  pub s_is_member : String → String → S → Answer Bool
  pub publish : String → Payload → S → Answer (Unit {0}) × S

-- RoomEvent: the race and the instance of a `created` and of a `removed`, or another type.
pub data RoomEvent : Type 0 where
  created : String → String → RoomEvent
  removed : String → String → RoomEvent
  other_event : RoomEvent

-- `Locator`, with json.Marshal and json.Unmarshal, `none` for an error.
pub record Locator : Type 0 where
  pub instance_id : String
  pub marshal : RoomEvent → Option Payload
  pub unmarshal : Payload → Option RoomEvent

abbrev pub room_events_channel : String
room_events_channel = "room:events"

-- in nanoseconds
abbrev pub claim_ttl : ℕ
claim_ttl = 60000000000

abbrev pub room_key : String → String
room_key race_id = "room:" ++ race_id

abbrev pub evicted_key : String → String
evicted_key race_id = "race:" ++ race_id ++ ":evicted"

-- What Claim returns: `claimed`, and whether the error is nil.
pub record Claimed : Type 0 where
  pub claimed : Bool
  pub is_ok : Bool

-- strings.TrimPrefix(val, "instance:")
abbrev pub instance_of : String → String
instance_of val = elim (trim_prefix val "instance:") [ none ↦ val | some id ↦ id ]

module _ {S : Type 0} (redis : Redis S) (l : Locator) where
  -- publish: whether the error is nil
  unfoldable pub publish : RoomEvent → S → Bool × S
  publish ev s = elim (l.marshal ev) [
    | none ↦ (false, s)
    | some payload ↦
        let (published, s') = redis.publish room_events_channel payload s in
        elim published [ failure ↦ (false, s') | answer u ↦ (true, s') ]
  ]

  unfoldable pub claim : String → S → Claimed × S
  claim race_id s =
      let (set, s') = redis.set_nx (room_key race_id) ("instance:" ++ l.instance_id) claim_ttl s in
      let (published, s'') = publish (created race_id l.instance_id) s' in
      elim set [
        | failure ↦ (record { claimed = false; is_ok = false }, s')
        | answer claimed ↦
            if claimed
            then (record { claimed = true; is_ok = published }, s'')
            else (record { claimed = false; is_ok = true }, s')
      ]

  -- Refresh: whether the error is nil
  unfoldable pub refresh : String → S → Bool × S
  refresh race_id s =
      let (still_owned, s') = redis.expire (room_key race_id) claim_ttl s in
      elim still_owned [ failure ↦ (false, s') | answer owned ↦ (owned, s') ]

  -- Release: whether the error is nil
  unfoldable pub release : String → S → Bool × S
  release race_id s =
      let (deleted, s') = redis.del (room_key race_id) s in
      let published = publish (removed race_id l.instance_id) s' in
      elim deleted [ failure ↦ (false, s') | answer u ↦ published ]

module _ {S : Type 0} (redis : Redis S) where
  -- MarkEvicted: whether the error is nil
  unfoldable pub mark_evicted : String → String → S → Bool × S
  mark_evicted race_id user_id s =
      let (added, s') = redis.s_add (evicted_key race_id) user_id s in
      elim added [ failure ↦ (false, s') | answer u ↦ (true, s') ]

  unfoldable pub is_evicted : String → String → S → Answer Bool
  is_evicted race_id user_id s = redis.s_is_member (evicted_key race_id) user_id s

  unfoldable pub owner : String → S → Answer (Option String)
  owner race_id s = elim (redis.get (room_key race_id) s) [
    | failure ↦ failure
    | answer none ↦ answer none
    | answer (some val) ↦ answer (some (instance_of val))
  ]

module _ (l : Locator) where
  -- SubscribeRoomEvents: the events of the payloads of a subscription
  unfoldable pub room_events : List Payload → List RoomEvent
  room_events [] = []
  room_events (payload ∷ rest) =
      let events = room_events rest in
      elim (l.unmarshal payload) [ none ↦ events | some ev ↦ ev ∷ events ]
