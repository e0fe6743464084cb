-- ===== src/Tests/Fixtures.antt =====
-- A world in which every call succeeds, Go walks a map in its entries' order, and an encoded
-- message is one byte.
use mathlib.Core.List.Perm
use aviron.Base.{ℕ, String, List, [], ◌∷◌, Bool, false, Option, none, some, length}
use aviron.Base.Int.{pos, pos_part}
use aviron.Base.Dict
use aviron.Base.Dict.{Dict}
use aviron.Room.State.{
  Message, race_state, race_started, race_expired, race_finished, participant_joined,
  telemetry_received, activated, Payload, ParticipantState, RoomActor,
}
use aviron.Room.Env.{Env}
use aviron.Room.Run.{Turn, receive, tick, done, send}

abbrev encode : Message → Payload
encode (race_state n ps) = 1 ∷ []
encode (race_started prompt) = 2 ∷ []
encode race_expired = 3 ∷ []
encode (race_finished rs) = 4 ∷ []

abbrev pub calm : Env
calm = record {
  now = λ r. length r.calls;
  order = λ r ps. ps;
  answer = λ r c. none;
  marshal = λ m. some (encode m);
  float64 = pos_part;
  order-perm = λ r ps. Perm.refl ps;
}

-- Two players join, the race starts, and the first of them types all three words.
abbrev pub short_race : List Turn
short_race =
    send (participant_joined "ann" "Ann")
    ∷ receive
    ∷ send (participant_joined "bob" "Bob")
    ∷ receive
    ∷ send (activated "one two three")
    ∷ receive
    ∷ send (telemetry_received "ann" (pos 1) (pos 3) 60)
    ∷ receive
    ∷ tick
    ∷ done
    ∷ []

-- Someone with so many words.
abbrev pub player : String → ℕ → Option ℕ → ParticipantState
player name words disconnected_at = record {
  user_id = name;
  display_name = name;
  words_correct = pos words;
  last_seq = pos words;
  pace_watt = 60;
  connected_at = 0;
  disconnected_at = disconnected_at;
  disconnected_count = 0;
  grace_timer = none;
  finished_at = none;
  finish_rank = none;
}

-- A room for three words with some people in it.
abbrev pub room_with : Bool → Dict ParticipantState → RoomActor
room_with active people = record {
  id = "r1";
  participants = people;
  evicted = Dict.empty;
  departed_participants = Dict.empty;
  total_participants = 2;
  distance_meters = pos 3;
  active = active;
  tick_count = 0;
  inbox = [];
  broadcast = [];
  cancelled = false;
  started_at = 0;
  finished = false;
  finished_count = 0;
  calls = [];
}

-- Bob with one word, and no one else.
abbrev pub bob_only : Dict ParticipantState
bob_only = Dict.store Dict.empty "bob" (player "bob" 1 none)

-- Bob, and Ann who is disconnected.
abbrev pub bob_and_ann : Dict ParticipantState
bob_and_ann = Dict.store bob_only "ann" (player "ann" 2 (some 7))
