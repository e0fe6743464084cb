-- ===== src/Gateway/Hub/Delivery.antt =====
-- What a hub delivers, and to whom.
use mathlib.Core.List.{append-nil, append_assoc}
use aviron.Base.{
  ℕ, suc, length-append, ◌+◌, ◌≤◌, ◌≡◌, refl, ap, ◌∙◌, true, false, List, [], ◌∷◌, ◌++◌, length,
  arith, if_rule, All,
}
use aviron.Room.State.{Payload}
use aviron.Gateway.Hub.{
  Conn, RaceHub, broadcast, room_closed, other, HubInput, envelope, out_closed, register,
  unregister, shutdown, stop, written, new_race_hub, conn_buffer_size, deliver, deliver_all,
  cancel_all, take_written, on_envelope, on_input, run,
}

length-deliver_all : (m : Payload) (cs : List Conn) → length (deliver_all m cs) ≡ length cs
unfolding deliver_all
length-deliver_all m [] = refl
length-deliver_all m (c ∷ cs) = omega (arith, length-deliver_all m cs)

length-cancel_all : (cs : List Conn) → length (cancel_all cs) ≡ length cs
unfolding cancel_all
length-cancel_all [] = refl
length-cancel_all (c ∷ cs) = omega (arith, length-cancel_all cs)

length-take_written : (ch : ℕ) (cs : List Conn) → length (take_written ch cs) ≡ length cs
unfolding take_written
length-take_written ch [] = refl
length-take_written ch (c ∷ cs) = ground (arith, length-take_written ch cs)

-- The count that the metrics read is that of the connections held.
abbrev pub IsCounted : RaceHub → Type 0
IsCounted h = h.conn_count ≡ length h.conns

on_input-IsCounted : (i : HubInput) (h : RaceHub) → IsCounted h → IsCounted (on_input i h)
unfolding on_input on_envelope
on_input-IsCounted (envelope (broadcast m)) h v = omega (arith, length-deliver_all m h.conns)
on_input-IsCounted (envelope room_closed) h v = v
on_input-IsCounted (envelope other) h v = v
on_input-IsCounted out_closed h v = v
on_input-IsCounted (register ch) h v = ground arith
on_input-IsCounted (unregister ch) h v = refl
on_input-IsCounted shutdown h v = omega (arith, length-cancel_all h.conns)
on_input-IsCounted stop h v = v
on_input-IsCounted (written ch) h v = omega (arith, length-take_written ch h.conns)

run-IsCounted_from : (is : List HubInput) (h : RaceHub) → IsCounted h → IsCounted (run is h)
unfolding run
run-IsCounted_from [] h v = v
run-IsCounted_from (i ∷ is) h v =
    if_rule IsCounted h.closed (λ _. v)
      (λ _. run-IsCounted_from is (on_input i h) (on_input-IsCounted i h v))

-- Whatever a hub receives, and in whatever order, the count that it shows to the metrics is the
-- number of connections that it holds.
pub run-IsCounted : (is : List HubInput) → IsCounted (run is new_race_hub)
unfolding new_race_hub
run-IsCounted is = run-IsCounted_from is _ refl

-- The envelopes of a list of broadcasts.
abbrev pub broadcasts : List Payload → List HubInput
broadcasts [] = []
broadcasts (m ∷ ms) = envelope (broadcast m) ∷ broadcasts ms

-- Every message goes behind what a connection has queued.
abbrev pub queue_all : List Payload → List Conn → List Conn
queue_all ms [] = []
queue_all ms (c ∷ cs) = record c { queue = c.queue ++ ms } ∷ queue_all ms cs

-- There is room for `n` more messages at every connection.
abbrev pub HasRoom : ℕ → List Conn → Type 0
HasRoom n = All (λ (c : Conn). length c.queue + n ≤ conn_buffer_size)

deliver_all-room :
    (m : Payload) (n : ℕ) (cs : List Conn)
    → HasRoom (suc n) cs
    → (deliver_all m cs ≡ queue_all (m ∷ []) cs) × HasRoom n (deliver_all m cs)
unfolding deliver_all deliver
deliver_all-room m n [] h = (refl, tt)
deliver_all-room m n (c ∷ cs) h =
    ground (arith, deliver_all-room m n cs h.1, length-append c.queue (m ∷ []))

queue_all-append :
    (m : Payload) (ms : List Payload) (cs : List Conn)
    → queue_all ms (queue_all (m ∷ []) cs) ≡ queue_all (m ∷ ms) cs
queue_all-append m ms [] = refl
queue_all-append m ms (c ∷ cs) =
    ground (arith, append_assoc c.queue (m ∷ []) ms, queue_all-append m ms cs)

queue_all-nil : (cs : List Conn) → queue_all [] cs ≡ cs
queue_all-nil [] = refl
queue_all-nil (c ∷ cs) = ground (arith, append-nil c.queue, queue_all-nil cs)

-- After its end a hub does nothing.
run_closed : (is : List HubInput) (h : RaceHub) → h.closed ≡ true → run is h ≡ h
unfolding run
run_closed [] h c = refl
run_closed (i ∷ is) h c = rw c

run_open :
    (i : HubInput) (is : List HubInput) (h : RaceHub)
    → h.closed ≡ false
    → run (i ∷ is) h ≡ run is (on_input i h)
unfolding run
run_open i is h f = if_rule (λ x. x ≡ run is (on_input i h)) h.closed (λ t. cc) (λ _. refl)

-- Before a hub that runs closes, it hands on all that it received: with room at every connection,
-- after any broadcasts and then the end of the room, whatever comes later, the hub is closed, and
-- every connection has all the messages queued, in their order, behind what it had.
pub closing_delivers_all :
    (ms : List Payload) (later : List HubInput) (h : RaceHub)
    → h.closed ≡ false
    → HasRoom (length ms) h.conns
    → let h' = run (broadcasts ms ++ envelope room_closed ∷ later) h in
      (h'.conns ≡ queue_all ms h.conns) × (h'.closed ≡ true)
unfolding run on_input on_envelope
closing_delivers_all [] later h f room =
    rw f (ground (arith, run_closed later (record h { closed = true }), queue_all-nil h.conns))
closing_delivers_all (m ∷ ms) later h f room =
    let (sent, room') = deliver_all-room m (length ms) h.conns room in
    let (all, end) =
      closing_delivers_all ms later (record h { conns = deliver_all m h.conns }) f room' in
    let step =
      run_open (envelope (broadcast m)) (broadcasts ms ++ envelope room_closed ∷ later) h f in
    (
      ap (λ (x : RaceHub). x.conns) step
          ∙ all
          ∙ ap (queue_all ms) sent
          ∙ queue_all-append m ms h.conns,
      ap (λ (x : RaceHub). x.closed) step ∙ end,
    )
