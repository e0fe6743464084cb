-- ===== src/Gateway/Session/Writing.antt =====
-- backend/internal/wsgateway/endpoint.go: `writeLoop`, and what a client has got when the room is over.
use aviron.Base.{
  ◌≡◌, refl, sym, ◌∙◌, Bool, true, false, List, [], ◌∷◌, ◌++◌, All, subst, arith, if_rule,
  if◌then◌else◌,
}
use mathlib.Core.List.{append_assoc, append-nil}
use aviron.Room.State.{Payload}

pub record Writer : Type 0 where
  -- what is in connCh, and what conn.Write has taken
  pub queue : List Payload
  pub written : List Payload
  pub returned : Bool

-- What the outer `select` picks; it can pick only what is ready.
pub data WritePick : Type 0 where
  -- case msg := <-connCh
  next_message : WritePick
  -- case <-hubClosed
  hub_closed : WritePick
  -- case <-ctx.Done()
  conn_done : WritePick

-- Whether conn.Write returns no error, by what was written before and the message.
abbrev pub Socket : Type 0
Socket = List Payload → Payload → Bool

unfoldable pub write_next : Socket → Writer → Writer
write_next socket w = elim w.queue [
  | [] ↦ w
  | m ∷ rest ↦
      if socket w.written m
      then record w { queue = rest; written = w.written ++ m ∷ [] }
      else record w { queue = rest; returned = true }
]

-- The inner loop: all that is buffered, up to a write that fails.
unfoldable pub write_rest : Socket → List Payload → List Payload → List Payload
write_rest socket [] written = written
write_rest socket (m ∷ ms) written =
    let rest = write_rest socket ms (written ++ m ∷ []) in
    if socket written m then rest else written

unfoldable pub write_turn : Socket → WritePick → Writer → Writer
write_turn socket next_message w = write_next socket w
write_turn socket hub_closed w = record w {
  queue = [];
  written = write_rest socket w.queue w.written;
  returned = true;
}
write_turn socket conn_done w = record w { returned = true }

unfoldable pub write_loop : Socket → List WritePick → Writer → Writer
write_loop socket [] w = w
write_loop socket (p ∷ ps) w =
    let rest = write_loop socket ps (write_turn socket p w) in if w.returned then w else rest

module _ (socket : Socket)
    (takes : (written : List Payload) (m : Payload) → socket written m ≡ true) where
  write_rest-all : (ms written : List Payload) → write_rest socket ms written ≡ written ++ ms
  unfolding write_rest
  write_rest-all [] written = sym (append-nil written)
  write_rest-all (m ∷ ms) written =
      if_rule (λ xs. xs ≡ written ++ m ∷ ms) (socket written m)
        (λ _. write_rest-all ms (written ++ m ∷ []) ∙ append_assoc written (m ∷ []) ms)
        (λ f. ground (arith, takes written m))

  -- A turn for a message that there is leaves what is written and queued, taken together, as it was.
  write_next-all :
      (q written : List Payload) (r : Bool)
      → r ≡ false
      → (write_next socket (record { queue = q; written = written; returned = r })).returned ≡ false
        × (write_next socket (record { queue = q; written = written; returned = r })).written
            ++ (write_next socket (record { queue = q; written = written; returned = r })).queue
          ≡ written ++ q
  unfolding write_next
  write_next-all [] written r still = (still, refl)
  write_next-all (m ∷ ms) written r still =
      if_rule (λ (w : Writer). w.returned ≡ false × w.written ++ w.queue ≡ written ++ m ∷ ms)
        (socket written m) (λ _. (still, append_assoc written (m ∷ []) ms))
        (λ f. ground (arith, takes written m))

  -- Where every write succeeds and the connection's own context is not done, whatever the `select`
  -- picks before it picks the closed hub, all that was queued is written, in its order.
  pub write_loop-flushes :
      (ps : List WritePick) (w : Writer)
      → All (λ p. p ≡ next_message) ps
      → w.returned ≡ false
      → (write_loop socket (ps ++ hub_closed ∷ []) w).written ≡ w.written ++ w.queue
  unfolding write_loop write_turn
  write_loop-flushes [] w h r =
      if_rule (λ (x : Writer). x.written ≡ w.written ++ w.queue) w.returned
        (λ t. ground (arith, r, t)) (λ _. write_rest-all w.queue w.written)
  write_loop-flushes (p ∷ ps) w h r =
      let next = write_next-all w.queue w.written w.returned r in
      subst
        (λ q. (write_loop socket ((q ∷ ps) ++ hub_closed ∷ []) w).written ≡ w.written ++ w.queue)
        (sym (h.0))
        (if_rule (λ (x : Writer). x.written ≡ w.written ++ w.queue) w.returned
          (λ t. ground (arith, r, t))
          (λ _. write_loop-flushes ps (write_next socket w) (h.1) (next.0) ∙ next.1))
