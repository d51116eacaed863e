-- ===== src/Squirrel/Server/Receiving.antt =====
-- A transaction in which the server receives, packet by packet: what `handle` does with each packet
-- of the client, and with its repetition (haysel/squirrel/src/transport/server.rs).
use hayselnut.Common.{
  ℕ, ◌-◌, ◌≤◌, ◌≡◌, ◌≢◌, ◌⊎◌, refl, List, [], ◌∷◌, ◌++◌, length, take, replicate, returns, arith,
  take-append, length-append,
}
use hayselnut.Squirrel.Packet.{confirm, complete, tx, next_uid, frame_buf_size}
use hayselnut.Squirrel.Server.{
  ClientInterface, State, resting, receiving_start, receiving, theoretically_done_receiving,
  theoretically_done_sending, send, received, handle, dispatch, advance_uid, cmd_packet,
  begin_transaction, send_cmd, repeat_cmd, accept_frame, finish_receiving,
}
use hayselnut.Squirrel.Server.Steps.{part_packet, padded}

-- The states in which a new transaction may begin.
abbrev pub IsAtRest : State → Type 0
IsAtRest s = (s ≡ resting) ⊎ ((s ≡ theoretically_done_receiving) ⊎ (s ≡ theoretically_done_sending))

-- The states in which frames are taken.
abbrev pub TakesFrames : State → Type 0
TakesFrames s = (s ≡ receiving_start) ⊎ (s ≡ receiving)

module _ (c : ClientInterface) (id : ℕ) where
  -- After `Tx` under the uid `id` at time `t`, after a frame, and after `Complete`.
  abbrev pub tx_begun : ℕ → ClientInterface
  tx_begun t = record (advance_uid c) {
    state = receiving_start;
    respond_to = id;
    transaction_time = t;
    recev_buf = [];
  }

  abbrev pub part_taken : List ℕ → ClientInterface
  part_taken part = record (advance_uid c) {
    state = receiving;
    respond_to = id;
    recev_buf = c.recev_buf ++ part;
  }

  abbrev pub tx_done : ClientInterface
  tx_done = record (advance_uid c) { state = theoretically_done_receiving; respond_to = id }

  pub handle-tx :
      (t : ℕ)
      → IsAtRest c.state
      → handle c t (cmd_packet id 0 tx)
        ≡ returns (tx_begun t, send (cmd_packet (next_uid c.uid_gen) id confirm) ∷ [])
  unfolding handle dispatch begin_transaction send_cmd
  handle-tx t s = ground arith

  pub handle-tx_again :
      (t u : ℕ)
      → handle (tx_begun t) u (cmd_packet id 0 tx)
        ≡ returns (tx_begun t, send (cmd_packet (next_uid c.uid_gen) id confirm) ∷ [])
  unfolding handle dispatch repeat_cmd
  handle-tx_again t u = ground arith

  take_padded : (part : List ℕ) → take (length part) (padded part) ≡ part
  take_padded part = take-append (length part) part _ refl

  pub handle-part :
      (t : ℕ) (part : List ℕ)
      → TakesFrames c.state
      → id ≢ c.respond_to
      → t - c.transaction_time ≤ c.max_transaction_time
      → handle c t (part_packet id c.last_sent part)
        ≡ returns (part_taken part, send (cmd_packet (next_uid c.uid_gen) id confirm) ∷ [])
  unfolding handle dispatch accept_frame send_cmd
  handle-part t part s n h = ground (
    arith,
    take_padded part,
    length-append part (replicate {A = ℕ} (frame_buf_size - length part) 0),
  )

  pub handle-part_again :
      (t : ℕ) (part : List ℕ)
      → t - c.transaction_time ≤ c.max_transaction_time
      → handle (part_taken part) t (part_packet id c.last_sent part)
        ≡ returns (part_taken part, send (cmd_packet (next_uid c.uid_gen) id confirm) ∷ [])
  unfolding handle dispatch repeat_cmd
  handle-part_again t part h = ground arith

  pub handle-complete :
      (t : ℕ)
      → c.state ≡ receiving
      → t - c.transaction_time ≤ c.max_transaction_time
      → handle c t (cmd_packet id c.last_sent complete)
        ≡ returns (
          tx_done,
          received c.recev_buf ∷ (send (cmd_packet (next_uid c.uid_gen) id confirm) ∷ []),
        )
  unfolding handle dispatch finish_receiving send_cmd
  handle-complete t s h = ground arith

  pub handle-complete_again :
      (t : ℕ)
      → handle tx_done t (cmd_packet id c.last_sent complete)
        ≡ returns (tx_done, send (cmd_packet (next_uid c.uid_gen) id confirm) ∷ [])
  unfolding handle dispatch repeat_cmd
  handle-complete_again t = ground arith
