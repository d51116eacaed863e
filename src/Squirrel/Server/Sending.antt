-- ===== src/Squirrel/Server/Sending.antt =====
-- A transaction in which the server sends, packet by packet: what `handle` does with each packet of
-- the client, and with its repetition (haysel/squirrel/src/transport/server.rs).
use hayselnut.Common.{ℕ, ◌-◌, ◌≤◌, ◌≡◌, ◌⊎◌, List, [], ◌∷◌, take, returns, arith}
use hayselnut.Squirrel.Packet.{rx, confirm, complete, next_uid, next_uid-ne, frame_buf_size}
use hayselnut.Squirrel.Server.{
  ClientInterface, State, sending_start, sending, theoretically_done_sending, send, handle,
  dispatch, advance_uid, cmd_packet, begin_transaction, send_next, send_cmd, repeat_cmd,
  back_or_empty,
}
use hayselnut.Squirrel.Server.Steps.{
  part_packet, part_sent, send_frame_lem, repeat_frame_lem, length-part,
}
use hayselnut.Squirrel.Server.Receiving.{IsAtRest}

-- The states in which confirmations are taken.
abbrev pub TakesConfirms : State → Type 0
TakesConfirms s = (s ≡ sending_start) ⊎ (s ≡ sending)

module _ (c : ClientInterface) (id : ℕ) where
  abbrev rx_loaded : ℕ → ClientInterface
  rx_loaded t = record c {
    state = sending_start;
    respond_to = id;
    transaction_time = t;
    send_buf = back_or_empty c.send_queue;
    last_sent_send_buf = [];
  }

  -- After `Rx` under the uid `id` at time `t`, after a confirmation while data is left, and after
  -- the last one.
  abbrev pub rx_begun : ℕ → ClientInterface
  rx_begun t = part_sent (rx_loaded t)

  abbrev pub part_confirmed : ClientInterface
  part_confirmed = part_sent (record c { state = sending; respond_to = id })

  abbrev pub rx_done : ClientInterface
  rx_done = record (advance_uid c) { state = theoretically_done_sending; respond_to = id }

  pub handle-rx :
      (t : ℕ)
      → IsAtRest c.state
      → handle c t (cmd_packet id 0 rx)
        ≡ returns (
          rx_begun t,
          send (
                part_packet
                  (next_uid c.uid_gen)
                  id
                  (take frame_buf_size (back_or_empty c.send_queue)))
              ∷ [],
        )
  unfolding handle dispatch begin_transaction
  handle-rx t s = ground (arith, send_frame_lem (rx_loaded t))

  pub handle-rx_again :
      (t u : ℕ)
      → handle (rx_begun t) u (cmd_packet id 0 rx)
        ≡ returns (
          rx_begun t,
          send (
                part_packet
                  (next_uid c.uid_gen)
                  id
                  (take frame_buf_size (back_or_empty c.send_queue)))
              ∷ [],
        )
  unfolding handle dispatch
  handle-rx_again t u =
      ground (arith, repeat_frame_lem (rx_begun t) (length-part (back_or_empty c.send_queue)))

  pub handle-confirm_part :
      (t x : ℕ) (xs : List ℕ)
      → TakesConfirms c.state
      → c.send_buf ≡ x ∷ xs
      → t - c.transaction_time ≤ c.max_transaction_time
      → handle c t (cmd_packet id c.last_sent confirm)
        ≡ returns (
          part_confirmed,
          send (part_packet (next_uid c.uid_gen) id (take frame_buf_size c.send_buf)) ∷ [],
        )
  unfolding handle dispatch send_next
  handle-confirm_part t x xs s e h =
      ground (arith, send_frame_lem (record c { state = sending; respond_to = id }))

  pub handle-confirm_part_again :
      (t : ℕ)
      → c.last_sent ≡ c.uid_gen
      → t - c.transaction_time ≤ c.max_transaction_time
      → handle part_confirmed t (cmd_packet id c.last_sent confirm)
        ≡ returns (
          part_confirmed,
          send (part_packet (next_uid c.uid_gen) id (take frame_buf_size c.send_buf)) ∷ [],
        )
  unfolding handle dispatch
  handle-confirm_part_again t e h =
      ground
        (arith, repeat_frame_lem part_confirmed (length-part c.send_buf), next_uid-ne c.uid_gen)

  pub handle-confirm_end :
      (t : ℕ)
      → TakesConfirms c.state
      → c.send_buf ≡ []
      → t - c.transaction_time ≤ c.max_transaction_time
      → handle c t (cmd_packet id c.last_sent confirm)
        ≡ returns (rx_done, send (cmd_packet (next_uid c.uid_gen) id complete) ∷ [])
  unfolding handle dispatch send_next send_cmd
  handle-confirm_end t s e h = ground arith

  pub handle-confirm_end_again :
      (t : ℕ)
      → handle rx_done t (cmd_packet id c.last_sent confirm)
        ≡ returns (rx_done, send (cmd_packet (next_uid c.uid_gen) id complete) ∷ [])
  unfolding handle dispatch repeat_cmd
  handle-confirm_end_again t = ground arith
