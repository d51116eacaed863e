-- ===== src/Squirrel/Server/Starting.antt =====
-- What `handle` never does (haysel/squirrel/src/transport/server.rs): it removes nothing from the
-- queue, and it does not leave the first state of a transaction by time.
use hayselnut.Common.{
  ℕ, ◌≡◌, refl, List, [], ◌∷◌, ◌++◌, All, List-cases, inl, inr, ◌≢◌, returns, panics, arith,
}
use hayselnut.Squirrel.Packet.{Packet, cmd, frame, Cmd, complete}
use hayselnut.Squirrel.Server.{
  ClientInterface, State, resting, receiving_start, sending_start, Handled, handle, dispatch,
  begin_transaction, send_cmd, repeat_cmd, repeat_frame, send_frame, accept_frame, finish_receiving,
  send_next, stay, cmd_packet, back_or_empty,
}
use hayselnut.Squirrel.Server.Steps.{send_frame_lem}

-- Where a handler returns, the queue is the one given.
abbrev pub KeepsQueue : List (List ℕ) → Handled → Type 0
KeepsQueue queue (returns (c, events)) = c.send_queue ≡ queue
KeepsQueue queue panics = Unit

send_frame-KeepsQueue : (c : ClientInterface) → KeepsQueue c.send_queue (send_frame c)
send_frame-KeepsQueue c = rw (send_frame_lem c) refl

begin_transaction-KeepsQueue :
    (now : ℕ) (p : Cmd) (c : ClientInterface) → KeepsQueue c.send_queue (begin_transaction now p c)
unfolding begin_transaction send_cmd
begin_transaction-KeepsQueue now p c = ground (
  arith,
  send_frame_lem (record c {
    state = sending_start;
    respond_to = p.packet;
    transaction_time = now;
    send_buf = back_or_empty c.send_queue;
    last_sent_send_buf = [];
  }),
)

repeat_frame-KeepsQueue : (c : ClientInterface) → KeepsQueue c.send_queue (repeat_frame c)
unfolding repeat_frame
repeat_frame-KeepsQueue c = ground arith

send_next-KeepsQueue : (p : Cmd) (c : ClientInterface) → KeepsQueue c.send_queue (send_next p c)
unfolding send_next send_cmd
send_next-KeepsQueue p c = elim (List-cases c.send_buf) [
  | inl e ↦ rw e refl
  | inr (x, xs, e) ↦ rw e (rw (← e) (send_frame-KeepsQueue _))
]

dispatch-KeepsQueue :
    (s : State) (p : Packet) (now : ℕ) (c : ClientInterface)
    → KeepsQueue c.send_queue (dispatch s p now c)
unfolding dispatch stay repeat_cmd send_cmd accept_frame finish_receiving
dispatch-KeepsQueue resting (cmd p) now c = ground (arith, begin_transaction-KeepsQueue now p c)
dispatch-KeepsQueue _ (cmd p) now c = ground (
  arith,
  begin_transaction-KeepsQueue now p c,
  repeat_frame-KeepsQueue c,
  send_next-KeepsQueue p c,
)
dispatch-KeepsQueue _ (frame f) now c = ground arith

-- No packet, at any time, takes anything off the queue.
pub handle-KeepsQueue :
    (c : ClientInterface) (now : ℕ) (p : Packet) → KeepsQueue c.send_queue (handle c now p)
unfolding handle
handle-KeepsQueue c now p = ground (arith, dispatch-KeepsQueue c.state p now c)

-- Packets one after the other, each with the time of its arrival; the first panic ends the run.
pub handle_all : ClientInterface → List (ℕ × Packet) → Handled
handle_all c [] = returns (c, [])
handle_all c ((now, p) ∷ rest) = elim (handle c now p) [
  | panics ↦ panics
  | returns (c', events) ↦ elim (handle_all c' rest) [
    | panics ↦ panics
    | returns (c'', more) ↦ returns (c'', events ++ more)
  ]
]

-- A packet of another transaction than the one that the connection has begun.
abbrev pub IsForeign : ClientInterface → Packet → Type 0
IsForeign c (cmd p) = p.packet ≢ c.respond_to
IsForeign c (frame f) = f.responding_to ≢ c.last_sent

receiving_start-ignores :
    (c : ClientInterface) (now : ℕ) (p : Packet)
    → c.state ≡ receiving_start
    → IsForeign c p
    → handle c now p ≡ returns (c, [])
unfolding handle dispatch stay
receiving_start-ignores c now (cmd p) s f = ground arith
receiving_start-ignores c now (frame p) s f = ground arith

-- A connection that has answered a first `Tx` does not time out: packets of other transactions, a new
-- `Tx` among them, are ignored for as long as they come, whatever their times.
pub handle_all-receiving_start :
    (c : ClientInterface) (packets : List (ℕ × Packet))
    → c.state ≡ receiving_start
    → All (λ r. IsForeign c (r.1)) packets
    → handle_all c packets ≡ returns (c, [])
unfolding handle_all
handle_all-receiving_start c [] s h = refl
handle_all-receiving_start c ((now, p) ∷ rest) s h =
    ground (arith, receiving_start-ignores c now p s h.0, handle_all-receiving_start c rest s h.1)

-- `Complete` is not taken before the first frame.
pub handle-complete_early :
    (c : ClientInterface) (now id responding : ℕ)
    → c.state ≡ receiving_start
    → handle c now (cmd_packet id responding complete) ≡ returns (c, [])
unfolding handle dispatch stay
handle-complete_early c now id responding s = ground arith
