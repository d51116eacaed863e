-- ===== src/Squirrel/Server.antt =====
-- The server's end of one connection: `ClientInterface` of
-- haysel/squirrel/src/transport/server.rs. `Instant`s are numbers on one clock; `handle` takes the
-- time of the call as an argument, for `elapsed()` and for `Instant::now()`.
pub mod Steps
pub mod Invariant
pub mod Receiving
pub mod Sending
pub mod Starting
use hayselnut.Common.{
  ℕ, ◌-◌, List, [], ◌∷◌, ◌++◌, Bool, true, false, ◌&&◌, ◌||◌, ◌==◌, ltb, leb, min, if◌then◌else◌,
  length, replicate, take, drop, Outcome, returns, panics, ◌>>=◌,
}
use hayselnut.Squirrel.Packet.{
  Packet, cmd, frame, Cmd, Frame, CmdKind, tx, rx, confirm, complete, to_u8, next_uid,
  frame_buf_size, packet_type_frame, packet_type_command,
}

pub data DispatchEvent : Type 0 where
  send : Packet → DispatchEvent
  timed_out : DispatchEvent
  received : List ℕ → DispatchEvent

pub data State : Type 0 where
  resting receiving_start receiving theoretically_done_receiving : State
  sending_start sending theoretically_done_sending : State

pub record ClientInterface : Type 0 where
  pub state : State
  pub respond_to : ℕ
  pub last_sent : ℕ
  pub uid_gen : ℕ
  pub transaction_time : ℕ
  pub max_transaction_time : ℕ
  pub recev_buf : List ℕ
  pub send_queue : List (List ℕ)
  pub send_buf : List ℕ
  pub last_sent_send_buf : List ℕ

-- What `handle` gives back: the state after the call and the events to dispatch, or a panic.
abbrev pub Handled : Type 0
Handled = Outcome (ClientInterface × List DispatchEvent)

-- `new`, at time `now`.
pub new : ℕ → ℕ → ClientInterface
new now max_time = record {
  state = resting;
  respond_to = 0;
  last_sent = 0;
  uid_gen = 0;
  transaction_time = now;
  max_transaction_time = max_time;
  recev_buf = [];
  send_queue = [];
  send_buf = [];
  last_sent_send_buf = [];
}

-- `queue`: the head of the list is the front of the deque.
pub queue : List ℕ → ClientInterface → ClientInterface
queue to_send c = record c { send_queue = to_send ∷ c.send_queue }

-- `send_queue.back().cloned().unwrap_or(vec![])`
unfoldable pub back_or_empty : List (List ℕ) → List ℕ
back_or_empty [] = []
back_or_empty (x ∷ []) = x
back_or_empty (x ∷ y ∷ xs) = back_or_empty (y ∷ xs)

-- `self.last_sent = self.uid_gen.next()`
abbrev pub advance_uid : ClientInterface → ClientInterface
advance_uid c = record c { uid_gen = next_uid c.uid_gen; last_sent = next_uid c.uid_gen }

abbrev pub cmd_packet : ℕ → ℕ → CmdKind → Packet
cmd_packet packet responding_to kind = cmd (record {
  packet = packet;
  responding_to = responding_to;
  packet_ty = packet_type_command;
  command = to_u8 kind;
  padding = 0 ∷ 0 ∷ [];
})

-- `buf[0..part.len()].copy_from_slice(&part)` on a zeroed buffer; the slice may be out of range.
pub fill_buf : List ℕ → Outcome (List ℕ)
fill_buf part =
    if leb (length part) frame_buf_size
    then returns (part ++ replicate (frame_buf_size - length part) 0)
    else panics

abbrev pub frame_packet : ℕ → ℕ → ℕ → List ℕ → Packet
frame_packet packet responding_to len bytes = frame (record {
  packet = packet;
  responding_to = responding_to;
  packet_ty = packet_type_frame;
  pad = 0;
  len = len;
  bytes = bytes;
})

pub stay : ClientInterface → Handled
stay c = returns (c, [])

-- Sends a command under a new uid.
pub send_cmd : CmdKind → ClientInterface → Handled
send_cmd kind c =
    let c' = advance_uid c in returns (c', send (cmd_packet c'.last_sent c'.respond_to kind) ∷ [])

-- Sends a command under the uid that was sent last.
pub repeat_cmd : CmdKind → ClientInterface → Handled
repeat_cmd kind c = returns (c, send (cmd_packet c.last_sent c.respond_to kind) ∷ [])

-- Sends the next part of `send_buf` (`split_off` and `swap`) under a new uid, and keeps it.
pub send_frame : ClientInterface → Handled
send_frame c =
    let at = min frame_buf_size (length c.send_buf) in
    let part = take at c.send_buf in
    let c' = record (advance_uid c) { send_buf = drop at c.send_buf; last_sent_send_buf = part } in
    fill_buf part >>= λ bytes.
    returns (c', send (frame_packet c'.last_sent c'.respond_to at bytes) ∷ [])

-- Sends the part that was sent last again.
pub repeat_frame : ClientInterface → Handled
repeat_frame c =
    let part = c.last_sent_send_buf in
    fill_buf part >>= λ bytes.
    returns (c, send (frame_packet c.last_sent c.respond_to (length part) bytes) ∷ [])

-- A transaction begins with `Tx` (the client transmits) or `Rx` (the client receives).
pub begin_transaction : ℕ → Cmd → ClientInterface → Handled
begin_transaction now p c =
    let begun = record c { respond_to = p.packet; transaction_time = now } in
    if p.command == to_u8 tx
    then send_cmd confirm (record begun { state = receiving_start; recev_buf = [] })
    else send_frame (record begun {
      state = sending_start;
      send_buf = back_or_empty c.send_queue;
      last_sent_send_buf = [];
    })

-- Appends a frame's data and confirms it. The slice `data[0..len]` panics when it is out of range.
pub accept_frame : Frame → ClientInterface → Handled
accept_frame f c =
    if leb f.len (length f.bytes)
    then send_cmd confirm (record c {
      state = receiving;
      respond_to = f.packet;
      recev_buf = c.recev_buf ++ take f.len f.bytes;
    })
    else panics

-- Hands over what was received, and confirms.
pub finish_receiving : Cmd → ClientInterface → Handled
finish_receiving p c =
    let done = record c { state = theoretically_done_receiving; respond_to = p.packet } in
    send_cmd confirm done >>= λ r. returns (r.0, received c.recev_buf ∷ r.1)

-- Answers a confirmation with the next frame, or with `Complete` where nothing is left.
pub send_next : Cmd → ClientInterface → Handled
send_next p c =
    let acked = record c { respond_to = p.packet } in
    elim acked.send_buf [
      | [] ↦ send_cmd complete (record acked { state = theoretically_done_sending })
      | _ ∷ _ ↦ send_frame (record acked { state = sending })
    ]

abbrev pub is_kind : CmdKind → Cmd → Bool
is_kind kind p = p.command == to_u8 kind

-- The `match` of `handle`, arm by arm, for each state and variant.
pub dispatch : State → Packet → ℕ → ClientInterface → Handled
unfolding stay repeat_cmd repeat_frame fill_buf begin_transaction accept_frame finish_receiving
    send_next
dispatch resting (cmd p) now c =
    if is_kind tx p || is_kind rx p then begin_transaction now p c else stay c
dispatch resting (frame f) now c = stay c
dispatch receiving_start (cmd p) now c =
    if is_kind tx p && p.packet == c.respond_to then repeat_cmd confirm c else stay c
dispatch receiving_start (frame f) now c =
    if f.responding_to == c.last_sent then accept_frame f c else stay c
dispatch receiving (cmd p) now c =
    if is_kind complete p && p.responding_to == c.last_sent then finish_receiving p c else stay c
dispatch receiving (frame f) now c =
    if f.packet == c.respond_to
    then repeat_cmd confirm c
    else if f.responding_to == c.last_sent
    then accept_frame f c
    else stay c
dispatch theoretically_done_receiving (cmd p) now c =
    if is_kind tx p || is_kind rx p
    then begin_transaction now p c
    else if is_kind complete p && p.packet == c.respond_to
    then repeat_cmd confirm c
    else stay c
dispatch theoretically_done_receiving (frame f) now c = stay c
dispatch sending_start (cmd p) now c =
    if is_kind rx p && p.packet == c.respond_to
    then repeat_frame c
    else if is_kind confirm p && p.responding_to == c.last_sent
    then send_next p c
    else stay c
dispatch sending_start (frame f) now c = stay c
dispatch sending (cmd p) now c =
    if is_kind confirm p && p.responding_to == c.last_sent
    then send_next p c
    else if is_kind confirm p && p.packet == c.respond_to
    then repeat_frame c
    else stay c
dispatch sending (frame f) now c = stay c
dispatch theoretically_done_sending (cmd p) now c =
    if is_kind tx p || is_kind rx p
    then begin_transaction now p c
    else if is_kind confirm p && p.packet == c.respond_to
    then repeat_cmd complete c
    else stay c
dispatch theoretically_done_sending (frame f) now c = stay c

-- The states in which `handle` looks at the clock.
abbrev pub is_timed : State → Bool
is_timed receiving = true
is_timed sending = true
is_timed _ = false

-- `handle`
pub handle : ClientInterface → ℕ → Packet → Handled
handle c now p =
    if is_timed c.state && ltb c.max_transaction_time (now - c.transaction_time)
    then returns (record c { state = resting }, timed_out ∷ [])
    else dispatch c.state p now c
