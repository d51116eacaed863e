-- ===== src/Squirrel/Server/Invariant.antt =====
-- What holds of a `ClientInterface` between two packets, and what it sends
-- (haysel/squirrel/src/transport/server.rs).
use hayselnut.Common.{
  ℕ, ◌-◌, ◌^◌, ◌≤◌, ◌<◌, ◌≡◌, ◌≢◌, ◌⊎◌, inl, inr, List, ◌==◌, length, replicate, take, All, returns,
  panics, arith, Bool-cases, List-cases, length-append, length-replicate, drop-append, refl,
}
use hayselnut.Squirrel.Packet.{
  Packet, cmd, frame, Cmd, Frame, CmdKind, confirm, complete, next_uid, next_uid-lt, uid,
  frame_buf_size,
}
use hayselnut.Squirrel.Wire
use hayselnut.Squirrel.Wire.{FrameIsValid}
use hayselnut.Squirrel.Server.Steps.{part_packet, send_frame_lem, repeat_frame_lem, length-part}
use hayselnut.Squirrel.Server.{
  queue, ClientInterface, DispatchEvent, send, timed_out, received, State, resting, receiving_start,
  receiving, handle, dispatch, send_frame, send_cmd, repeat_frame, repeat_cmd, send_next,
  accept_frame, begin_transaction, finish_receiving, Handled, new, stay,
}

pub record IsValid (c : ClientInterface) : Type 0 where
  pub part_fits : length c.last_sent_send_buf ≤ frame_buf_size
  pub respond_u32 : c.respond_to < 2 ^ 32
  pub last_u32 : c.last_sent < 2 ^ 32
  pub last_generated : c.last_sent ≡ c.uid_gen

-- An event that sends carries a packet that the wire format can hold.
abbrev pub EventIsValid : DispatchEvent → Type 0
EventIsValid (send p) = Wire.IsValid p
EventIsValid timed_out = Unit
EventIsValid (received bytes) = Unit

-- A call of a handler that does not panic, leaves a valid state and sends valid packets.
abbrev pub IsSafe : Handled → Type 0
IsSafe (returns (c, events)) = IsValid c × All EventIsValid events
IsSafe panics = ⊥

pub part_packet-IsValid :
    (packet responding : ℕ) (part : List ℕ)
    → packet < 2 ^ 32
    → responding < 2 ^ 32
    → length part ≤ frame_buf_size
    → Wire.IsValid (part_packet packet responding part)
part_packet-IsValid packet responding part hp hr h =
    let zeros = frame_buf_size - length part in
    record {
      packet_u32 = hp;
      responding_u32 = hr;
      typed = refl;
      len_fits = h;
      sized =
          omega (
            arith,
            length-append part (replicate {A = ℕ} zeros 0),
            length-replicate {A = ℕ} zeros 0,
          );
      zeroed = drop-append (length part) part _ refl;
    }

-- The parts of `handle` that send, from a state whose uid of reply is in range.
send_cmd-IsSafe :
    (kind : CmdKind) (c : ClientInterface)
    → length c.last_sent_send_buf ≤ frame_buf_size
    → c.respond_to < 2 ^ 32
    → IsSafe (send_cmd kind c)
unfolding send_cmd
send_cmd-IsSafe kind c h r = ground (arith, next_uid-lt c.uid_gen)

repeat_cmd-IsSafe : (kind : CmdKind) (c : ClientInterface) → IsValid c → IsSafe (repeat_cmd kind c)
unfolding repeat_cmd
repeat_cmd-IsSafe kind c v = ground arith

send_frame-IsSafe : (c : ClientInterface) → c.respond_to < 2 ^ 32 → IsSafe (send_frame c)
send_frame-IsSafe c r =
    let part = take frame_buf_size c.send_buf in
    let u = next_uid-lt c.uid_gen in
    let p = length-part c.send_buf in
    rw (send_frame_lem c) (
      record { part_fits = p; respond_u32 = r; last_u32 = u; last_generated = refl },
      (part_packet-IsValid (next_uid c.uid_gen) c.respond_to part u r p, tt),
    )

repeat_frame-IsSafe : (c : ClientInterface) → IsValid c → IsSafe (repeat_frame c)
repeat_frame-IsSafe c v =
    let part = c.last_sent_send_buf in
    rw (repeat_frame_lem c v.part_fits) (
      v,
      (part_packet-IsValid c.last_sent c.respond_to part v.last_u32 v.respond_u32 v.part_fits, tt),
    )

accept_frame-IsSafe :
    (f : Frame) (c : ClientInterface)
    → IsValid c
    → f.packet < 2 ^ 32
    → f.len ≤ length f.bytes
    → IsSafe (accept_frame f c)
unfolding accept_frame send_cmd
accept_frame-IsSafe f c v u h = ground (arith, next_uid-lt c.uid_gen)

finish_receiving-IsSafe :
    (p : Cmd) (c : ClientInterface) → IsValid c → p.packet < 2 ^ 32 → IsSafe (finish_receiving p c)
unfolding finish_receiving send_cmd
finish_receiving-IsSafe p c v u = ground (arith, next_uid-lt c.uid_gen)

begin_transaction-IsSafe :
    (now : ℕ) (p : Cmd) (c : ClientInterface)
    → IsValid c
    → p.packet < 2 ^ 32
    → IsSafe (begin_transaction now p c)
unfolding begin_transaction
begin_transaction-IsSafe now p c v u = elim (Bool-cases (p.command == 0)) [
  | inl e ↦ rw e (send_cmd-IsSafe confirm _ v.part_fits u)
  | inr e ↦ rw e (send_frame-IsSafe _ u)
]

send_next-IsSafe :
    (p : Cmd) (c : ClientInterface) → IsValid c → p.packet < 2 ^ 32 → IsSafe (send_next p c)
unfolding send_next
send_next-IsSafe p c v u = elim (List-cases c.send_buf) [
  | inl e ↦ rw e (send_cmd-IsSafe complete _ v.part_fits u)
  | inr (x, xs, e) ↦ rw e (rw (← e) (send_frame-IsSafe _ u))
]

-- The frame that `handle` reads holds as much data as it says.
abbrev pub HoldsData : Packet → Type 0
HoldsData (cmd p) = Unit
HoldsData (frame f) = f.len ≤ length f.bytes

dispatch-IsSafe :
    (s : State) (p : Packet) (now : ℕ) (c : ClientInterface)
    → IsValid c
    → uid p < 2 ^ 32
    → HoldsData p
    → IsSafe (dispatch s p now c)
unfolding dispatch stay
dispatch-IsSafe resting (cmd p) now c v u h = ground (arith, begin_transaction-IsSafe now p c v u)
dispatch-IsSafe _ (cmd p) now c v u h = ground (
  arith,
  begin_transaction-IsSafe now p c v u,
  repeat_cmd-IsSafe confirm c v,
  repeat_cmd-IsSafe complete c v,
  repeat_frame-IsSafe c v,
  send_next-IsSafe p c v u,
  finish_receiving-IsSafe p c v u,
)
dispatch-IsSafe receiving_start (frame f) now c v u h =
    ground (arith, accept_frame-IsSafe f c v u h)
dispatch-IsSafe receiving (frame f) now c v u h =
    ground (arith, accept_frame-IsSafe f c v u h, repeat_cmd-IsSafe confirm c v)
dispatch-IsSafe _ (frame f) now c v u h = (v, tt)

-- A valid connection handles every packet whose uid is a u32 and whose frame holds the data that it
-- announces, at any time, without a panic: it is valid again, and all that it sends is valid on the
-- wire.
pub handle-IsSafe :
    (c : ClientInterface) (now : ℕ) (p : Packet)
    → IsValid c
    → uid p < 2 ^ 32
    → HoldsData p
    → IsSafe (handle c now p)
unfolding handle
handle-IsSafe c now p v u h = ground (arith, dispatch-IsSafe c.state p now c v u h)

pub new-IsValid : (now max_time : ℕ) → IsValid (new now max_time)
unfolding new
new-IsValid now max_time = omega arith

pub queue-IsValid : (to_send : List ℕ) (c : ClientInterface) → IsValid c → IsValid (queue to_send c)
unfolding queue
queue-IsValid to_send c v = omega arith

-- A frame is taken where it answers the last packet that was sent, from the start of the reception on; once data has
-- been received, only within the time of the transaction, and if it is not the frame that was taken last.
abbrev pub IsTaken : ClientInterface → ℕ → Frame → Type 0
IsTaken c now f =
    (f.responding_to ≡ c.last_sent)
    × ((c.state ≡ receiving_start)
        ⊎ ((c.state ≡ receiving)
            × (f.packet ≢ c.respond_to)
            × (now - c.transaction_time ≤ c.max_transaction_time)))

-- Of all frames, at any time and in any state of a connection, `handle` panics at exactly those that are taken and
-- announce more bytes than their buffer holds.
pub handle_overrun :
    (c : ClientInterface) (now : ℕ) (f : Frame)
    → (handle c now (frame f) ≡ panics → IsTaken c now f × (length f.bytes < f.len))
      × (IsTaken c now f → length f.bytes < f.len → handle c now (frame f) ≡ panics)
unfolding handle dispatch accept_frame send_cmd repeat_cmd
handle_overrun c now f = (λ p. ground (arith, p), λ taken long. ground (arith, taken, long))
