-- ===== src/CsSquirrel/Server.antt =====
-- The state machine of one connection of the server (haysel/cs_squirrel/src/server/mech.rs). A `Write`
-- over the scratch buffer is the buffer; the clock is read once for a packet, in the unit of
-- `max_trans_time`, and `elapsed` is 0 where it was set back.
pub mod Receiving
pub mod Transfer
pub mod Repeats
pub mod Bounds
pub mod Session
pub mod Endings
pub mod Invariant
pub mod Sending
pub mod Replays
pub mod Client
pub mod Delivery
use hayselnut.Common.{
  ℕ, ◌-◌, List, Bool, true, false, not, ◌&&◌, ◌==◌, ltb, leb, if◌then◌else◌, length, min, Option,
  none, some, Outcome, returns, panics, ◌>>=◌,
}
use hayselnut.Squirrel.Wire.{ByteOrder}
use hayselnut.CsSquirrel.Cursor.{Cursor, advance, prev}
use hayselnut.CsSquirrel.Env.{Env}
use hayselnut.CsSquirrel.Uid
use hayselnut.CsSquirrel.Uid.{Seq, next, null}
use hayselnut.CsSquirrel.Packet.{
  Read, cmd, frame, Cmd, Frame, CmdKind, tx, rx, confirm, complete, kind, data_of, head_of, ok, err,
  Result, size_of_header,
}
use hayselnut.CsSquirrel.Packet.Answers.{send_cmd, send_data}

pub data Error : Type 0 where
  invalid_data timeout : Error

pub data State : Type 0 where
  resting recv_start recv recv_done send_start send send_done : State

pub record Config : Type 0 where
  pub max_trans_time : ℕ

pub record ProcessResult : Type 0 where
  pub written : Option (List ℕ)
  pub read : Option (List ℕ)
  pub read_complete : Bool

-- `ProcessResult::default()`
abbrev pub nothing : ProcessResult
nothing = record { written = none; read = none; read_complete = false }

abbrev pub answer : List ℕ → ProcessResult
answer write = record nothing { written = some write }

pub record ConnState : Type 0 where
  pub state : State
  pub conf : Config
  pub env : Env
  pub responding_to : Uid.Uid
  pub last_sent : Uid.Uid
  pub gen : Seq
  pub trans_time : ℕ

-- `now` is the garbage value of `trans_time`.
abbrev pub new : Config → Env → ℕ → ConnState
new conf env now = record {
  state = resting;
  conf = conf;
  env = env;
  responding_to = null;
  last_sent = null;
  gen = Uid.new;
  trans_time = now;
}

-- `advance_last_sent`, whose value is the `last_sent` of the new state.
abbrev pub advance_last_sent : ConnState → ConnState
advance_last_sent s = let (id, gen) = next s.gen in record s { last_sent = id; gen = gen }

unfoldable pub calc_max_data : ConnState → ℕ → Outcome ℕ
calc_max_data s scratch_len =
    let most = min s.env.max_packet_size scratch_len in
    if leb size_of_header most then returns (most - size_of_header) else panics

abbrev pub is_timed : State → Bool
is_timed recv = true
is_timed send = true
is_timed recv_start = true
is_timed send_start = true
is_timed _ = false

abbrev pub responds_to_last : Read → ConnState → Bool
responds_to_last pkt s = ((head_of pkt).responding_to == s.last_sent) && not (s.last_sent == null)

abbrev pub is_repeat : Read → ConnState → Bool
is_repeat pkt s = ((head_of pkt).packet == s.responding_to) && not (s.responding_to == null)

pub data Processed : Type 0 where
  done : ProcessResult → Processed
  fails : Error → Processed

-- What a call gives, the state that it leaves and the cursor.
pub record Step : Type 0 where
  pub result : Processed
  pub next_state : ConnState
  pub cursor : Option Cursor

-- `to_send.map(|send| send.advance(..)).flatten()`
abbrev pub next_part : Option Cursor → ConnState → ℕ → Outcome (Option (List ℕ) × Option Cursor)
next_part none s scratch_len = returns (none, none)
next_part (some c) s scratch_len = do
  most ← calc_max_data s scratch_len
  step ← advance most c
  returns (step.0, some step.1)

-- `to_send.map(|send| send.prev()).flatten()`
abbrev pub last_part : Option Cursor → Option (List ℕ)
last_part none = none
last_part (some c) = prev c

module _ (order : ByteOrder) where
  -- Answers with a command, and with what else the result holds.
  abbrev pub answer_cmd :
      CmdKind → Option (List ℕ) → Bool → List ℕ → ConnState → Option Cursor → Outcome Step
  answer_cmd k read read_complete scratch s to_send = do
    write ← send_cmd order s.last_sent s.responding_to k scratch
    returns (record {
      result = done (record { written = some write; read = read; read_complete = read_complete });
      next_state = s;
      cursor = to_send;
    })

  -- Answers with a frame where there is data to send, else with Complete.
  abbrev pub answer_data : Option (List ℕ) → List ℕ → ConnState → Option Cursor → Outcome Step
  answer_data (some bytes) scratch s to_send = do
    write ← send_data order s.last_sent s.responding_to bytes scratch
    returns (record { result = done (answer write); next_state = s; cursor = to_send })
  answer_data none scratch s to_send =
      answer_cmd complete none false scratch (record s { state = send_done }) to_send

  abbrev pub ignore : ConnState → Option Cursor → Outcome Step
  ignore s to_send = returns (record { result = done nothing; next_state = s; cursor = to_send })

  -- The new state where a packet starts a transaction, and where one continues it.
  abbrev pub initiate : State → ℕ → Read → ConnState → ConnState
  initiate state now pkt s =
      advance_last_sent
        (record s { responding_to = (head_of pkt).packet; state = state; trans_time = now })

  abbrev pub follow : Read → ConnState → ConnState
  follow pkt s = advance_last_sent (record s { responding_to = (head_of pkt).packet })

  unfoldable pub on_tx : ℕ → Read → List ℕ → ConnState → Option Cursor → Outcome Step
  on_tx now pkt scratch s to_send =
      answer_cmd confirm none false scratch (initiate recv_start now pkt s) to_send

  unfoldable pub on_tx_again : Read → List ℕ → ConnState → Option Cursor → Outcome Step
  on_tx_again pkt scratch s to_send =
      if is_repeat pkt s then answer_cmd confirm none false scratch s to_send else ignore s to_send

  unfoldable pub on_rx : ℕ → Read → List ℕ → ConnState → Option Cursor → Outcome Step
  on_rx now pkt scratch s to_send =
      let s' = initiate send_start now pkt s in
      next_part to_send s' (length scratch) >>= λ part. answer_data part.0 scratch s' part.1

  unfoldable pub on_rx_again : Read → List ℕ → ConnState → Option Cursor → Outcome Step
  on_rx_again pkt scratch s to_send =
      if is_repeat pkt s
      then answer_data (last_part to_send) scratch s to_send
      else ignore s to_send

  -- The answer is written before the data is looked at.
  abbrev pub on_data : Result (List ℕ) → List ℕ → ConnState → Option Cursor → Outcome Step
  on_data (ok bytes) scratch s to_send = answer_cmd confirm (some bytes) false scratch s to_send
  on_data (err e) scratch s to_send = do
    write ← send_cmd order s.last_sent s.responding_to confirm scratch
    returns (record { result = fails invalid_data; next_state = s; cursor = to_send })

  unfoldable pub on_frame : Frame → List ℕ → ConnState → Option Cursor → Outcome Step
  on_frame f scratch s to_send =
      let pkt = frame f in
      let here = record s { state = recv } in
      if responds_to_last pkt s
      then on_data (data_of f) scratch (follow pkt here) to_send
      else if is_repeat pkt s
      then answer_cmd confirm none false scratch here to_send
      else ignore here to_send

  unfoldable pub on_complete : Read → List ℕ → ConnState → Option Cursor → Outcome Step
  on_complete pkt scratch s to_send =
      let over = record s { state = recv_done } in
      if responds_to_last pkt s
      then answer_cmd confirm none true scratch (follow pkt over) to_send
      else if is_repeat pkt s
      then answer_cmd confirm none false scratch over to_send
      else ignore over to_send

  unfoldable pub on_confirm : Read → List ℕ → ConnState → Option Cursor → Outcome Step
  on_confirm pkt scratch s to_send =
      if responds_to_last pkt s
      then (let s' = follow pkt (record s { state = send }) in
          next_part to_send s' (length scratch) >>= λ part. answer_data part.0 scratch s' part.1)
      else if is_repeat pkt s
      then answer_data (last_part to_send) scratch s to_send
      else ignore s to_send

  unfoldable pub on_confirm_again : Read → List ℕ → ConnState → Option Cursor → Outcome Step
  on_confirm_again pkt scratch s to_send =
      if is_repeat pkt s then answer_cmd complete none false scratch s to_send else ignore s to_send

  -- The arms of the match on the state and the packet.
  abbrev pub on_cmd : State → CmdKind → ℕ → Read → List ℕ → ConnState → Option Cursor → Outcome Step
  on_cmd resting tx now = on_tx now
  on_cmd recv_done tx now = on_tx now
  on_cmd send_done tx now = on_tx now
  on_cmd recv_start tx now = on_tx_again
  on_cmd resting rx now = on_rx now
  on_cmd recv_done rx now = on_rx now
  on_cmd send_done rx now = on_rx now
  on_cmd send_start rx now = on_rx_again
  on_cmd recv complete now = on_complete
  on_cmd send_start confirm now = on_confirm
  on_cmd send confirm now = on_confirm
  on_cmd send_done confirm now = on_confirm_again
  on_cmd _ _ now = λ pkt scratch. ignore

  abbrev pub on_kind :
      State → Result CmdKind → ℕ → Read → List ℕ → ConnState → Option Cursor → Outcome Step
  on_kind state (ok k) now pkt = on_cmd state k now pkt
  on_kind state (err e) now pkt = λ scratch. ignore

  abbrev pub on_packet : State → Read → ℕ → List ℕ → ConnState → Option Cursor → Outcome Step
  on_packet recv_start (frame f) now = on_frame f
  on_packet recv (frame f) now = on_frame f
  on_packet _ (frame f) now = λ scratch. ignore
  on_packet state (cmd c) now = on_kind state (kind c) now (cmd c)

  unfoldable pub process : ℕ → Read → List ℕ → ConnState → Option Cursor → Outcome Step
  process now pkt scratch s to_send =
      if is_timed s.state && ltb s.conf.max_trans_time (now - s.trans_time)
      then returns (record {
        result = fails timeout;
        next_state = record s { state = resting };
        cursor = to_send;
      })
      else on_packet s.state pkt now scratch s to_send
