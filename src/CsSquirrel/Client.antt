-- ===== src/CsSquirrel/Client.antt =====
-- The state machine of the client (haysel/cs_squirrel/src/client/mech.rs). `todo!` and `unimplemented!`
-- panic; what stands behind a `todo!` is never run. The clock is read once for a call.
pub mod Inert
use hayselnut.Common.{
  ℕ, ◌-◌, List, Bool, true, false, ltb, if◌then◌else◌, Option, none, some, Outcome, returns, panics,
  ◌>>=◌,
}
use hayselnut.Squirrel.Wire.{ByteOrder}
use hayselnut.CsSquirrel.Env.{Env}
use hayselnut.CsSquirrel.Uid
use hayselnut.CsSquirrel.Uid.{Seq, next, null}
use hayselnut.CsSquirrel.Packet.{
  Read, cmd, frame, Cmd, Frame, CmdKind, tx, rx, confirm, complete, kind, ok, err,
}
use hayselnut.CsSquirrel.Packet.Answers.{send_cmd}

pub data State : Type 0 where
  resting sending sending_done receiving : State

pub record Config : Type 0 where
  pub max_trans_time : ℕ

pub record TransientState : Type 0 where
  pub time : ℕ
  pub responding_to : Uid.Uid

-- `TransientState::new`, which `TransientState::reset` writes over the old one.
abbrev pub fresh : ℕ → TransientState
fresh now = record { time = now; responding_to = null }

pub record DriveResult : Type 0 where
  pub written : Option (List ℕ)
  pub read : Option (List ℕ)
  pub read_done : Bool
  pub write_done : Bool

-- `DriveResult::default()`
abbrev pub nothing : DriveResult
nothing = record { written = none; read = none; read_done = false; write_done = false }

-- A result, or `Error::TimedOut`.
pub data Driven : Type 0 where
  drove : DriveResult → Driven
  timed_out : Driven

pub record ConnState : Type 0 where
  pub state : State
  pub conf : Config
  pub env : Env
  pub transient : TransientState
  pub gen : Seq

abbrev pub new : Config → Env → ℕ → ConnState
new conf env now = record {
  state = resting;
  conf = conf;
  env = env;
  transient = fresh now;
  gen = Uid.new;
}

abbrev pub currently : ConnState → State
currently s = s.state

abbrev pub reset : ℕ → ConnState → ConnState
reset now s = record s { transient = fresh now; gen = Uid.new; state = resting }

-- `error_if_timeout`, as a test.
abbrev pub is_timed_out : ℕ → ConnState → Bool
is_timed_out now s = ltb s.conf.max_trans_time (now - s.transient.time)

abbrev pub is_resting : State → Bool
is_resting resting = true
is_resting _ = false

abbrev pub drive_recv : ConnState → Outcome (Driven × ConnState)
drive_recv s = panics

-- The arms of the match on the state and the packet, where it is a command of a known kind and where not.
abbrev pub on_kind : State → Option CmdKind → ConnState → Outcome (Driven × ConnState)
on_kind resting k s = returns (drove nothing, s)
on_kind sending (some confirm) s = panics
on_kind sending_done (some confirm) s = panics
on_kind sending _ s = returns (drove nothing, s)
on_kind sending_done _ s = returns (drove nothing, s)
on_kind receiving k s = panics

unfoldable pub kind_of : Read → Option CmdKind
kind_of (cmd c) = elim (kind c) [ ok k ↦ some k | err e ↦ none ]
kind_of (frame f) = none

unfoldable pub drive_packet : ℕ → Read → ConnState → Outcome (Driven × ConnState)
drive_packet now read s =
    if is_resting s.state
    then on_kind s.state (kind_of read) s
    else if is_timed_out now s
    then returns (timed_out, s)
    else on_kind s.state (kind_of read) s

module _ (order : ByteOrder) where
  unfoldable pub drive_send : ℕ → List ℕ → ConnState → Outcome (Driven × ConnState)
  drive_send now scratch s =
      if is_resting s.state
      then (let (id, gen) = next s.gen in
          let new = record s { transient = fresh now; gen = gen } in
          do
            write ← send_cmd order id null tx scratch
            returns (drove (record nothing { written = some write }), new))
      else panics
