-- ===== src/CsSquirrel/Server/Invariant.antt =====
-- What every packet leaves true of a connection (`ConnState::process` of
-- haysel/cs_squirrel/src/server/mech.rs).
use hayselnut.Common.{
  ℕ, ◌^◌, ◌<◌, ◌≡◌, refl, List, Bool, true, false, ltb, ◌-◌, ◌&&◌, if◌then◌else◌, length, Option,
  none, some, Outcome, returns, panics, ◌>>=◌, arith,
}
use hayselnut.Squirrel.Wire.{ByteOrder}
use hayselnut.CsSquirrel.Cursor.{Cursor}
use hayselnut.CsSquirrel.Uid.{next}
use hayselnut.CsSquirrel.Env.{Env}
use hayselnut.CsSquirrel.Packet.{
  Read, cmd, frame, Frame, CmdKind, tx, rx, confirm, complete, kind, data_of, ok, err, Result,
}
use hayselnut.CsSquirrel.Packet.Answers.{send_cmd, send_data}
use hayselnut.CsSquirrel.Server.{
  ConnState, Config, State, resting, recv_start, recv, recv_done, send_start, send, send_done,
  process, Step, on_tx, on_tx_again, on_rx, on_rx_again, on_frame, on_complete, on_confirm,
  on_confirm_again, on_cmd, on_packet, on_kind, on_data, next_part, last_part, answer_cmd,
  answer_data, ignore, initiate, follow, is_repeat, responds_to_last, is_timed,
}

-- The last id sent is the last one generated, a 32-bit number, and the parameters are those given.
pub record IsConsistent (conf : Config) (env : Env) (s : ConnState) : Type 0 where
  pub generated : s.gen.current ≡ s.last_sent
  pub fits : s.last_sent < 2 ^ 32
  pub conf_kept : s.conf ≡ conf
  pub env_kept : s.env ≡ env

module _ (order : ByteOrder) (conf : Config) (env : Env) where
  -- A call that returns leaves a consistent state.
  abbrev pub Keeps : Outcome Step → Type 0
  Keeps (returns step) = IsConsistent conf env step.next_state
  Keeps panics = Unit

  bind-Keeps :
      {A : Type 0} (o : Outcome A) (f : A → Outcome Step)
      → ((a : A) → Keeps (f a))
      → Keeps (o >>= f)
  bind-Keeps (returns a) f h = h a
  bind-Keeps panics f h = _

  if-Keeps : (b : Bool) (x y : Outcome Step) → Keeps x → Keeps y → Keeps (if b then x else y)
  if-Keeps true x y hx hy = hx
  if-Keeps false x y hx hy = hy

  moved :
      (state : State) (s : ConnState)
      → IsConsistent conf env s
      → IsConsistent conf env (record s { state = state })
  moved state s c = record {
    generated = c.generated;
    fits = c.fits;
    conf_kept = c.conf_kept;
    env_kept = c.env_kept;
  }

  initiated :
      (state : State) (now : ℕ) (pkt : Read) (s : ConnState)
      → IsConsistent conf env s
      → IsConsistent conf env (initiate order state now pkt s)
  unfolding next
  initiated state now pkt s c = record {
    generated = refl;
    fits = omega arith;
    conf_kept = c.conf_kept;
    env_kept = c.env_kept;
  }

  followed :
      (pkt : Read) (s : ConnState)
      → IsConsistent conf env s
      → IsConsistent conf env (follow order pkt s)
  unfolding next
  followed pkt s c = record {
    generated = refl;
    fits = omega arith;
    conf_kept = c.conf_kept;
    env_kept = c.env_kept;
  }

  answer_cmd-Keeps :
      (k : CmdKind) (read : Option (List ℕ)) (all : Bool) (scratch : List ℕ) (s : ConnState)
      (c : Option Cursor)
      → IsConsistent conf env s
      → Keeps (answer_cmd order k read all scratch s c)
  answer_cmd-Keeps k read all scratch s c ok_s =
      bind-Keeps (send_cmd order s.last_sent s.responding_to k scratch) _ (λ write. ok_s)

  answer_data-Keeps :
      (part : Option (List ℕ)) (scratch : List ℕ) (s : ConnState) (c : Option Cursor)
      → IsConsistent conf env s
      → Keeps (answer_data order part scratch s c)
  answer_data-Keeps none scratch s c ok_s =
      answer_cmd-Keeps complete none false scratch (record s { state = send_done }) c
        (moved send_done s ok_s)
  answer_data-Keeps (some bytes) scratch s c ok_s =
      bind-Keeps (send_data order s.last_sent s.responding_to bytes scratch) _ (λ write. ok_s)

  on_data-Keeps :
      (d : Result (List ℕ)) (scratch : List ℕ) (s : ConnState) (c : Option Cursor)
      → IsConsistent conf env s
      → Keeps (on_data order d scratch s c)
  on_data-Keeps (ok bytes) scratch s c ok_s =
      answer_cmd-Keeps confirm (some bytes) false scratch s c ok_s
  on_data-Keeps (err e) scratch s c ok_s =
      bind-Keeps (send_cmd order s.last_sent s.responding_to confirm scratch) _ (λ write. ok_s)

  repeat-Keeps :
      (pkt : Read) (s : ConnState) (c : Option Cursor) (again : Outcome Step)
      → IsConsistent conf env s
      → Keeps again
      → Keeps (if is_repeat pkt s then again else ignore order s c)
  repeat-Keeps pkt s c again ok_s kept = if-Keeps (is_repeat pkt s) again _ kept ok_s

  on_frame-Keeps :
      (f : Frame) (scratch : List ℕ) (s : ConnState) (c : Option Cursor)
      → IsConsistent conf env s
      → Keeps (on_frame order f scratch s c)
  unfolding on_frame
  on_frame-Keeps f scratch s c ok_s =
      let here = moved recv s ok_s in
      if-Keeps (responds_to_last (frame f) s) _ _
        (on_data-Keeps (data_of f) scratch (follow order (frame f) (record s { state = recv })) c
          (followed (frame f) (record s { state = recv }) here))
        (if-Keeps (is_repeat (frame f) s) _ _
          (answer_cmd-Keeps confirm none false scratch (record s { state = recv }) c here) here)

  on_complete-Keeps :
      (pkt : Read) (scratch : List ℕ) (s : ConnState) (c : Option Cursor)
      → IsConsistent conf env s
      → Keeps (on_complete order pkt scratch s c)
  unfolding on_complete
  on_complete-Keeps pkt scratch s c ok_s =
      let over = moved recv_done s ok_s in
      if-Keeps (responds_to_last pkt s) _ _
        (answer_cmd-Keeps confirm none true scratch
          (follow order pkt (record s { state = recv_done })) c
          (followed pkt (record s { state = recv_done }) over))
        (if-Keeps (is_repeat pkt s) _ _
          (answer_cmd-Keeps confirm none false scratch (record s { state = recv_done }) c over)
          over)

  on_confirm-Keeps :
      (pkt : Read) (scratch : List ℕ) (s : ConnState) (c : Option Cursor)
      → IsConsistent conf env s
      → Keeps (on_confirm order pkt scratch s c)
  unfolding on_confirm
  on_confirm-Keeps pkt scratch s c ok_s =
      let new = follow order pkt (record s { state = send }) in
      if-Keeps (responds_to_last pkt s) _ _
        (bind-Keeps (next_part c new (length scratch)) _ (λ part.
          answer_data-Keeps part.0 scratch new part.1
            (followed pkt (record s { state = send }) (moved send s ok_s))))
        (repeat-Keeps pkt s c _ ok_s (answer_data-Keeps (last_part c) scratch s c ok_s))

  on_tx-Keeps :
      (now : ℕ) (pkt : Read) (scratch : List ℕ) (s : ConnState) (c : Option Cursor)
      → IsConsistent conf env s
      → Keeps (on_tx order now pkt scratch s c)
  unfolding on_tx
  on_tx-Keeps now pkt scratch s c ok_s =
      answer_cmd-Keeps confirm none false scratch (initiate order recv_start now pkt s) c
        (initiated recv_start now pkt s ok_s)

  on_rx-Keeps :
      (now : ℕ) (pkt : Read) (scratch : List ℕ) (s : ConnState) (c : Option Cursor)
      → IsConsistent conf env s
      → Keeps (on_rx order now pkt scratch s c)
  unfolding on_rx
  on_rx-Keeps now pkt scratch s c ok_s =
      let new = initiate order send_start now pkt s in
      bind-Keeps (next_part c new (length scratch)) _
        (λ part. answer_data-Keeps part.0 scratch new part.1 (initiated send_start now pkt s ok_s))

  on_cmd-Keeps :
      (state : State) (k : CmdKind) (now : ℕ) (pkt : Read) (scratch : List ℕ) (s : ConnState)
      (c : Option Cursor)
      → IsConsistent conf env s
      → Keeps (on_cmd order state k now pkt scratch s c)
  unfolding on_tx_again on_rx_again on_confirm_again
  on_cmd-Keeps resting tx now pkt scratch s c ok_s = on_tx-Keeps now pkt scratch s c ok_s
  on_cmd-Keeps resting rx now pkt scratch s c ok_s = on_rx-Keeps now pkt scratch s c ok_s
  on_cmd-Keeps resting confirm now pkt scratch s c ok_s = ok_s
  on_cmd-Keeps resting complete now pkt scratch s c ok_s = ok_s
  on_cmd-Keeps recv_start tx now pkt scratch s c ok_s =
      repeat-Keeps pkt s c _ ok_s (answer_cmd-Keeps confirm none false scratch s c ok_s)
  on_cmd-Keeps recv_start rx now pkt scratch s c ok_s = ok_s
  on_cmd-Keeps recv_start confirm now pkt scratch s c ok_s = ok_s
  on_cmd-Keeps recv_start complete now pkt scratch s c ok_s = ok_s
  on_cmd-Keeps recv tx now pkt scratch s c ok_s = ok_s
  on_cmd-Keeps recv rx now pkt scratch s c ok_s = ok_s
  on_cmd-Keeps recv confirm now pkt scratch s c ok_s = ok_s
  on_cmd-Keeps recv complete now pkt scratch s c ok_s = on_complete-Keeps pkt scratch s c ok_s
  on_cmd-Keeps recv_done tx now pkt scratch s c ok_s = on_tx-Keeps now pkt scratch s c ok_s
  on_cmd-Keeps recv_done rx now pkt scratch s c ok_s = on_rx-Keeps now pkt scratch s c ok_s
  on_cmd-Keeps recv_done confirm now pkt scratch s c ok_s = ok_s
  on_cmd-Keeps recv_done complete now pkt scratch s c ok_s = ok_s
  on_cmd-Keeps send_start tx now pkt scratch s c ok_s = ok_s
  on_cmd-Keeps send_start rx now pkt scratch s c ok_s =
      repeat-Keeps pkt s c _ ok_s (answer_data-Keeps (last_part c) scratch s c ok_s)
  on_cmd-Keeps send_start confirm now pkt scratch s c ok_s = on_confirm-Keeps pkt scratch s c ok_s
  on_cmd-Keeps send_start complete now pkt scratch s c ok_s = ok_s
  on_cmd-Keeps send tx now pkt scratch s c ok_s = ok_s
  on_cmd-Keeps send rx now pkt scratch s c ok_s = ok_s
  on_cmd-Keeps send confirm now pkt scratch s c ok_s = on_confirm-Keeps pkt scratch s c ok_s
  on_cmd-Keeps send complete now pkt scratch s c ok_s = ok_s
  on_cmd-Keeps send_done tx now pkt scratch s c ok_s = on_tx-Keeps now pkt scratch s c ok_s
  on_cmd-Keeps send_done rx now pkt scratch s c ok_s = on_rx-Keeps now pkt scratch s c ok_s
  on_cmd-Keeps send_done confirm now pkt scratch s c ok_s =
      repeat-Keeps pkt s c _ ok_s (answer_cmd-Keeps complete none false scratch s c ok_s)
  on_cmd-Keeps send_done complete now pkt scratch s c ok_s = ok_s

  on_kind-Keeps :
      (state : State) (k : Result CmdKind) (now : ℕ) (pkt : Read) (scratch : List ℕ) (s : ConnState)
      (c : Option Cursor)
      → IsConsistent conf env s
      → Keeps (on_kind order state k now pkt scratch s c)
  on_kind-Keeps state (ok k) now pkt scratch s c ok_s =
      on_cmd-Keeps state k now pkt scratch s c ok_s
  on_kind-Keeps state (err e) now pkt scratch s c ok_s = ok_s

  on_packet-Keeps :
      (state : State) (pkt : Read) (now : ℕ) (scratch : List ℕ) (s : ConnState) (c : Option Cursor)
      → IsConsistent conf env s
      → Keeps (on_packet order state pkt now scratch s c)
  on_packet-Keeps recv_start (frame f) now scratch s c ok_s = on_frame-Keeps f scratch s c ok_s
  on_packet-Keeps recv (frame f) now scratch s c ok_s = on_frame-Keeps f scratch s c ok_s
  on_packet-Keeps resting (frame f) now scratch s c ok_s = ok_s
  on_packet-Keeps recv_done (frame f) now scratch s c ok_s = ok_s
  on_packet-Keeps send_start (frame f) now scratch s c ok_s = ok_s
  on_packet-Keeps send (frame f) now scratch s c ok_s = ok_s
  on_packet-Keeps send_done (frame f) now scratch s c ok_s = ok_s
  on_packet-Keeps state (cmd m) now scratch s c ok_s =
      on_kind-Keeps state (kind m) now (cmd m) scratch s c ok_s

  -- Whatever packet comes, and whenever, to a connection in which the last id sent is the last one generated and
  -- fits into 32 bits, the same holds behind it where the call returns, with the parameters unchanged.
  pub process-IsConsistent :
      (now : ℕ) (pkt : Read) (scratch : List ℕ) (s : ConnState) (c : Option Cursor)
      → IsConsistent conf env s
      → Keeps (process order now pkt scratch s c)
  unfolding process
  process-IsConsistent now pkt scratch s c ok_s =
      if-Keeps (is_timed s.state && ltb s.conf.max_trans_time (now - s.trans_time)) _ _
        (moved resting s ok_s) (on_packet-Keeps s.state pkt now scratch s c ok_s)
