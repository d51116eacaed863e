-- ===== src/CsSquirrel/Server/Endings.antt =====
-- How a transmission to the server can end (the arm of Complete in `ConnState::process` of
-- haysel/cs_squirrel/src/server/mech.rs).
use hayselnut.Common.{
  ℕ, ◌+◌, ◌^◌, ◌≤◌, ◌<◌, ◌≡◌, ◌≢◌, ◌∙◌, refl, List, true, false, ◌==◌, length, Option, returns,
  arith,
}
use hayselnut.Squirrel.Wire.{ByteOrder}
use hayselnut.CsSquirrel.Cursor.{Cursor}
use hayselnut.CsSquirrel.Packet.{frame, tx, complete, kind}
use hayselnut.CsSquirrel.Packet.RoundTrip.{cmd_packet, frame_packet}
use hayselnut.CsSquirrel.Server.{
  ConnState, recv, recv_done, process, Step, done, nothing, on_complete,
}
use hayselnut.CsSquirrel.Server.Receiving.{IsNumbered, InTime, process-InTime}
use hayselnut.CsSquirrel.Server.Session.{IsIdle, started, process_tx, process_complete, completes}

-- A call that gives nothing and changes nothing.
abbrev pub unanswered : ConnState → Option Cursor → Step
unanswered s c = record { result = done nothing; next_state = s; cursor = c }

module _ (order : ByteOrder) where
  -- A Complete that responds to the last packet is answered once: when the client sends it again, because that
  -- answer was lost, at whatever time, it is not answered.
  pub complete_again :
      (now later u : ℕ) (scratch : List ℕ) (s : ConnState) (c : Option Cursor)
      → s.state ≡ recv
      → IsNumbered 1 s
      → InTime s now
      → 10 ≤ length scratch
      → (step : Step) × (process order now (cmd_packet u s.last_sent complete) scratch s c
          ≡ returns step)
        × (completes step.result ≡ true)
        × (process order later
              (cmd_packet u s.last_sent complete)
              scratch
              step.next_state
              step.cursor
            ≡ returns (unanswered step.next_state step.cursor))
  unfolding process kind
  complete_again now later u scratch s c state numbered early room =
      (_, process_complete order now u scratch s c state numbered early room, refl, refl)

  -- While frames are received, a Complete that neither responds to the last packet nor repeats one ends the
  -- transmission without an answer: every frame after it is dropped, at whatever time, also one that
  -- responds to the last packet.
  pub stray_complete :
      (now later u r v : ℕ) (bytes scratch : List ℕ) (s : ConnState) (c : Option Cursor)
      → s.state ≡ recv
      → InTime s now
      → r ≢ s.last_sent
      → u ≢ s.responding_to
      → (step : Step) × (process order now (cmd_packet u r complete) scratch s c ≡ returns step)
        × (step.result ≡ done nothing)
        × (process order later (frame (frame_packet v s.last_sent bytes)) scratch step.next_state c
            ≡ returns (unanswered step.next_state c))
  unfolding process
  stray_complete now later u r v bytes scratch s c state early other new =
      let unrelated : (r == s.last_sent) ≡ false = ground arith in
      let first : (u == s.responding_to) ≡ false = ground arith in
      (
        unanswered (record s { state = recv_done }) c,
        process-InTime order now (cmd_packet u r complete) scratch s c early
            ∙ (unfold kind on_complete in rw (state, unrelated, first) refl),
        refl,
        refl,
      )

  -- A transmission without a frame does not end: to a server that is idle, a Complete in answer to that of Tx
  -- is not answered, and the server stays as Tx left it.
  pub empty_transmission :
      (now later u v : ℕ) (scratch : List ℕ) (s : ConnState) (c : Option Cursor)
      → IsIdle s
      → s.gen.current + 1 < 2 ^ 32
      → InTime (started u now s) later
      → 10 ≤ length scratch
      → (step : Step) × (process order now (cmd_packet u 0 tx) scratch s c ≡ returns step)
        × (process order later
              (cmd_packet v step.next_state.last_sent complete)
              scratch
              step.next_state
              c
            ≡ returns (unanswered step.next_state c))
  unfolding kind
  empty_transmission now later u v scratch s c idle fits early room = (
    _,
    process_tx order now u 0 scratch s c idle fits room,
    process-InTime order later _ scratch (started u now s) c early,
  )
