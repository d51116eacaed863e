-- ===== src/CsSquirrel/Server/Client.antt =====
-- A client that confirms each packet of the server, and what it reads of the answers
-- (haysel/cs_squirrel/src/server/mech.rs; the order of packets is that of packet/cmd.rs).
use hayselnut.Common.{
  ℕ, zero, suc, ◌+◌, ◌^◌, ◌<◌, ◌≡◌, refl, List, [], ◌∷◌, length, drop, Option, none, some, Outcome,
  returns, panics, ◌>>=◌,
}
use hayselnut.Squirrel.Wire.{ByteOrder}
use hayselnut.CsSquirrel.Cursor.{Cursor}
use hayselnut.CsSquirrel.Uid.{Uid}
use hayselnut.CsSquirrel.Packet.{Read, frame, confirm, complete, ok, err, portion_to_send, try_read}
use hayselnut.CsSquirrel.Packet.Reading.{cmd_portion, cmd_read, frame_portion, frame_read}
use hayselnut.CsSquirrel.Packet.RoundTrip.{cmd_packet, frame_packet}
use hayselnut.CsSquirrel.Server.{ConnState, process, Step, Processed, done, fails}
use hayselnut.CsSquirrel.Server.Sending.{framed, completed}

-- What the client reads of what a call writes.
abbrev pub heard : ByteOrder → Processed → Option Read
heard order (done r) = elim r.written [
  | none ↦ none
  | some write ↦ elim (portion_to_send order write) [
    | panics ↦ none
    | returns sent ↦ elim (try_read order sent) [ ok pkt ↦ some pkt | err e ↦ none ]
  ]
]
heard order (fails e) = none

-- The client confirms the packets of the server from the id `n` on, `k` of them: that with the id `n` at the
-- time `time n`, in a packet with the id `uid n`.
abbrev pub confirms : (ℕ → Uid) → (ℕ → ℕ) → ℕ → ℕ → List (ℕ × Read)
confirms uid time zero n = []
confirms uid time (suc k) n = (time n, cmd_packet (uid n) n confirm) ∷ confirms uid time k (n + 1)

-- To these the server should answer with frames of these parts, and then with Complete.
abbrev pub answers : (ℕ → Uid) → ℕ → List (List ℕ) → List (Option Read)
answers uid n [] = some (cmd_packet (n + 1) (uid n) complete) ∷ []
answers uid n (part ∷ parts) =
    some (frame (frame_packet (n + 1) (uid n) part)) ∷ answers uid (n + 1) parts

module _ (order : ByteOrder) where
  -- Packets that come one after another, each with its time, while the caller has data to send.
  unfoldable pub run_sending :
      List (ℕ × Read)
      → List ℕ
      → ConnState
      → Option Cursor
      → Outcome (List Processed × ConnState × Option Cursor)
  run_sending [] scratch s c = returns ([], s, c)
  run_sending (p ∷ ps) scratch s c = do
    step ← process order p.0 p.1 scratch s c
    rest ← run_sending ps scratch step.next_state step.cursor
    returns (step.result ∷ rest.0, rest.1, rest.2)

  pub sending_step :
      (t : ℕ) (pkt : Read) (ps : List (ℕ × Read)) (scratch : List ℕ) (s : ConnState)
      (c : Option Cursor) (step : Step) (results : List Processed) (s' : ConnState)
      (c' : Option Cursor)
      → process order t pkt scratch s c ≡ returns step
      → run_sending ps scratch step.next_state step.cursor ≡ returns (results, s', c')
      → run_sending ((t, pkt) ∷ ps) scratch s c ≡ returns (step.result ∷ results, s', c')
  unfolding run_sending
  sending_step t pkt ps scratch s c step results s' c' now later =
      rw (now, ◌>>=◌) (rw (later, ◌>>=◌) refl)

  pub sending_over :
      (scratch : List ℕ) (s : ConnState) (c : Option Cursor)
      → run_sending [] scratch s c ≡ returns ([], s, c)
  unfolding run_sending
  sending_over scratch s c = refl

  pub heard_complete :
      (a b : Uid) (scratch : List ℕ)
      → a < 2 ^ 32
      → b < 2 ^ 32
      → heard order (completed order a b scratch) ≡ some (cmd_packet a b complete)
  heard_complete a b scratch ha hb =
      rw (cmd_portion order a b complete (drop 10 scratch), heard)
        (rw (cmd_read order a b complete ha hb) refl)

  pub heard_frame :
      (a b : Uid) (d scratch : List ℕ)
      → a < 2 ^ 32
      → b < 2 ^ 32
      → length d < 2 ^ 16
      → heard order (framed order a b d scratch) ≡ some (frame (frame_packet a b d))
  heard_frame a b d scratch ha hb small =
      rw (frame_portion order a b d (drop (11 + length d) scratch) ha hb small, heard)
        (rw (frame_read order a b d ha hb small) refl)
