-- ===== src/CsSquirrel/Client/Inert.antt =====
-- What comes of a transmission that the client begins (haysel/cs_squirrel/src/client/mech.rs).
use hayselnut.Common.{
  ℕ, ◌+◌, ◌%◌, ◌^◌, ◌≤◌, ◌≡◌, refl, List, [], ◌∷◌, All, length, some, Outcome, returns, ◌>>=◌,
  arith,
}
use hayselnut.Squirrel.Wire.{ByteOrder}
use hayselnut.CsSquirrel.Packet.{Read, tx}
use hayselnut.CsSquirrel.Packet.RoundTrip.{cmd_packet, Says, send_cmd-Says}
use hayselnut.CsSquirrel.Uid.{next, null}
use hayselnut.CsSquirrel.Client.{
  ConnState, resting, Driven, drove, nothing, drive_send, drive_packet, fresh, currently,
}

-- All the packets that come, each with its time.
abbrev pub drive_packets : List (ℕ × Read) → ConnState → Outcome (List Driven × ConnState)
drive_packets [] s = returns ([], s)
drive_packets (p ∷ ps) s = do
  step ← drive_packet p.0 p.1 s
  rest ← drive_packets ps step.1
  returns (step.0 ∷ rest.0, rest.1)

abbrev pub IsNothing : Driven → Type 0
IsNothing r = r ≡ drove nothing

ignores :
    (ps : List (ℕ × Read)) (s : ConnState)
    → currently s ≡ resting
    → (results : List Driven) × (drive_packets ps s ≡ returns (results, s)) × All IsNothing results
ignores [] s state = ([], refl, _)
ignores (p ∷ ps) s state =
    let (results, runs, none) = ignores ps s state in
    let this : drive_packet p.0 p.1 s ≡ returns (drove nothing, s) =
      unfold drive_packet in simp state refl in
    (drove nothing ∷ results, rw (this, ◌>>=◌) (rw (runs, ◌>>=◌) refl), (refl, none))

-- A client that is at rest and begins to transmit writes Tx with its next id, and stays at rest: whatever packets
-- come after it, and at whatever times, none is answered, and the data is never sent.
pub drive_send-ignores :
    (order : ByteOrder) (now : ℕ) (ps : List (ℕ × Read)) (scratch : List ℕ) (s : ConnState)
    → currently s ≡ resting
    → 10 ≤ length scratch
    → (write : List ℕ) × (s' : ConnState) × (results : List Driven) × (drive_send order now scratch
          s
        ≡ returns (drove (record nothing { written = some write }), s'))
      × Says order write (cmd_packet ((s.gen.current + 1) % 2 ^ 32) null tx)
      × (drive_packets ps s' ≡ returns (results, s'))
      × All IsNothing results
      × (currently s' ≡ resting)
unfolding drive_send next
drive_send-ignores order now ps scratch s state room =
    let id = (s.gen.current + 1) % 2 ^ 32 in
    let new = record s { transient = fresh now; gen = record { current = id } } in
    let (write, sends, said) =
      send_cmd-Says order id null tx scratch (omega arith) (omega arith) room in
    let (results, runs, none) = ignores ps new state in
    (write, new, results, simp state (rw (sends, ◌>>=◌) refl), said, runs, none, state)
