-- ===== src/CsSquirrel/Server/Receiving.antt =====
-- Frames that the server is sent, each as often as the client likes (`ConnState::process` of
-- haysel/cs_squirrel/src/server/mech.rs).
use hayselnut.Common.{
  ℕ, ◌+◌, ◌-◌, ◌%◌, ◌^◌, ◌≤◌, ◌<◌, ◌≡◌, ◌∙◌, ◌⊎◌, inl, inr, refl, sym, ap, List, ◌++◌, true, false,
  ◌==◌, ltb, length, drop, Option, none, some, returns, arith,
}
use hayselnut.Squirrel.Wire.{ByteOrder}
use hayselnut.CsSquirrel.Cursor.{Cursor}
use hayselnut.CsSquirrel.Uid.{Uid, next}
use hayselnut.CsSquirrel.Packet.{Read, frame, Frame, confirm}
use hayselnut.CsSquirrel.Packet.Bytes.{cmd_bytes, send_cmd_lem}
use hayselnut.CsSquirrel.Packet.RoundTrip.{frame_packet, data_of-frame_packet}
use hayselnut.CsSquirrel.Server.{
  ConnState, recv, recv_start, process, on_packet, on_frame, Step, done, nothing,
}

-- The last id sent is the last one generated, and not null: it cannot wrap in the next `k` packets.
pub record IsNumbered (k : ℕ) (s : ConnState) : Type 0 where
  pub generated : s.gen.current ≡ s.last_sent
  pub not_null : 1 ≤ s.last_sent
  pub fits : s.last_sent + k < 2 ^ 32

abbrev pub IsReceiving : ConnState → Type 0
IsReceiving s = (s.state ≡ recv_start) ⊎ (s.state ≡ recv)

abbrev pub InTime : ConnState → ℕ → Type 0
InTime s now = now - s.trans_time ≤ s.conf.max_trans_time

-- The state behind a frame that is new.
abbrev pub received : Uid → ConnState → ConnState
received u s = record s {
  state = recv;
  responding_to = u;
  last_sent = s.last_sent + 1;
  gen = record { current = s.last_sent + 1 };
}

module _ (order : ByteOrder) where
  pub process-InTime :
      (now : ℕ) (pkt : Read) (scratch : List ℕ) (s : ConnState) (c : Option Cursor)
      → InTime s now
      → process order now pkt scratch s c ≡ on_packet order s.state pkt now scratch s c
  unfolding process
  process-InTime now pkt scratch s c early =
      let here : ltb s.conf.max_trans_time (now - s.trans_time) ≡ false = ground arith in
      ground (arith, here)

  on_receiving :
      (f : Frame) (now : ℕ) (scratch : List ℕ) (s : ConnState) (c : Option Cursor)
      → IsReceiving s
      → on_packet order s.state (frame f) now scratch s c ≡ on_frame order f scratch s c
  on_receiving f now scratch s c (inl e) = rw e refl
  on_receiving f now scratch s c (inr e) = rw e refl

  abbrev pub confirmed : Option (List ℕ) → Uid → Uid → List ℕ → ConnState → Option Cursor → Step
  confirmed read a b scratch s c = record {
    result = done (record {
      written = some (cmd_bytes order a b confirm ++ drop 10 scratch);
      read = read;
      read_complete = false;
    });
    next_state = s;
    cursor = c;
  }

  -- A frame that responds to the last packet is read and confirmed.
  pub process_frame :
      (now u : ℕ) (bytes scratch : List ℕ) (s : ConnState) (c : Option Cursor)
      → IsReceiving s
      → IsNumbered 1 s
      → InTime s now
      → 10 ≤ length scratch
      → process order now (frame (frame_packet u s.last_sent bytes)) scratch s c
        ≡ returns (confirmed (some bytes) (s.last_sent + 1) u scratch (received u s) c)
  process_frame now u bytes scratch s c receiving numbered early room =
      let same : (s.last_sent == s.last_sent) ≡ true = ground arith in
      let set : (s.last_sent == 0) ≡ false = ground (arith, numbered.not_null) in
      let step : (s.gen.current + 1) % 2 ^ 32 ≡ s.last_sent + 1 =
        omega (arith, numbered.generated, numbered.fits) in
      process-InTime now _ scratch s c early
      ∙ (on_receiving _ now scratch s c receiving
          ∙ (unfold on_frame next in
              rw
                (
                  same,
                  set,
                  data_of-frame_packet u s.last_sent bytes,
                  step,
                  send_cmd_lem order (s.last_sent + 1) u confirm scratch room,
                )
                refl))

  -- The same frame again is answered alike where its id is not null, read no more, and changes nothing.
  pub process_frame_again :
      (now u b : ℕ) (bytes scratch : List ℕ) (s : ConnState) (c : Option Cursor)
      → s.state ≡ recv
      → s.responding_to ≡ u
      → b < s.last_sent
      → InTime s now
      → 10 ≤ length scratch
      → (process order now (frame (frame_packet u b bytes)) scratch s c
          ≡ returns (confirmed none s.last_sent s.responding_to scratch s c))
        ⊎ ((s.responding_to ≡ 0)
            × (process order now (frame (frame_packet u b bytes)) scratch s c
                ≡ returns (record { result = done nothing; next_state = s; cursor = c })))
  process_frame_again now u b bytes scratch s c receiving last old early room =
      let other : (b == s.last_sent) ≡ false = ground arith in
      let same : (u == s.responding_to) ≡ true = ground arith in
      let stays : record s { state = recv } ≡ s =
        sym (ap (λ st. record s { state = st }) receiving) in
      let start =
        process-InTime now (frame (frame_packet u b bytes)) scratch s c early
        ∙ on_receiving (frame_packet u b bytes) now scratch s c (inr receiving) in
      let cases : (s.responding_to ≡ 0) ⊎ (1 ≤ s.responding_to) = omega arith in
      elim cases [
        | inl null ↦
            let unset : (s.responding_to == 0) ≡ true = ground (arith, null) in
            inr (null, start ∙ (unfold on_frame in rw (other, same, unset, stays) refl))
        | inr id ↦
            let set : (s.responding_to == 0) ≡ false = ground (arith, id) in
            inl (
              start
              ∙ (unfold on_frame in
                  rw
                    (
                      other,
                      same,
                      set,
                      stays,
                      send_cmd_lem order s.last_sent s.responding_to confirm scratch room,
                    )
                    refl))
      ]
