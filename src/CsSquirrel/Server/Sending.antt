-- ===== src/CsSquirrel/Server/Sending.antt =====
-- What the server sends when the client confirms its packets (the arms of Confirm in
-- `ConnState::process` of haysel/cs_squirrel/src/server/mech.rs).
use hayselnut.Common.{
  ℕ, ◌+◌, ◌-◌, ◌%◌, ◌^◌, ◌≤◌, ◌<◌, ◌≡◌, ◌∙◌, ◌⊎◌, inl, inr, refl, List, ◌++◌, true, false, ◌==◌,
  length, take, drop, min, Option, none, some, returns, ◌>>=◌, arith, length-take,
}
use hayselnut.Squirrel.Wire.{ByteOrder}
use hayselnut.CsSquirrel.Cursor.{Cursor, advance}
use hayselnut.CsSquirrel.Uid.{Uid, next}
use hayselnut.CsSquirrel.Packet.{confirm, complete, rx, kind}
use hayselnut.CsSquirrel.Packet.Bytes.{cmd_bytes, frame_bytes, send_cmd_lem, send_data_lem}
use hayselnut.CsSquirrel.Packet.RoundTrip.{cmd_packet}
use hayselnut.CsSquirrel.Server.{
  on_rx, ConnState, send, send_start, send_done, process, Processed, done, answer, on_confirm,
  calc_max_data,
}
use hayselnut.CsSquirrel.Server.Session.{IsIdle, started}
use hayselnut.CsSquirrel.Server.Receiving.{IsNumbered, InTime, process-InTime}

abbrev pub IsSending : ConnState → Type 0
IsSending s = (s.state ≡ send_start) ⊎ (s.state ≡ send)

-- The data that a frame has room for.
abbrev pub room_for : ConnState → List ℕ → ℕ
room_for s scratch = min s.env.max_packet_size (length scratch) - 11

-- A packet and the scratch buffer have room for a frame with data, of which the length fits into a u16.
pub record HasRoom (s : ConnState) (scratch : List ℕ) : Type 0 where
  pub packet_size : 12 ≤ s.env.max_packet_size
  pub packet_small : s.env.max_packet_size < 2 ^ 16
  pub scratch_size : 12 ≤ length scratch

abbrev pub followed : Uid → ConnState → ConnState
followed u s = record s {
  state = send;
  responding_to = u;
  last_sent = s.last_sent + 1;
  gen = record { current = s.last_sent + 1 };
}

-- The part of the data that goes out next, and the cursor behind it.
abbrev pub part_of : Cursor → ℕ → List ℕ
part_of c most = take (min (length (drop c.cursor c.inner)) most) (drop c.cursor c.inner)

abbrev pub cursor_behind : Cursor → ℕ → Cursor
cursor_behind c most = record c {
  cursor = c.cursor + min (length (drop c.cursor c.inner)) most;
  last = some (part_of c most);
}

abbrev pub started_sending : Uid → ℕ → ConnState → ConnState
started_sending u now s = record (started u now s) { state = send_start }

module _ (order : ByteOrder) where
  on_idle :
      (now u r : ℕ) (scratch : List ℕ) (s : ConnState) (c : Option Cursor)
      → IsIdle s
      → process order now (cmd_packet u r rx) scratch s c
        ≡ on_rx order now (cmd_packet u r rx) scratch s c
  unfolding process kind
  on_idle now u r scratch s c (inl e) = simp e refl
  on_idle now u r scratch s c (inr (inl e)) = simp e refl
  on_idle now u r scratch s c (inr (inr e)) = simp e refl

  pub on_sending :
      (u r now : ℕ) (scratch : List ℕ) (s : ConnState) (c : Option Cursor)
      → IsSending s
      → InTime s now
      → process order now (cmd_packet u r confirm) scratch s c
        ≡ on_confirm order (cmd_packet u r confirm) scratch s c
  unfolding kind
  on_sending u r now scratch s c (inl e) early =
      process-InTime order now (cmd_packet u r confirm) scratch s c early ∙ simp e refl
  on_sending u r now scratch s c (inr e) early =
      process-InTime order now (cmd_packet u r confirm) scratch s c early ∙ simp e refl

  abbrev pub framed : Uid → Uid → List ℕ → List ℕ → Processed
  framed a b bytes scratch =
      done (answer (frame_bytes order a b bytes ++ drop (11 + length bytes) scratch))

  abbrev pub completed : Uid → Uid → List ℕ → Processed
  completed a b scratch = done (answer (cmd_bytes order a b complete ++ drop 10 scratch))

  -- While there is data, a Confirm of the last packet is answered with the next part.
  pub process_confirm :
      (now u : ℕ) (scratch : List ℕ) (s : ConnState) (c : Cursor)
      → IsSending s
      → IsNumbered 1 s
      → InTime s now
      → HasRoom s scratch
      → c.cursor < length c.inner
      → process order now (cmd_packet u s.last_sent confirm) scratch s (some c)
        ≡ returns (record {
          result = framed (s.last_sent + 1) u (part_of c (room_for s scratch)) scratch;
          next_state = followed u s;
          cursor = some (cursor_behind c (room_for s scratch));
        })
  process_confirm now u scratch s c sending numbered early room more =
      let same : (s.last_sent == s.last_sent) ≡ true = ground arith in
      let set : (s.last_sent == 0) ≡ false = ground (arith, numbered.not_null) in
      let step : (s.gen.current + 1) % 2 ^ 32 ≡ s.last_sent + 1 =
        omega (arith, numbered.generated, numbered.fits) in
      let most : calc_max_data (followed u s) (length scratch) ≡ returns (room_for s scratch) =
        unfold calc_max_data in ground (arith, room.packet_size, room.scratch_size) in
      let part : advance (room_for s scratch) c
          ≡ returns (some (part_of c (room_for s scratch)), cursor_behind c (room_for s scratch)) =
        unfold advance in ground (arith, more) in
      let size =
        length-take (min (length (drop c.cursor c.inner)) (room_for s scratch))
          (drop c.cursor c.inner) in
      on_sending u s.last_sent now scratch s (some c) sending early
      ∙ (unfold on_confirm next in
          rw (same, set, step, most, ◌>>=◌)
            (rw (part, ◌>>=◌)
              (rw
                (
                  send_data_lem order (s.last_sent + 1) u (part_of c (room_for s scratch)) scratch
                      (omega (arith, size, room.packet_size, room.scratch_size))
                      (omega (arith, size, room.packet_small)),
                  ◌>>=◌,
                )
                refl)))

  -- Where all the data is sent, it is answered with Complete.
  pub process_confirm_end :
      (now u : ℕ) (scratch : List ℕ) (s : ConnState) (c : Cursor)
      → IsSending s
      → IsNumbered 1 s
      → InTime s now
      → HasRoom s scratch
      → length c.inner ≡ c.cursor
      → process order now (cmd_packet u s.last_sent confirm) scratch s (some c)
        ≡ returns (record {
          result = completed (s.last_sent + 1) u scratch;
          next_state = record (followed u s) { state = send_done };
          cursor = some (record c { last = none });
        })
  process_confirm_end now u scratch s c sending numbered early room end =
      let same : (s.last_sent == s.last_sent) ≡ true = ground arith in
      let set : (s.last_sent == 0) ≡ false = ground (arith, numbered.not_null) in
      let step : (s.gen.current + 1) % 2 ^ 32 ≡ s.last_sent + 1 =
        omega (arith, numbered.generated, numbered.fits) in
      let most : calc_max_data (followed u s) (length scratch) ≡ returns (room_for s scratch) =
        unfold calc_max_data in ground (arith, room.packet_size, room.scratch_size) in
      let part : advance (room_for s scratch) c ≡ returns (none, record c { last = none }) =
        unfold advance in ground (arith, end) in
      on_sending u s.last_sent now scratch s (some c) sending early
      ∙ (unfold on_confirm next in
          rw (same, set, step, most, ◌>>=◌)
            (rw (part, ◌>>=◌)
              (rw
                (
                  send_cmd_lem order (s.last_sent + 1) u complete scratch
                      (omega (arith, room.scratch_size)),
                  ◌>>=◌,
                )
                refl)))

  -- Rx to a server that is idle is answered with the first part, where there is data.
  pub process_rx :
      (now u r : ℕ) (scratch : List ℕ) (s : ConnState) (c : Cursor)
      → IsIdle s
      → s.gen.current + 1 < 2 ^ 32
      → HasRoom s scratch
      → c.cursor < length c.inner
      → process order now (cmd_packet u r rx) scratch s (some c)
        ≡ returns (record {
          result = framed (s.gen.current + 1) u (part_of c (room_for s scratch)) scratch;
          next_state = started_sending u now s;
          cursor = some (cursor_behind c (room_for s scratch));
        })
  process_rx now u r scratch s c idle fits room more =
      let step : (s.gen.current + 1) % 2 ^ 32 ≡ s.gen.current + 1 = omega arith in
      let most : calc_max_data (started_sending u now s) (length scratch)
          ≡ returns (room_for s scratch) =
        unfold calc_max_data in ground (arith, room.packet_size, room.scratch_size) in
      let part : advance (room_for s scratch) c
          ≡ returns (some (part_of c (room_for s scratch)), cursor_behind c (room_for s scratch)) =
        unfold advance in ground (arith, more) in
      let size =
        length-take (min (length (drop c.cursor c.inner)) (room_for s scratch))
          (drop c.cursor c.inner) in
      let answers : on_rx order now (cmd_packet u r rx) scratch s (some c)
          ≡ returns (record {
            result = framed (s.gen.current + 1) u (part_of c (room_for s scratch)) scratch;
            next_state = started_sending u now s;
            cursor = some (cursor_behind c (room_for s scratch));
          }) =
        unfold on_rx next in
        rw (step, most, ◌>>=◌)
          (rw (part, ◌>>=◌)
            (rw
              (
                send_data_lem order (s.gen.current + 1) u (part_of c (room_for s scratch)) scratch
                    (omega (arith, size, room.packet_size, room.scratch_size))
                    (omega (arith, size, room.packet_small)),
                ◌>>=◌,
              )
              refl)) in
      on_idle now u r scratch s (some c) idle ∙ answers
