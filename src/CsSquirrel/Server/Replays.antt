-- ===== src/CsSquirrel/Server/Replays.antt =====
-- Confirms that come twice (the arms of Confirm in
-- `ConnState::process` of haysel/cs_squirrel/src/server/mech.rs).
use hayselnut.Common.{
  ℕ, ◌+◌, ◌^◌, ◌≤◌, ◌<◌, ◌≡◌, ◌∙◌, ◌⊎◌, inl, inr, refl, List, true, false, ◌==◌, length, drop, min,
  Option, some, returns, ◌>>=◌, arith, length-take,
}
use hayselnut.Squirrel.Wire.{ByteOrder}
use hayselnut.CsSquirrel.Cursor.{Cursor}
use hayselnut.CsSquirrel.Packet.{confirm, complete, kind}
use hayselnut.CsSquirrel.Packet.Bytes.{send_cmd_lem, send_data_lem}
use hayselnut.CsSquirrel.Packet.RoundTrip.{cmd_packet}
use hayselnut.CsSquirrel.Server.{
  ConnState, send, send_done, process, Step, done, answer, on_confirm, on_confirm_again,
}
use hayselnut.CsSquirrel.Server.Receiving.{IsNumbered, InTime}
use hayselnut.CsSquirrel.Server.Sending.{
  IsSending, HasRoom, room_for, followed, part_of, cursor_behind, on_sending, framed, completed,
  process_confirm, process_confirm_end,
}

module _ (order : ByteOrder) where
  -- A Confirm that came already, of an older packet, is answered with the same frame as before.
  process_confirm_again :
      (now u r : ℕ) (bytes scratch : List ℕ) (s : ConnState) (c : Cursor)
      → s.state ≡ send
      → s.responding_to ≡ u
      → 1 ≤ u
      → r < s.last_sent
      → InTime s now
      → c.last ≡ some bytes
      → 11 + length bytes ≤ length scratch
      → length bytes < 2 ^ 16
      → process order now (cmd_packet u r confirm) scratch s (some c)
        ≡ returns (record {
          result = framed order s.last_sent s.responding_to bytes scratch;
          next_state = s;
          cursor = some c;
        })
  process_confirm_again now u r bytes scratch s c state last id old early sent room small =
      let other : (r == s.last_sent) ≡ false = ground arith in
      let same : (u == s.responding_to) ≡ true = ground arith in
      let set : (s.responding_to == 0) ≡ false = ground arith in
      on_sending order u r now scratch s (some c) (inr state) early
      ∙ (unfold on_confirm in
          rw
            (
              other,
              same,
              set,
              sent,
              send_data_lem order s.last_sent s.responding_to bytes scratch room small,
              ◌>>=◌,
            )
            refl)

  process_confirm_end_again :
      (now u r : ℕ) (scratch : List ℕ) (s : ConnState) (c : Option Cursor)
      → s.state ≡ send_done
      → s.responding_to ≡ u
      → 1 ≤ u
      → 10 ≤ length scratch
      → process order now (cmd_packet u r confirm) scratch s c
        ≡ returns (record {
          result = completed order s.last_sent s.responding_to scratch;
          next_state = s;
          cursor = c;
        })
  unfolding process kind
  process_confirm_end_again now u r scratch s c state last id room =
      let same : (u == s.responding_to) ≡ true = ground arith in
      let set : (s.responding_to == 0) ≡ false = ground arith in
      simp state (
        unfold on_confirm_again in
        rw (same, set, send_cmd_lem order s.last_sent s.responding_to complete scratch room, ◌>>=◌)
          refl)

  -- While the server sends, has sent the last id that it has generated, which is not null and whose successor is a u32
  -- that does not wrap, and a packet and the scratch buffer have room for a frame with data: a Confirm of its last packet that comes in
  -- time with an id that is not null is answered. When it comes again, in time, over a scratch buffer with the
  -- same bytes, it is answered with the same bytes, and changes neither the state nor the cursor.
  pub confirm_again :
      (now later u : ℕ) (scratch : List ℕ) (s : ConnState) (c : Cursor)
      → IsSending s
      → IsNumbered 1 s
      → InTime s now
      → InTime s later
      → HasRoom s scratch
      → 1 ≤ u
      → c.cursor ≤ length c.inner
      → (step : Step) × (write : List ℕ) × (process order now
            (cmd_packet u s.last_sent confirm)
            scratch
            s
            (some c)
          ≡ returns step)
        × (step.result ≡ done (answer write))
        × (process order later
              (cmd_packet u s.last_sent confirm)
              scratch
              step.next_state
              step.cursor
            ≡ returns step)
  confirm_again now later u scratch s c sending numbered early in_time room id within =
      let cases : (length c.inner ≡ c.cursor) ⊎ (c.cursor < length c.inner) = omega arith in
      let size =
        length-take (min (length (drop c.cursor c.inner)) (room_for s scratch))
          (drop c.cursor c.inner) in
      elim cases [
        | inl end ↦ (
          _,
          _,
          process_confirm_end order now u scratch s c sending numbered early room end,
          refl,
          process_confirm_end_again later u s.last_sent scratch
              (record (followed u s) { state = send_done }) _ refl refl id
              (omega (arith, room.scratch_size)),
        )
        | inr more ↦ (
          _,
          _,
          process_confirm order now u scratch s c sending numbered early room more,
          refl,
          process_confirm_again later u s.last_sent (part_of c (room_for s scratch)) scratch
              (followed u s) (cursor_behind c (room_for s scratch)) refl refl id (omega arith)
              in_time refl (omega (arith, size, room.packet_size, room.scratch_size))
              (omega (arith, size, room.packet_small)),
        )
      ]
