-- ===== src/CsSquirrel/Server/Bounds.antt =====
-- How long the packets are that the server sends (`calc_max_data` and the arm of Confirm in
-- `ConnState::process` of haysel/cs_squirrel/src/server/mech.rs).
use hayselnut.Common.{
  [], ◌∷◌, ◌++◌, ℕ, ◌+◌, ◌^◌, ◌≤◌, ◌<◌, ◌≡◌, ◌⊎◌, inl, inr, refl, List, length, drop, min, some,
  returns, arith, length-take, length-append,
}
use hayselnut.Squirrel.Wire.{ByteOrder}
use hayselnut.CsSquirrel.Cursor.{Cursor}
use hayselnut.CsSquirrel.Packet.{confirm, complete, portion_to_send}
use hayselnut.CsSquirrel.Packet.Bytes.{
  cmd_bytes, frame_bytes, uids, length-uids, length-frame_bytes,
}
use hayselnut.CsSquirrel.Packet.Reading.{cmd_portion, frame_portion}
use hayselnut.CsSquirrel.Packet.RoundTrip.{cmd_packet}
use hayselnut.CsSquirrel.Server.{ConnState, process, Step, done, answer}
use hayselnut.CsSquirrel.Server.Receiving.{IsNumbered, InTime}
use hayselnut.CsSquirrel.Server.Sending.{
  IsSending, HasRoom, room_for, part_of, process_confirm, process_confirm_end,
}

module _ (order : ByteOrder) where
  -- While the server sends, has sent the last id that it has generated, which is not null and does not wrap next, and a
  -- packet and the scratch buffer have room for a frame with data: what it sends in answer to a Confirm of its
  -- last packet that comes in time is no longer than the largest packet of the transport, and than the scratch buffer.
  pub confirm_fits :
      (now u : ℕ) (scratch : List ℕ) (s : ConnState) (c : Cursor)
      → IsSending s
      → IsNumbered 1 s
      → InTime s now
      → HasRoom s scratch
      → u < 2 ^ 32
      → c.cursor ≤ length c.inner
      → (step : Step) × (write sent : List ℕ) × (process order now
            (cmd_packet u s.last_sent confirm)
            scratch
            s
            (some c)
          ≡ returns step)
        × (step.result ≡ done (answer write))
        × (portion_to_send order write ≡ returns sent)
        × (length sent ≤ s.env.max_packet_size)
        × (length sent ≤ length scratch)
  unfolding cmd_bytes
  confirm_fits now u scratch s c sending numbered early room id within =
      let cases : (length c.inner ≡ c.cursor) ⊎ (c.cursor < length c.inner) = omega arith in
      let part = part_of c (room_for s scratch) in
      let size =
        length-take (min (length (drop c.cursor c.inner)) (room_for s scratch))
          (drop c.cursor c.inner) in
      let a = s.last_sent + 1 in
      elim cases [
        | inl end ↦ (
          _,
          cmd_bytes order a u complete ++ drop 10 scratch,
          cmd_bytes order a u complete,
          process_confirm_end order now u scratch s c sending numbered early room end,
          refl,
          cmd_portion order a u complete (drop 10 scratch),
          omega (
            arith,
            length-append (uids order a u) (0xBB ∷ 3 ∷ []),
            length-uids order a u,
            room.packet_size,
          ),
          omega (
            arith,
            length-append (uids order a u) (0xBB ∷ 3 ∷ []),
            length-uids order a u,
            room.scratch_size,
          ),
        )
        | inr more ↦ (
          _,
          frame_bytes order a u part ++ drop (11 + length part) scratch,
          frame_bytes order a u part,
          process_confirm order now u scratch s c sending numbered early room more,
          refl,
          frame_portion order a u part (drop (11 + length part) scratch)
              (omega (arith, numbered.fits)) id (omega (arith, size, room.packet_small)),
          omega
              (arith, length-frame_bytes order a u part, size, room.packet_size, room.scratch_size),
          omega
              (arith, length-frame_bytes order a u part, size, room.packet_size, room.scratch_size),
        )
      ]
