-- ===== src/CsSquirrel/Packet/RoundTrip.antt =====
-- What is written over a scratch buffer, the other side reads (haysel/cs_squirrel/src/packet.rs).
use hayselnut.Common.{
  ℕ, ◌+◌, ◌^◌, ◌≤◌, ◌<◌, ◌≡◌, refl, List, ◌++◌, length, drop, returns, arith, take_all, leb, true,
}
use hayselnut.Squirrel.Wire.{ByteOrder}
use hayselnut.CsSquirrel.Uid.{Uid}
use hayselnut.CsSquirrel.Packet.{
  Frame, frame, data_of, CmdKind, kind_byte, ok, Read, cmd, try_read, portion_to_send,
}
use hayselnut.CsSquirrel.Packet.Bytes.{send_cmd_lem, send_data_lem, cmd_bytes, frame_bytes}
use hayselnut.CsSquirrel.Packet.Answers.{send_cmd, send_data}
use hayselnut.CsSquirrel.Packet.Reading.{cmd_portion, cmd_read, frame_portion, frame_read}

abbrev pub cmd_packet : Uid → Uid → CmdKind → Read
cmd_packet a b k = cmd (record {
  head = record { packet = a; responding_to = b; packet_ty = 0xBB };
  command = kind_byte k;
})

abbrev pub frame_packet : Uid → Uid → List ℕ → Frame
frame_packet a b d = record {
  head = record { packet = a; responding_to = b; packet_ty = 0xAA };
  len = length d;
  data_bytes = d;
}

pub data_of-frame_packet : (a b : Uid) (d : List ℕ) → data_of (frame_packet a b d) ≡ ok d
unfolding data_of
data_of-frame_packet a b d =
    let whole : leb (length d) (length d) ≡ true = ground arith in
    rw (whole, take_all (length d) d (omega arith)) refl

module _ (order : ByteOrder) where
  -- What the other side reads of what is sent of a buffer.
  abbrev pub Says : List ℕ → Read → Type 0
  Says inner pkt =
      (sent : List ℕ) × (portion_to_send order inner ≡ returns sent)
      × (try_read order sent ≡ ok pkt)

  -- Over a scratch buffer of at least ten bytes a command with 32-bit ids is written, whatever the
  -- buffer holds, and what is sent of it is read as that command.
  pub send_cmd-Says :
      (a b : Uid) (k : CmdKind) (scratch : List ℕ)
      → a < 2 ^ 32
      → b < 2 ^ 32
      → 10 ≤ length scratch
      → (inner : List ℕ) × (send_cmd order a b k scratch ≡ returns inner)
        × Says inner (cmd_packet a b k)
  send_cmd-Says a b k scratch ha hb room = (
    cmd_bytes order a b k ++ drop 10 scratch,
    send_cmd_lem order a b k scratch room,
    (cmd_bytes order a b k, cmd_portion order a b k (drop 10 scratch), cmd_read order a b k ha hb),
  )

  -- Over a scratch buffer with room for it, eleven bytes and the data, a frame of less than 65536 bytes with
  -- 32-bit ids is written, whatever the buffer holds, and what is sent of it is read as a frame with these
  -- ids, of which the data are those.
  pub send_data-Says :
      (a b : Uid) (d scratch : List ℕ)
      → a < 2 ^ 32
      → b < 2 ^ 32
      → length d < 2 ^ 16
      → 11 + length d ≤ length scratch
      → (inner : List ℕ) × (send_data order a b d scratch ≡ returns inner)
        × Says inner (frame (frame_packet a b d))
        × (data_of (frame_packet a b d) ≡ ok d)
  send_data-Says a b d scratch ha hb small room = (
    frame_bytes order a b d ++ drop (11 + length d) scratch,
    send_data_lem order a b d scratch room small,
    (
      frame_bytes order a b d,
      frame_portion order a b d (drop (11 + length d) scratch) ha hb small,
      frame_read order a b d ha hb small,
    ),
    data_of-frame_packet a b d,
  )
