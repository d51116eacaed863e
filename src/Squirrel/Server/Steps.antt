-- ===== src/Squirrel/Server/Steps.antt =====
-- What the parts of `handle` that send return, where they do not panic
-- (haysel/squirrel/src/transport/server.rs).
use hayselnut.Common.{
  ℕ, ◌-◌, ◌≤◌, ◌≡◌, List, [], ◌∷◌, ◌++◌, min, length, replicate, take, drop, returns, arith,
  length-take, take-min, drop-min,
}
use hayselnut.Squirrel.Packet.{Packet, next_uid, frame_buf_size}
use hayselnut.Squirrel.Server.{
  ClientInterface, send, fill_buf, send_frame, repeat_frame, advance_uid, frame_packet,
}

-- A frame's buffer: the data, and zeros up to its size.
abbrev pub padded : List ℕ → List ℕ
padded part = part ++ replicate (frame_buf_size - length part) 0

-- The frame that carries `part`.
abbrev pub part_packet : ℕ → ℕ → List ℕ → Packet
part_packet packet responding_to part =
    frame_packet packet responding_to (length part) (padded part)

pub fill_buf_lem :
    (part : List ℕ) → length part ≤ frame_buf_size → fill_buf part ≡ returns (padded part)
unfolding fill_buf
fill_buf_lem part h = ground arith

pub length-part : (buf : List ℕ) → length (take frame_buf_size buf) ≤ frame_buf_size
length-part buf = omega (arith, length-take frame_buf_size buf)

-- The state after the next part has been sent.
abbrev pub part_sent : ClientInterface → ClientInterface
part_sent c = record (advance_uid c) {
  send_buf = drop frame_buf_size c.send_buf;
  last_sent_send_buf = take frame_buf_size c.send_buf;
}

-- The next part goes out under a new uid, and no slice is out of range.
pub send_frame_lem :
    (c : ClientInterface)
    → send_frame c
      ≡ returns (
        part_sent c,
        send (part_packet (next_uid c.uid_gen) c.respond_to (take frame_buf_size c.send_buf)) ∷ [],
      )
unfolding send_frame
send_frame_lem c =
    let at : ℕ = min frame_buf_size (length c.send_buf) in
    let e : at ≡ length (take frame_buf_size c.send_buf) =
      omega (arith, length-take frame_buf_size c.send_buf) in
    rw (
      take-min frame_buf_size c.send_buf,
      drop-min frame_buf_size c.send_buf,
      fill_buf_lem (take frame_buf_size c.send_buf) (length-part c.send_buf),
      e,
    )

pub repeat_frame_lem :
    (c : ClientInterface)
    → length c.last_sent_send_buf ≤ frame_buf_size
    → repeat_frame c
      ≡ returns (c, send (part_packet c.last_sent c.respond_to c.last_sent_send_buf) ∷ [])
unfolding repeat_frame
repeat_frame_lem c h = rw (fill_buf_lem c.last_sent_send_buf h)
