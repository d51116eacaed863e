-- ===== src/Squirrel/Wire/RoundTrip.antt =====
-- What `Packet::as_bytes` writes, `read_packet` reads back
-- (haysel/squirrel/src/transport.rs).
use hayselnut.Common.{
  ℕ, ◌+◌, ◌-◌, ◌^◌, ◌≤◌, ◌<◌, ◌≡◌, refl, ap, ◌∙◌, List, ◌∷◌, ◌++◌, length, replicate, take, drop,
  some, returns, arith, length-append, length-take, take-append, drop-append, take-append-drop,
  drop-add, get_elem?-append, get_elem?-take,
}
use hayselnut.Squirrel.Packet.{
  udp_max_size, Packet, cmd, frame, Cmd, Frame, frame_buf_size, packet_type_frame,
  packet_type_command,
}
use hayselnut.Squirrel.Wire.{
  ByteOrder, extract_packet_type, frame_bytes, frame_read, cmd_bytes, cmd_read_from,
  from_bytes_compact, as_bytes, read_packet, CmdIsValid, FrameIsValid, IsValid,
}

module _ (order : ByteOrder) where
  open order use {
    u32_bytes, u32_read, u16_bytes, u16_read, u32_length, u16_length, u32_exact, u16_exact,
  }

  -- Nine bytes in: behind the two uids stands the type.
  type_at :
      (p q ty : ℕ) (rest : List ℕ)
      → extract_packet_type (u32_bytes p ++ (u32_bytes q ++ (ty ∷ rest))) ≡ some ty
  unfolding extract_packet_type
  type_at p q ty rest =
      get_elem?-append (u32_bytes p) (u32_bytes q ++ (ty ∷ rest)) 4 4 (u32_length p)
      ∙ get_elem?-append (u32_bytes q) (ty ∷ rest) 4 0 (u32_length q)

  after_uids :
      (p q : ℕ) (rest : List ℕ) → drop 4 (drop 4 (u32_bytes p ++ (u32_bytes q ++ rest))) ≡ rest
  after_uids p q rest =
      rw (drop-append 4 (u32_bytes p) (u32_bytes q ++ rest) (u32_length p))
        (drop-append 4 (u32_bytes q) rest (u32_length q))

  first_uid : (p : ℕ) (rest : List ℕ) → p < 2 ^ 32 → u32_read (take 4 (u32_bytes p ++ rest)) ≡ p
  first_uid p rest h = rw (take-append 4 (u32_bytes p) rest (u32_length p)) (u32_exact p h)

  second_uid :
      (p q : ℕ) (rest : List ℕ)
      → q < 2 ^ 32
      → u32_read (take 4 (drop 4 (u32_bytes p ++ (u32_bytes q ++ rest)))) ≡ q
  second_uid p q rest h =
      rw (drop-append 4 (u32_bytes p) (u32_bytes q ++ rest) (u32_length p)) (first_uid q rest h)

  length-frame_bytes : (f : Frame) → length (frame_bytes order f) ≡ 12 + length f.bytes
  unfolding frame_bytes
  length-frame_bytes f =
      omega (
        arith,
        length-append {0},
        u32_length f.packet,
        u32_length f.responding_to,
        u16_length f.len,
      )

  length-cmd_bytes : (c : Cmd) → length (cmd_bytes order c) ≡ 10 + length c.padding
  unfolding cmd_bytes
  length-cmd_bytes c =
      omega (arith, length-append {0}, u32_length c.packet, u32_length c.responding_to)

  cmd_read-cmd_bytes : (c : Cmd) → CmdIsValid c → cmd_read_from order (cmd_bytes order c) ≡ some c
  unfolding cmd_read_from
  cmd_read-cmd_bytes c v =
      rw (length-cmd_bytes c, v.padded)
        (unfold cmd_bytes drop in
          rw (
            first_uid c.packet _ v.packet_u32,
            second_uid c.packet c.responding_to _ v.responding_u32,
            after_uids c.packet c.responding_to _,
          ))

  frame_read-frame_bytes : (f : Frame) → FrameIsValid f → frame_read order (frame_bytes order f) ≡ f
  unfolding frame_read frame_bytes drop
  frame_read-frame_bytes f v =
      rw
        (
          first_uid f.packet _ v.packet_u32,
          second_uid f.packet f.responding_to _ v.responding_u32,
          after_uids f.packet f.responding_to _,
        )
        (rw (
          take-append 2 (u16_bytes f.len) f.bytes (u16_length f.len),
          drop-append 2 (u16_bytes f.len) f.bytes (u16_length f.len),
          u16_exact f.len (omega (arith, v.len_fits)),
        ))

  -- Behind the twelve bytes of the head stands the data.
  drop-frame_bytes : (f : Frame) → drop 12 (frame_bytes order f) ≡ f.bytes
  unfolding frame_bytes drop
  drop-frame_bytes f = rw (
    drop-add 4 8 (frame_bytes order f),
    drop-append 4 (u32_bytes f.packet) _ (u32_length f.packet),
    drop-add 4 4
        (u32_bytes f.responding_to ++ (f.packet_ty ∷ f.pad ∷ (u16_bytes f.len ++ f.bytes))),
    drop-append 4 (u32_bytes f.responding_to) _ (u32_length f.responding_to),
    drop-append 2 (u16_bytes f.len) f.bytes (u16_length f.len),
  )

  -- The part of a valid frame that is not sent is all zeros.
  unsent_zero :
      (f : Frame)
      → FrameIsValid f
      → drop (12 + f.len) (frame_bytes order f) ≡ replicate (frame_buf_size - f.len) 0
  unsent_zero f v = rw (drop-add 12 f.len (frame_bytes order f), drop-frame_bytes f, v.zeroed)

  length_sent :
      (f : Frame) → FrameIsValid f → length (take (12 + f.len) (frame_bytes order f)) ≡ 12 + f.len
  length_sent f v = omega (
    arith,
    length-take (12 + f.len) (frame_bytes order f),
    length-frame_bytes f,
    v.len_fits,
    v.sized,
  )

  frame_type :
      (f : Frame)
      → FrameIsValid f
      → extract_packet_type (take (12 + f.len) (frame_bytes order f)) ≡ some packet_type_frame
  unfolding extract_packet_type frame_bytes
  frame_type f v =
      get_elem?-take (12 + f.len) 8 (frame_bytes order f) (omega arith)
      ∙ (type_at f.packet f.responding_to f.packet_ty _ ∙ ap some v.typed)

  -- Padding with zeros gives back the frame's own bytes.
  restored :
      (f : Frame)
      → FrameIsValid f
      → let sent = take (12 + f.len) (frame_bytes order f) in
        sent ++ replicate (508 - length sent) 0 ≡ frame_bytes order f
  restored f v =
      let e : 508 - (12 + f.len) ≡ frame_buf_size - f.len = omega arith in
      rw (length_sent f v, e, ← unsent_zero f v)
        (take-append-drop (12 + f.len) (frame_bytes order f))

  from_bytes_compact_lem :
      (f : Frame)
      → FrameIsValid f
      → from_bytes_compact order (take (12 + f.len) (frame_bytes order f)) ≡ some f
  unfolding from_bytes_compact
  from_bytes_compact_lem f v =
      ground (arith, length_sent f v, restored f v, frame_read-frame_bytes f v, v.len_fits)

  -- A packet's variant is told by its type byte.
  pub read_packet-cmd :
      (bytes : List ℕ) (c : Cmd)
      → read_packet order bytes ≡ some (cmd c)
      → extract_packet_type bytes ≡ some packet_type_command
  unfolding read_packet
  read_packet-cmd bytes c r = ground arith

  pub read_packet-frame :
      (bytes : List ℕ) (f : Frame)
      → read_packet order bytes ≡ some (frame f)
      → extract_packet_type bytes ≡ some packet_type_frame
  unfolding read_packet
  read_packet-frame bytes f r = ground arith

  -- A valid packet can be written without a panic, in at most 508 bytes, and `read_packet` gives it
  -- back from them.
  pub read_packet-as_bytes :
      (p : Packet)
      → IsValid p
      → (bytes : List ℕ) × (as_bytes order p ≡ returns bytes)
        × (length bytes ≤ udp_max_size)
        × (read_packet order bytes ≡ some p)
  unfolding as_bytes read_packet
  read_packet-as_bytes (cmd c) v =
      let ty : extract_packet_type (cmd_bytes order c) ≡ some packet_type_command =
        rw (← v.typed) (unfold cmd_bytes in type_at c.packet c.responding_to c.packet_ty _) in
      (
        cmd_bytes order c,
        refl,
        omega (arith, length-cmd_bytes c, v.padded),
        ground (arith, ty, cmd_read-cmd_bytes c v),
      )
  read_packet-as_bytes (frame f) v = (
    take (12 + f.len) (frame_bytes order f),
    ground (arith, length-frame_bytes f, v.len_fits, v.sized),
    omega (arith, length_sent f v, v.len_fits),
    ground (arith, frame_type f v, from_bytes_compact_lem f v),
  )
