-- ===== src/CsSquirrel/Packet/Bytes.antt =====
-- The bytes that are written over a scratch buffer (haysel/cs_squirrel/src/packet.rs).
use hayselnut.Common.{
  ℕ, ◌+◌, ◌^◌, ◌≤◌, ◌<◌, ◌≡◌, refl, ap, ◌∙◌, List, [], ◌∷◌, ◌++◌, length, drop, returns, arith,
  length-append, length-drop, append_assoc, le→leb, false, true, ltb, ◌>>=◌,
}
use hayselnut.Squirrel.Wire.{ByteOrder}
use hayselnut.CsSquirrel.Uid.{Uid}
use hayselnut.CsSquirrel.Packet.{
  write_frame_with, frame_new, new, with_packet, with_responding_to, write_at, write_cmd, CmdKind,
  kind_byte, ok,
}
use hayselnut.CsSquirrel.Packet.Written.{
  write_at_extends, write_at_start, drop_uncons, write_at_over,
}
use hayselnut.CsSquirrel.Packet.Answers.{write_head, send_cmd, send_data}

module _ (order : ByteOrder) where
  open order use {
    u32_bytes, u32_read, u16_bytes, u16_read, u32_length, u16_length, u32_exact, u16_exact,
  }

  unfoldable pub uids : Uid → Uid → List ℕ
  uids a b = u32_bytes a ++ u32_bytes b

  pub length-uids : (a b : Uid) → length (uids a b) ≡ 8
  unfolding uids
  length-uids a b =
      omega (arith, length-append (u32_bytes a) (u32_bytes b), u32_length a, u32_length b)

  pub write_head_lem :
      (a b : Uid) (scratch : List ℕ)
      → 9 ≤ length scratch
      → write_head order a b scratch ≡ returns (uids a b ++ drop 8 scratch)
  unfolding write_head new with_packet with_responding_to uids
  write_head_lem a b scratch h =
      let first : write_at 0 (u32_bytes a) scratch ≡ u32_bytes a ++ drop 4 scratch =
        write_at_start (u32_bytes a) scratch
        ∙ ap (λ n. u32_bytes a ++ drop n scratch) (u32_length a) in
      let second : write_at 4 (u32_bytes b) (u32_bytes a ++ drop 4 scratch)
          ≡ (u32_bytes a ++ u32_bytes b) ++ drop 8 scratch =
        write_at_extends 4 (u32_bytes a) (u32_bytes b) scratch (u32_length a)
        ∙ ap (λ n. (u32_bytes a ++ u32_bytes b) ++ drop n scratch) (omega (arith, u32_length b)) in
      let size : length (u32_bytes a ++ drop 4 scratch) ≡ length scratch = omega (
        arith,
        length-append (u32_bytes a) (drop 4 scratch),
        u32_length a,
        length-drop 4 scratch,
      ) in
      let fits : 9 ≤ length (u32_bytes a ++ drop 4 scratch) = omega arith in
      ground (arith, first, second, size, fits)

  -- The bytes of a command, and of a frame.
  unfoldable pub cmd_bytes : Uid → Uid → CmdKind → List ℕ
  cmd_bytes a b k = uids a b ++ (0xBB ∷ kind_byte k ∷ [])

  unfoldable pub frame_bytes : Uid → Uid → List ℕ → List ℕ
  frame_bytes a b bytes = uids a b ++ (0xAA ∷ (u16_bytes (length bytes) ++ bytes))

  pub send_cmd_lem :
      (a b : Uid) (k : CmdKind) (scratch : List ℕ)
      → 10 ≤ length scratch
      → send_cmd order a b k scratch ≡ returns (cmd_bytes a b k ++ drop 10 scratch)
  unfolding send_cmd write_cmd cmd_bytes
  send_cmd_lem a b k scratch h =
      let head = write_head_lem a b scratch (omega arith) in
      let type_at : write_at 8 (0xBB ∷ []) (uids a b ++ drop 8 scratch)
          ≡ (uids a b ++ (0xBB ∷ [])) ++ drop 9 scratch =
        write_at_extends 8 (uids a b) (0xBB ∷ []) scratch (length-uids a b) in
      let size : length (uids a b ++ (0xBB ∷ [])) ≡ 9 =
        omega (arith, length-append (uids a b) (0xBB ∷ []), length-uids a b) in
      let kind_at : write_at 9 (kind_byte k ∷ []) ((uids a b ++ (0xBB ∷ [])) ++ drop 9 scratch)
          ≡ ((uids a b ++ (0xBB ∷ [])) ++ (kind_byte k ∷ [])) ++ drop 10 scratch =
        write_at_extends 9 (uids a b ++ (0xBB ∷ [])) (kind_byte k ∷ []) scratch size in
      let whole : length (uids a b ++ drop 8 scratch) ≡ length scratch = omega (
        arith,
        length-append (uids a b) (drop 8 scratch),
        length-uids a b,
        length-drop 8 scratch,
      ) in
      let fits : 10 ≤ length (uids a b ++ drop 8 scratch) = omega arith in
      rw (head, ◌>>=◌)
        (rw
          (
            le→leb 10 (length (uids a b ++ drop 8 scratch)) fits,
            type_at,
            kind_at,
            append_assoc (uids a b) (0xBB ∷ []) (kind_byte k ∷ []),
          )
          refl)

  pub length-frame_bytes : (a b : Uid) (d : List ℕ) → length (frame_bytes a b d) ≡ 11 + length d
  unfolding frame_bytes
  length-frame_bytes a b d = omega (
    arith,
    length-append (uids a b) (0xAA ∷ (u16_bytes (length d) ++ d)),
    length-append (u16_bytes (length d)) d,
    length-uids a b,
    u16_length (length d),
  )

  -- The length and the data are written first, and the type over what stood before them.
  pub write_frame_lem :
      (a b : Uid) (d scratch : List ℕ)
      → 11 + length d ≤ length scratch
      → length d < 2 ^ 16
      → write_frame_with order d (uids a b ++ drop 8 scratch)
        ≡ returns (ok (frame_bytes a b d ++ drop (11 + length d) scratch))
  unfolding write_frame_with frame_new frame_bytes
  write_frame_lem a b d scratch room small =
      let (x, first) = drop_uncons 8 scratch (omega arith) in
      let body = u16_bytes (length d) ++ d in
      let opened : uids a b ++ drop 8 scratch ≡ (uids a b ++ (x ∷ [])) ++ drop 9 scratch =
        rw (first, append_assoc (uids a b) (x ∷ []) (drop 9 scratch)) refl in
      let size : length (uids a b ++ (x ∷ [])) ≡ 9 =
        omega (arith, length-append (uids a b) (x ∷ []), length-uids a b) in
      let body_size : length body ≡ 2 + length d =
        omega (arith, length-append (u16_bytes (length d)) d, u16_length (length d)) in
      let end : 9 + length body ≡ 11 + length d = omega arith in
      let stored : write_at 9 body ((uids a b ++ (x ∷ [])) ++ drop 9 scratch)
          ≡ ((uids a b ++ (x ∷ [])) ++ body) ++ drop (11 + length d) scratch =
        write_at_extends 9 (uids a b ++ (x ∷ [])) body scratch size
        ∙ ap (λ n. ((uids a b ++ (x ∷ [])) ++ body) ++ drop n scratch) end in
      let flat : ((uids a b ++ (x ∷ [])) ++ body) ++ drop (11 + length d) scratch
          ≡ uids a b ++ (x ∷ (body ++ drop (11 + length d) scratch)) =
        rw
          (
            append_assoc (uids a b) (x ∷ []) body,
            append_assoc (uids a b) (x ∷ body) (drop (11 + length d) scratch),
          )
          refl in
      let typed =
        write_at_over 8 x 0xAA (uids a b) (body ++ drop (11 + length d) scratch)
          (length-uids a b) in
      let whole : length ((uids a b ++ (x ∷ [])) ++ drop 9 scratch) ≡ length scratch = omega (
        arith,
        length-append (uids a b ++ (x ∷ [])) (drop 9 scratch),
        size,
        length-drop 9 scratch,
      ) in
      let roomy : ltb (length ((uids a b ++ (x ∷ [])) ++ drop 9 scratch)) (11 + length d) ≡ false =
        ground (arith, whole) in
      let fits : ltb (length d) (2 ^ 16) ≡ true = ground arith in
      rw
        (
          opened,
          roomy,
          fits,
          stored,
          flat,
          typed,
          append_assoc (uids a b) (0xAA ∷ body) (drop (11 + length d) scratch),
          write_frame_with,
        )
        refl

  pub send_data_lem :
      (a b : Uid) (d scratch : List ℕ)
      → 11 + length d ≤ length scratch
      → length d < 2 ^ 16
      → send_data order a b d scratch ≡ returns (frame_bytes a b d ++ drop (11 + length d) scratch)
  unfolding send_data
  send_data_lem a b d scratch room small =
      rw (write_head_lem a b scratch (omega arith), ◌>>=◌)
        (rw (write_frame_lem a b d scratch room small, ◌>>=◌) refl)
