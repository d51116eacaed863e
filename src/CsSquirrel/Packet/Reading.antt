-- ===== src/CsSquirrel/Packet/Reading.antt =====
-- What is sent of a buffer, and how it is read (haysel/cs_squirrel/src/packet.rs).
use hayselnut.Common.{
  ℕ, ◌+◌, ◌^◌, ◌≤◌, ◌<◌, ◌≡◌, refl, ap, ◌∙◌, List, [], ◌∷◌, ◌++◌, length, take, drop, get_elem?,
  returns, some, arith, length-append, take-append, drop-append, drop-add, get_elem?-append,
  append_assoc, le→leb, leb, false, true, ltb, get_or, get_or-append,
}
use hayselnut.Squirrel.Wire.{ByteOrder}
use hayselnut.CsSquirrel.Uid.{Uid}
use hayselnut.CsSquirrel.Packet.{
  type_of, ref_buf, frame, data_of, cmd_from_prefix, command_type, frame_type, head_at, CmdKind,
  kind_byte, ok, cmd, extract, try_read, portion_to_send,
}
use hayselnut.CsSquirrel.Packet.Bytes.{
  uids, length-uids, cmd_bytes, frame_bytes, length-frame_bytes,
}

module _ (order : ByteOrder) where
  open order use {
    u32_bytes, u32_read, u16_bytes, u16_read, u32_length, u16_length, u32_exact, u16_exact,
  }

  extract-uids :
      (a b : Uid) (ty : ℕ) (rest : List ℕ) → extract (uids order a b ++ (ty ∷ rest)) ≡ type_of ty
  unfolding extract
  extract-uids a b ty rest =
      let at : get_elem? (uids order a b ++ (ty ∷ rest)) 8 ≡ some ty =
        get_elem?-append (uids order a b) (ty ∷ rest) 8 0 (length-uids order a b) in
      rw (at, extract) refl

  head_at-uids :
      (a b : Uid) (ty : ℕ) (rest : List ℕ)
      → a < 2 ^ 32
      → b < 2 ^ 32
      → head_at order (uids order a b ++ (ty ∷ rest))
        ≡ record { packet = a; responding_to = b; packet_ty = ty }
  unfolding uids
  head_at-uids a b ty rest ha hb =
      rw
        (
          append_assoc (u32_bytes a) (u32_bytes b) (ty ∷ rest),
          take-append 4 (u32_bytes a) (u32_bytes b ++ (ty ∷ rest)) (u32_length a),
          drop-append 4 (u32_bytes a) (u32_bytes b ++ (ty ∷ rest)) (u32_length a),
          take-append 4 (u32_bytes b) (ty ∷ rest) (u32_length b),
          u32_exact a ha,
          u32_exact b hb,
        )
        (let at : get_or (u32_bytes a ++ (u32_bytes b ++ (ty ∷ rest))) 8 0 ≡ ty =
            get_or-append (u32_bytes a) (u32_bytes b ++ (ty ∷ rest)) 4 4 0 (u32_length a)
            ∙ get_or-append (u32_bytes b) (ty ∷ rest) 4 0 0 (u32_length b) in
          rw at refl)

  -- The part of a written command that is sent is the command.
  pub cmd_portion :
      (a b : Uid) (k : CmdKind) (rest : List ℕ)
      → portion_to_send order (cmd_bytes order a b k ++ rest) ≡ returns (cmd_bytes order a b k)
  unfolding portion_to_send cmd_bytes
  cmd_portion a b k rest =
      let sized : length (uids order a b ++ (0xBB ∷ kind_byte k ∷ [])) ≡ 10 =
        omega (
          arith,
          length-append (uids order a b) (0xBB ∷ kind_byte k ∷ []),
          length-uids order a b,
        ) in
      let fits : 10 ≤ length ((uids order a b ++ (0xBB ∷ kind_byte k ∷ [])) ++ rest) =
        omega (arith, sized, length-append (uids order a b ++ (0xBB ∷ kind_byte k ∷ [])) rest) in
      let typed : extract ((uids order a b ++ (0xBB ∷ kind_byte k ∷ [])) ++ rest)
          ≡ ok command_type =
        rw (append_assoc (uids order a b) (0xBB ∷ kind_byte k ∷ []) rest)
          (extract-uids a b 0xBB (kind_byte k ∷ rest)) in
      rw
        (
          typed,
          le→leb 10 _ fits,
          take-append 10 (uids order a b ++ (0xBB ∷ kind_byte k ∷ [])) rest sized,
          portion_to_send,
        )
        refl

  pub cmd_read :
      (a b : Uid) (k : CmdKind)
      → a < 2 ^ 32
      → b < 2 ^ 32
      → try_read order (cmd_bytes order a b k)
        ≡ ok (
            cmd (record {
              head = record { packet = a; responding_to = b; packet_ty = 0xBB };
              command = kind_byte k;
            }))
  unfolding try_read cmd_bytes cmd_from_prefix
  cmd_read a b k ha hb =
      let sized : length (uids order a b ++ (0xBB ∷ kind_byte k ∷ [])) ≡ 10 =
        omega (
          arith,
          length-append (uids order a b) (0xBB ∷ kind_byte k ∷ []),
          length-uids order a b,
        ) in
      let at : get_or (uids order a b ++ (0xBB ∷ kind_byte k ∷ [])) 9 0 ≡ kind_byte k =
        get_or-append (uids order a b) (0xBB ∷ kind_byte k ∷ []) 8 1 0 (length-uids order a b) in
      rw
        (
          extract-uids a b 0xBB (kind_byte k ∷ []),
          sized,
          head_at-uids a b 0xBB (kind_byte k ∷ []) ha hb,
          at,
          try_read,
          cmd_from_prefix,
        )
        refl

  -- Behind a type stand a length and the data.
  ref_buf-uids :
      (a b : Uid) (n : ℕ) (rest : List ℕ)
      → a < 2 ^ 32
      → b < 2 ^ 32
      → n < 2 ^ 16
      → ref_buf order (uids order a b ++ (0xAA ∷ (u16_bytes n ++ rest)))
        ≡ ok (record {
          head = record { packet = a; responding_to = b; packet_ty = 0xAA };
          len = n;
          data_bytes = rest;
        })
  unfolding ref_buf
  ref_buf-uids a b n rest ha hb small =
      let buf = uids order a b ++ (0xAA ∷ (u16_bytes n ++ rest)) in
      let long : ltb (length buf) 11 ≡ false = ground (
        arith,
        length-append (uids order a b) (0xAA ∷ (u16_bytes n ++ rest)),
        length-append (u16_bytes n) rest,
        length-uids order a b,
        u16_length n,
      ) in
      let nine : drop 9 buf ≡ u16_bytes n ++ rest =
        unfold drop in
        drop-add 8 1 buf
        ∙ ap (drop 1) (
            drop-append 8 (uids order a b) (0xAA ∷ (u16_bytes n ++ rest))
              (length-uids order a b)) in
      let eleven : drop 11 buf ≡ rest =
        drop-add 9 2 buf ∙ (ap (drop 2) nine ∙ drop-append 2 (u16_bytes n) rest (u16_length n)) in
      rw
        (
          long,
          head_at-uids a b 0xAA (u16_bytes n ++ rest) ha hb,
          nine,
          eleven,
          take-append 2 (u16_bytes n) rest (u16_length n),
          u16_exact n small,
          ref_buf,
        )
        refl

  flat_frame :
      (a b : Uid) (d rest : List ℕ)
      → frame_bytes order a b d ++ rest
        ≡ uids order a b ++ (0xAA ∷ (u16_bytes (length d) ++ (d ++ rest)))
  unfolding frame_bytes
  flat_frame a b d rest =
      rw
        (
          append_assoc (uids order a b) (0xAA ∷ (u16_bytes (length d) ++ d)) rest,
          append_assoc (u16_bytes (length d)) d rest,
        )
        refl

  pub frame_portion :
      (a b : Uid) (d rest : List ℕ)
      → a < 2 ^ 32
      → b < 2 ^ 32
      → length d < 2 ^ 16
      → portion_to_send order (frame_bytes order a b d ++ rest) ≡ returns (frame_bytes order a b d)
  unfolding portion_to_send data_of
  frame_portion a b d rest ha hb small =
      let tail = u16_bytes (length d) ++ (d ++ rest) in
      let typed : extract (frame_bytes order a b d ++ rest) ≡ ok frame_type =
        rw (flat_frame a b d rest) (extract-uids a b 0xAA tail) in
      let framed : ref_buf order (frame_bytes order a b d ++ rest)
          ≡ ok (record {
            head = record { packet = a; responding_to = b; packet_ty = 0xAA };
            len = length d;
            data_bytes = d ++ rest;
          }) =
        rw (flat_frame a b d rest) (ref_buf-uids a b (length d) (d ++ rest) ha hb small) in
      let whole : leb (length d) (length (d ++ rest)) ≡ true =
        ground (arith, length-append d rest) in
      let got : take (length d) (d ++ rest) ≡ d = take-append (length d) d rest refl in
      let cut : take (11 + length d) (frame_bytes order a b d ++ rest) ≡ frame_bytes order a b d =
        take-append (11 + length d) (frame_bytes order a b d) rest
          (length-frame_bytes order a b d) in
      rw (typed, framed, whole, got, cut, portion_to_send, data_of) refl

  pub frame_read :
      (a b : Uid) (d : List ℕ)
      → a < 2 ^ 32
      → b < 2 ^ 32
      → length d < 2 ^ 16
      → try_read order (frame_bytes order a b d)
        ≡ ok (
            frame (record {
              head = record { packet = a; responding_to = b; packet_ty = 0xAA };
              len = length d;
              data_bytes = d;
            }))
  unfolding frame_bytes try_read
  frame_read a b d ha hb small =
      rw
        (
          extract-uids a b 0xAA (u16_bytes (length d) ++ d),
          ref_buf-uids a b (length d) d ha hb small,
          try_read,
        )
        refl
