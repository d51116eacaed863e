-- ===== src/Mycelium/Overtaken.antt =====
-- Two messages in the buffer at once (`ipc_recv_cancel_safe` of haysel/mycelium/src/lib.rs).
use hayselnut.Common.{
  ℕ, suc, ◌+◌, ◌-◌, ◌^◌, ◌≤◌, ◌<◌, ◌≡◌, ◌∙◌, refl, sym, ap, List, ◌++◌, length, take, drop, some,
  arith, append_assoc, take-append, drop-append, length-append, take-append-drop, length-take,
}
use hayselnut.CsSquirrel.Packet.{write_at}
use hayselnut.CsSquirrel.Packet.Written.{write_at_start}
use hayselnut.Mycelium.{
  Socket, Format, gives, Held, extended, packet_of, copy_within, whole, round_of, to_be_bytes,
  from_be_bytes, ipc_recv_cancel_safe, parsed,
}
use hayselnut.Mycelium.Stream.{IsForm, framed, from_be_bytes-to_be_bytes, length-to_be_bytes}
use hayselnut.Mycelium.Buffered.{extended_lem, ends_whole}

length-framed : (bytes : List ℕ) → length (framed bytes) ≡ 8 + length bytes
length-framed bytes =
    omega
      (arith, length-append (to_be_bytes (length bytes)) bytes, length-to_be_bytes (length bytes))

module _ (buffer a b : List ℕ) (amnt : ℕ) (same_size : length a ≡ length b)
    (small : length a < 2 ^ 63) (fits : amnt ≤ length buffer)
    (there : take amnt buffer ≡ framed a ++ framed b) where
  size : amnt ≡ 16 + length a + length b
  size = omega (
    arith,
    ap length there,
    length-take amnt buffer,
    length-append (framed a) (framed b),
    length-framed a,
    length-framed b,
  )

  split : buffer ≡ framed a ++ (framed b ++ drop amnt buffer)
  split =
      sym (take-append-drop amnt buffer)
      ∙ (ap (λ bs. bs ++ drop amnt buffer) there
          ∙ append_assoc (framed a) (framed b) (drop amnt buffer))

  round_of-both : round_of buffer amnt ≡ whole (length a)
  unfolding round_of
  round_of-both =
      let head : take 8 buffer ≡ to_be_bytes (length a) =
        ap (take 8) (split ∙ append_assoc (to_be_bytes (length a)) a (framed b ++ drop amnt buffer))
        ∙ take-append 8 (to_be_bytes (length a)) (a ++ (framed b ++ drop amnt buffer))
            (length-to_be_bytes (length a)) in
      let number : from_be_bytes (to_be_bytes (length a)) ≡ length a =
        from_be_bytes-to_be_bytes (length a) (omega (arith, small)) in
      rw (head, number) (ground (arith, size, small))

  -- The second packet is where the first was.
  copied : copy_within (8 + length a) amnt buffer ≡ framed b ++ drop (length (framed b)) buffer
  copied =
      let from : drop (8 + length a) buffer ≡ framed b ++ drop amnt buffer =
        ap (drop (8 + length a)) split
        ∙ drop-append (8 + length a) (framed a) (framed b ++ drop amnt buffer) (length-framed a) in
      let moved : take (amnt - (8 + length a)) (drop (8 + length a) buffer) ≡ framed b =
        ap (take (amnt - (8 + length a))) from
        ∙ take-append (amnt - (8 + length a)) (framed b) (drop amnt buffer)
            (omega (arith, length-framed b, size)) in
      ap (λ bs. write_at 0 bs buffer) moved ∙ write_at_start (framed b) buffer

  read_second : take (length a) (drop 8 (copy_within (8 + length a) amnt buffer)) ≡ b
  read_second =
      let rest = drop (length (framed b)) buffer in
      ap (λ bs. take (length a) (drop 8 bs)) (copied ∙ append_assoc (to_be_bytes (length b)) b rest)
      ∙ (ap (take (length a))
            (drop-append 8 (to_be_bytes (length b)) (b ++ rest) (length-to_be_bytes (length b)))
          ∙ take-append (length a) b rest (sym same_size))

-- Where two messages with forms of one length are in the buffer, the whole of both, the second is given
-- and the first is lost: nothing is left in the buffer.
pub ipc_recv_cancel_safe-both :
    {E S T : Type 0} (socket : Socket E S) (format : Format T) (x y : T) (a b : List ℕ) (fuel : ℕ)
    (h : Held S)
    → IsForm format x a
    → IsForm format y b
    → length a ≡ length b
    → h.amnt ≤ length h.buffer
    → take h.amnt h.buffer ≡ framed a ++ framed b
    → (h' : Held S) × (ipc_recv_cancel_safe socket format (suc fuel) h ≡ some (gives y h'))
      × (h'.amnt ≡ 0)
      × (h'.stream ≡ h.stream)
ipc_recv_cancel_safe-both socket format x y a b fuel h first second same_size fits there =
    let e = extended h in
    let (room, same_amnt, same_stream, same) = extended_lem h fits in
    let both : take e.amnt e.buffer ≡ framed a ++ framed b = same ∙ there in
    let fits' : e.amnt ≤ length e.buffer = omega (arith, room) in
    let packet : packet_of socket format (length a) e
        ≡ gives y (record e { buffer = copy_within (8 + length a) e.amnt e.buffer; amnt = 0 }) =
      rw (read_second e.buffer a b e.amnt same_size first.short fits' both)
        (rw (second.read_back, parsed) refl) in
    (
      _,
      ends_whole socket format fuel (length a) h fits
            (round_of-both e.buffer a b e.amnt same_size first.short fits' both)
          ∙ ap some packet,
      refl,
      same_stream,
    )
