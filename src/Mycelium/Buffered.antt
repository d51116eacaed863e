-- ===== src/Mycelium/Buffered.antt =====
-- The receipt of a message through a buffer that outlives it (`ipc_recv_cancel_safe` of
-- haysel/mycelium/src/lib.rs).
use hayselnut.Common.{
  ℕ, zero, suc, ◌+◌, ◌-◌, ◌^◌, ◌≤◌, ◌<◌, ◌≡◌, ◌∙◌, inl, inr, refl, sym, ap, ap₂, List, [], ◌∷◌,
  ◌++◌, ltb, ◌==◌, length, take, drop, replicate, some, arith, append_assoc, append-nil,
  take_within, take-append, drop-append, length-append, length-take, length-drop, length-replicate,
  take-append-drop, List-cases, Bool-cases, le→leb,
}
use hayselnut.CsSquirrel.Packet.{write_at}
use hayselnut.Mycelium.{
  done, Socket, Format, gives, Held, extended, with_bytes, packet_of, copy_within, short, whole,
  round_of, to_be_bytes, from_be_bytes, ipc_recv_cancel_safe, parsed,
}
use hayselnut.Mycelium.Stream.{
  IsStream, IsForm, framed, from_be_bytes-to_be_bytes, length-to_be_bytes,
}

-- The buffer has room, and holds what it held.
pub extended_lem :
    {S : Type 0} (h : Held S)
    → h.amnt ≤ length h.buffer
    → ((extended h).amnt < length (extended h).buffer)
      × ((extended h).amnt ≡ h.amnt)
      × ((extended h).stream ≡ h.stream)
      × (take (extended h).amnt (extended h).buffer ≡ take h.amnt h.buffer)
extended_lem h fits = elim (Bool-cases (h.amnt == length h.buffer)) [
  | inl full ↦ rw full (
    (ground (
      arith,
      full,
      length-append h.buffer (replicate {A = ℕ} 128 0),
      length-replicate {A = ℕ} 128 0,
    )),
    refl,
    refl,
    take_within h.amnt h.buffer (replicate 128 0) fits,
  )
  | inr room ↦ rw room (ground (arith, room), refl, refl, refl)
]

-- How many bytes are received is known from what is on the way still.
module _ (buffer bytes rest : List ℕ) (amnt : ℕ) (fits : amnt ≤ length buffer)
    (small : length bytes < 2 ^ 63) (there : take amnt buffer ++ rest ≡ framed bytes) where
  total : amnt + length rest ≡ 8 + length bytes
  total = omega (
    arith,
    ap length there,
    length-append (take amnt buffer) rest,
    length-take amnt buffer,
    length-append (to_be_bytes (length bytes)) bytes,
    length-to_be_bytes (length bytes),
  )

  the_rest_lem : 8 ≤ amnt → from_be_bytes (take 8 buffer) ≡ length bytes
  the_rest_lem head =
      let received : 8 ≤ length (take amnt buffer) = omega (arith, length-take amnt buffer) in
      ap from_be_bytes (
        ap (take 8) (sym (take-append-drop amnt buffer))
        ∙ (take_within 8 (take amnt buffer) (drop amnt buffer) received
            ∙ (sym (take_within 8 (take amnt buffer) rest received)
                ∙ (ap (take 8) there
                    ∙ take-append 8 (to_be_bytes (length bytes)) bytes
                        (length-to_be_bytes (length bytes))))))
      ∙ from_be_bytes-to_be_bytes (length bytes) (omega arith)

  round_of-whole : length rest ≡ 0 → round_of buffer amnt ≡ whole (length bytes)
  unfolding round_of
  round_of-whole none_left = rw (the_rest_lem (omega (arith, total))) (ground (arith, total))

  round_of-short : 1 ≤ length rest → round_of buffer amnt ≡ short
  unfolding round_of
  round_of-short some_left = elim (Bool-cases (ltb amnt 8)) [
    | inl head ↦ rw head refl
    | inr head ↦ rw (head, the_rest_lem (ground (arith, head))) (ground (arith, total))
  ]

-- What is read is behind what was received.
take-write_at :
    (i : ℕ) (bytes buf : List ℕ)
    → i ≤ length buf
    → take (i + length bytes) (write_at i bytes buf) ≡ take i buf ++ bytes
unfolding write_at
take-write_at i bytes buf fits =
    let behind = drop (i + length bytes) buf in
    ap (take (i + length bytes)) (sym (append_assoc (take i buf) bytes behind))
    ∙ take-append (i + length bytes) (take i buf ++ bytes) behind
        (omega (arith, length-append (take i buf) bytes, length-take i buf))

length-write_at :
    (i : ℕ) (bytes buf : List ℕ) → i ≤ length buf → i + length bytes ≤ length (write_at i bytes buf)
unfolding write_at
length-write_at i bytes buf fits =
    let behind = drop (i + length bytes) buf in
    omega (
      arith,
      length-append (take i buf) (bytes ++ behind),
      length-append bytes behind,
      length-take i buf,
    )

first_of :
    (k : ℕ) (xs : List ℕ) → 1 ≤ k → k ≤ length xs → (y : ℕ) × (ys : List ℕ) × (take k xs ≡ y ∷ ys)
first_of k xs one within = elim (List-cases (take k xs)) [
  | inl empty ↦ absurd (omega (arith, ap length empty, length-take k xs))
  | inr parts ↦ parts
]

-- Nothing is behind the packet.
copy_within_nothing : (n : ℕ) (buffer : List ℕ) → copy_within n n buffer ≡ buffer
unfolding write_at take drop
copy_within_nothing n buffer = let none_left : n - n ≡ 0 = omega arith in rw none_left refl

module _ {E S T : Type 0} (socket : Socket E S) (format : Format T) where
  pub ends_whole :
      (fuel n : ℕ) (h : Held S)
      → h.amnt ≤ length h.buffer
      → round_of (extended h).buffer (extended h).amnt ≡ whole n
      → ipc_recv_cancel_safe socket format (suc fuel) h
        ≡ some (packet_of socket format n (extended h))
  unfolding ipc_recv_cancel_safe
  ends_whole fuel n h fits round =
      rw (le→leb h.amnt (length h.buffer) fits) (rw (round, ipc_recv_cancel_safe) refl)

  goes_on :
      (fuel : ℕ) (h : Held S) (b : ℕ) (bs : List ℕ) (s : S)
      → h.amnt ≤ length h.buffer
      → round_of (extended h).buffer (extended h).amnt ≡ short
      → socket.read (length (extended h).buffer - (extended h).amnt) (extended h).stream
        ≡ done (b ∷ bs) s
      → ipc_recv_cancel_safe socket format (suc fuel) h
        ≡ ipc_recv_cancel_safe socket format fuel (with_bytes socket format (b ∷ bs) (extended h) s)
  unfolding ipc_recv_cancel_safe
  goes_on fuel h b bs s fits round got =
      rw (le→leb h.amnt (length h.buffer) fits)
        (rw (round, ipc_recv_cancel_safe) (rw (got, ipc_recv_cancel_safe) refl))

module _ {E S T : Type 0} (socket : Socket E S) (format : Format T) (pending : S → List ℕ)
    (stream : IsStream socket pending) (x : T) (bytes : List ℕ)
    (exact : IsForm format x bytes) where
  packet_of-whole :
      (h : Held S)
      → h.amnt ≡ 8 + length bytes
      → take h.amnt h.buffer ≡ framed bytes
      → (h' : Held S) × (packet_of socket format (length bytes) h ≡ gives x h')
        × (h'.amnt ≡ 0)
        × (h'.stream ≡ h.stream)
  packet_of-whole h all_received there =
      let kept : copy_within (8 + length bytes) h.amnt h.buffer ≡ h.buffer =
        ap (λ n. copy_within n h.amnt h.buffer) (sym all_received)
        ∙ copy_within_nothing h.amnt h.buffer in
      let split : h.buffer ≡ to_be_bytes (length bytes) ++ (bytes ++ drop h.amnt h.buffer) =
        sym (take-append-drop h.amnt h.buffer)
        ∙ (ap (λ bs. bs ++ drop h.amnt h.buffer) there
            ∙ append_assoc (to_be_bytes (length bytes)) bytes (drop h.amnt h.buffer)) in
      let body : take (length bytes) (drop 8 h.buffer) ≡ bytes =
        ap (λ bs. take (length bytes) (drop 8 bs)) split
        ∙ (ap (take (length bytes)) (
              drop-append 8 (to_be_bytes (length bytes)) (bytes ++ drop h.amnt h.buffer)
                (length-to_be_bytes (length bytes)))
            ∙ take-append (length bytes) bytes (drop h.amnt h.buffer) refl) in
      (record h { amnt = 0 }, rw (kept, body, exact.read_back, parsed) refl, refl, refl)

  -- From any point of the receipt of one message on, with nothing behind the message, the loop ends within
  -- as many rounds as bytes are on the way and one more, and gives the message; the buffer is empty for
  -- the next one.
  pub ipc_recv_cancel_safe_lem :
      (fuel : ℕ) (h : Held S)
      → h.amnt ≤ length h.buffer
      → take h.amnt h.buffer ++ pending h.stream ≡ framed bytes
      → length (pending h.stream) < fuel
      → (h' : Held S) × (ipc_recv_cancel_safe socket format fuel h ≡ some (gives x h'))
        × (h'.amnt ≡ 0)
        × (pending h'.stream ≡ [])
  ipc_recv_cancel_safe_lem zero h fits there enough = absurd (omega arith)
  ipc_recv_cancel_safe_lem (suc fuel) h fits there enough =
      let e = extended h in
      let (room, same_amnt, same_stream, same) = extended_lem h fits in
      let on_way : pending e.stream ≡ pending h.stream = ap pending same_stream in
      let there' : take e.amnt e.buffer ++ pending e.stream ≡ framed bytes =
        rw (same, on_way) there in
      elim (List-cases (pending e.stream)) [
        | inl none_left ↦
            let size : e.amnt ≡ 8 + length bytes = omega (
              arith,
              total e.buffer bytes (pending e.stream) e.amnt (omega (arith, room)) exact.short
                  there',
              ap length none_left,
            ) in
            let (h', packet, empty, kept) = packet_of-whole e size (
              sym (append-nil (take e.amnt e.buffer))
              ∙ (ap (λ bs. take e.amnt e.buffer ++ bs) (sym none_left) ∙ there')) in
            (
              h',
              ends_whole socket format fuel (length bytes) h fits (
                    round_of-whole e.buffer bytes (pending e.stream) e.amnt (omega (arith, room))
                      exact.short there' (ap length none_left))
                  ∙ ap some packet,
              empty,
              ap pending kept ∙ none_left,
            )
        | inr (b, bs, some_left) ↦
            let left = pending e.stream in
            let (k, s', one, _, within, got, rest) =
              stream.reads (length e.buffer - e.amnt) e.stream (omega (arith, room))
                (omega (arith, ap length some_left)) in
            let (c, cs, first) = first_of k left one within in
            let (h', received, empty, none_left) =
              ipc_recv_cancel_safe_lem fuel (with_bytes socket format (c ∷ cs) e s')
                (length-write_at e.amnt (c ∷ cs) e.buffer (omega (arith, room)))
                (ap₂ (λ a b. a ++ b) (take-write_at e.amnt (c ∷ cs) e.buffer (omega (arith, room)))
                    rest
                  ∙ (append_assoc (take e.amnt e.buffer) (c ∷ cs) (drop k left)
                      ∙ (ap (λ bs. take e.amnt e.buffer ++ (bs ++ drop k left)) (sym first)
                          ∙ (ap (λ bs. take e.amnt e.buffer ++ bs) (take-append-drop k left)
                              ∙ there'))))
                (omega (
                  arith,
                  ap length rest,
                  length-drop k left,
                  ap length on_way,
                  enough,
                  one,
                  within,
                )) in
            (
              h',
              goes_on socket format fuel h c cs s' fits
                    (round_of-short e.buffer bytes left e.amnt (omega (arith, room)) exact.short
                      there' (omega (arith, ap length some_left)))
                    (got ∙ ap (λ bs. done bs s') first)
                  ∙ received,
              empty,
              none_left,
            )
      ]
