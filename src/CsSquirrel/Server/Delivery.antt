-- ===== src/CsSquirrel/Server/Delivery.antt =====
-- All that the server sends to a client that confirms each of its packets, as the client reads it
-- (haysel/cs_squirrel/src/server/mech.rs; the order of packets is that of packet/cmd.rs).
use hayselnut.Common.{
  ℕ, zero, suc, ◌+◌, ◌-◌, ◌^◌, ◌≤◌, ◌<◌, ◌≡◌, ◌∙◌, ◌⊎◌, inl, inr, refl, sym, ap, ap₂, List, [], ◌∷◌,
  ◌++◌, All, length, drop, min, map, Option, none, some, returns, arith, length-take, length-drop,
  nil_of_length, take-append-drop, drop-add,
}
use hayselnut.Squirrel.Wire.{ByteOrder}
use hayselnut.CsSquirrel.Cursor
use hayselnut.CsSquirrel.Cursor.{Cursor, concat, IsPart}
use hayselnut.CsSquirrel.Packet.{frame, confirm, rx}
use hayselnut.CsSquirrel.Packet.RoundTrip.{cmd_packet, frame_packet}
use hayselnut.CsSquirrel.Server.{ConnState, send_done, Processed}
use hayselnut.CsSquirrel.Server.Receiving.{IsNumbered, InTime}
use hayselnut.CsSquirrel.Server.Session.{IsIdle}
use hayselnut.CsSquirrel.Server.Sending.{
  process_rx, started_sending, IsSending, HasRoom, room_for, part_of, cursor_behind, followed,
  process_confirm, process_confirm_end,
}
use hayselnut.CsSquirrel.Server.Client.{
  heard, confirms, answers, run_sending, sending_step, sending_over, heard_complete, heard_frame,
}

module _ (order : ByteOrder) where
  -- On fuel for the parts that are left.
  delivers :
      (fuel : ℕ) (uid time : ℕ → ℕ) (scratch : List ℕ) (s : ConnState) (c : Cursor)
      → IsSending s
      → IsNumbered (length c.inner - c.cursor + 1) s
      → ((n : ℕ) → InTime s (time n))
      → ((n : ℕ) → uid n < 2 ^ 32)
      → HasRoom s scratch
      → c.cursor ≤ length c.inner
      → length c.inner - c.cursor < fuel
      → (parts : List (List ℕ)) × (results : List Processed) × (s' : ConnState) × (c' : Option
          Cursor)
        × (run_sending order (confirms uid time (suc (length parts)) s.last_sent) scratch s (some c)
            ≡ returns (results, s', c'))
        × (map (heard order) results ≡ answers uid s.last_sent parts)
        × (concat parts ≡ drop c.cursor c.inner)
        × All (IsPart (room_for s scratch)) parts
        × (s'.state ≡ send_done)
  delivers zero uid time scratch s c sending numbered early ids room within enough =
      absurd (omega arith)
  delivers (suc fuel) uid time scratch s c sending numbered early ids room within enough =
      let cases : (length c.inner ≡ c.cursor) ⊎ (c.cursor < length c.inner) = omega arith in
      elim cases [
        | inl end ↦ (
          [],
          _,
          record (followed (uid s.last_sent) s) { state = send_done },
          some (record c { last = none }),
          sending_step order (time s.last_sent) (cmd_packet (uid s.last_sent) s.last_sent confirm)
              [] scratch s (some c) _ [] _ _
              (process_confirm_end order (time s.last_sent) (uid s.last_sent) scratch s c sending
                (record {
                  generated = numbered.generated;
                  not_null = numbered.not_null;
                  fits = omega (arith, numbered.fits);
                })
                (early s.last_sent) room end)
              (sending_over order scratch _ _),
          ap (λ x. x ∷ [])
              (heard_complete order (s.last_sent + 1) (uid s.last_sent) scratch
                (omega (arith, numbered.fits)) (ids s.last_sent)),
          sym (nil_of_length (drop c.cursor c.inner) (omega (arith, length-drop c.cursor c.inner))),
          _,
          refl,
        )
        | inr more ↦
            let most = room_for s scratch in
            let part = part_of c most in
            let left = length-drop c.cursor c.inner in
            let amnt = min (length (drop c.cursor c.inner)) most in
            let size = length-take amnt (drop c.cursor c.inner) in
            let new = followed (uid s.last_sent) s in
            let (parts, results, s', c', runs, said, whole, fits, state) =
              delivers fuel uid time scratch new (cursor_behind c most) (inr refl)
                (record {
                  generated = refl;
                  not_null = omega (arith, numbered.not_null);
                  fits = omega (arith, numbered.fits, left, room.packet_size, room.scratch_size);
                })
                early ids
                (record {
                  packet_size = room.packet_size;
                  packet_small = room.packet_small;
                  scratch_size = room.scratch_size;
                })
                (omega (arith, left)) (omega (arith, left, room.packet_size, room.scratch_size)) in
            (
              part ∷ parts,
              _,
              s',
              c',
              sending_step order (time s.last_sent)
                  (cmd_packet (uid s.last_sent) s.last_sent confirm) _ scratch s (some c) _ results
                  s' c'
                  (process_confirm order (time s.last_sent) (uid s.last_sent) scratch s c sending
                    (record {
                      generated = numbered.generated;
                      not_null = numbered.not_null;
                      fits = omega (arith, numbered.fits);
                    })
                    (early s.last_sent) room more)
                  runs,
              ap₂ (λ x xs. x ∷ xs)
                  (heard_frame order (s.last_sent + 1) (uid s.last_sent) part scratch
                    (omega (arith, numbered.fits)) (ids s.last_sent)
                    (omega (arith, size, room.packet_small)))
                  said,
              ap (λ xs. part ++ xs) (whole ∙ drop-add c.cursor amnt c.inner)
                  ∙ take-append-drop amnt (drop c.cursor c.inner),
              (
                (
                  omega (arith, size, left, room.packet_size, room.scratch_size),
                  omega (arith, size),
                ),
                fits,
              ),
              state,
            )
      ]

  -- To a server that is idle and whose ids do not wrap in it, with data to send, Rx is answered with a frame;
  -- where the client then confirms each packet in time, it reads frames that respond to its packets in order, of at least one byte and at most
  -- as many as there is room for, whose data joined is that data, and then Complete: there is a number of Confirms that is enough.
  pub run-receive :
      (first start : ℕ) (uid time : ℕ → ℕ) (scratch : List ℕ) (s : ConnState) (bytes : List ℕ)
      → IsIdle s
      → 1 ≤ length bytes
      → s.gen.current + length bytes + 2 < 2 ^ 32
      → first < 2 ^ 32
      → ((n : ℕ) → uid n < 2 ^ 32)
      → ((n : ℕ) → InTime (started_sending first start s) (time n))
      → HasRoom s scratch
      → (part : List ℕ) × (parts : List (List ℕ)) × (results : List Processed) × (s' : ConnState)
        × (c' : Option Cursor) × (run_sending order
              ((start, cmd_packet first 0 rx)
                ∷ confirms uid time (suc (length parts)) (s.gen.current + 1))
              scratch
              s
              (some (Cursor.new bytes))
            ≡ returns (results, s', c'))
        × (map (heard order) results
            ≡ some (frame (frame_packet (s.gen.current + 1) first part))
              ∷ answers uid (s.gen.current + 1) parts)
        × (concat (part ∷ parts) ≡ bytes)
        × All (IsPart (room_for s scratch)) (part ∷ parts)
        × (s'.state ≡ send_done)
  unfolding drop
  run-receive first start uid time scratch s bytes idle some_data fits id ids early room =
      let new = started_sending first start s in
      let c = Cursor.new bytes in
      let most = room_for s scratch in
      let part = part_of c most in
      let amnt = min (length bytes) most in
      let size = length-take amnt bytes in
      let left = length-drop amnt bytes in
      let behind : HasRoom new scratch = record {
        packet_size = room.packet_size;
        packet_small = room.packet_small;
        scratch_size = room.scratch_size;
      } in
      let (parts, results, s', c', runs, said, whole, sized, state) =
        delivers (suc (length bytes)) uid time scratch new (cursor_behind c most) (inl refl)
          (record {
            generated = refl;
            not_null = omega arith;
            fits = omega (arith, room.packet_size, room.scratch_size);
          })
          early ids behind (omega (arith, size)) (omega arith) in
      (
        part,
        parts,
        _,
        s',
        c',
        sending_step order start (cmd_packet first 0 rx) _ scratch s (some c) _ results s' c'
            (process_rx order start first 0 scratch s c idle (omega arith) room some_data) runs,
        ap₂ (λ x xs. x ∷ xs)
            (heard_frame order (s.gen.current + 1) first part scratch (omega arith) id
              (omega (arith, size, room.packet_small)))
            said,
        ap (λ xs. part ++ xs) (whole ∙ drop-add 0 amnt bytes) ∙ take-append-drop amnt bytes,
        ((omega (arith, size, room.packet_size, room.scratch_size), omega (arith, size)), sized),
        state,
      )
