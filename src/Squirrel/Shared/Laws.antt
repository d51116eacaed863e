-- ===== src/Squirrel/Shared/Laws.antt =====
-- How `send_and_wait` behaves: an attempt that gets no answer is followed by the next one, an answer
-- ends it, and so does an I/O error or the last attempt (haysel/squirrel/src/transport/shared.rs).
use hayselnut.Common.{
  ℕ, suc, ◌≡◌, refl, List, [], ◌∷◌, ◌++◌, true, false, Option, some, returns, arith, All,
  Option-cases, inl, inr,
}
use hayselnut.Squirrel.Packet.{Packet, cmd, frame, uid, responding_to, to_u8}
use hayselnut.Squirrel.Wire.RoundTrip.{read_packet-cmd, read_packet-frame}
use hayselnut.Squirrel.Wire.{ByteOrder, as_bytes, read_packet}
use hayselnut.Squirrel.Shared.{
  Arrival, datagram, broken, ExpectedResponse, command, frame_or_command, World, finished, failed,
  timed_out, wait, attempt, send_and_wait, is_answer, answered,
}

-- The answer has the form and the kind that is expected.
abbrev pub Fits : ExpectedResponse → Packet → Type 0
Fits (frame_or_command kind) (cmd c) = c.command ≡ to_u8 kind
Fits (frame_or_command kind) (frame f) = Unit
Fits (command kind) (cmd c) = c.command ≡ to_u8 kind
Fits (command kind) (frame f) = ⊥

module _ (order : ByteOrder) where
  pub is_answer_of_Fits :
      (to p : Packet) (expected : ExpectedResponse) (buf : List ℕ)
      → read_packet order buf ≡ some p
      → responding_to p ≡ uid to
      → Fits expected p
      → is_answer to expected buf p ≡ true
  unfolding is_answer
  is_answer_of_Fits to (cmd c) (command kind) buf r u f =
      ground (arith, read_packet-cmd order buf c r)
  is_answer_of_Fits to (cmd c) (frame_or_command kind) buf r u f = ground arith
  is_answer_of_Fits to (frame c) (frame_or_command kind) buf r u f = ground arith
  is_answer_of_Fits to (frame c) (command kind) buf r u f = absurd f

  pub Fits-of_is_answer :
      (to p : Packet) (expected : ExpectedResponse) (buf : List ℕ)
      → read_packet order buf ≡ some p
      → is_answer to expected buf p ≡ true
      → (responding_to p ≡ uid to) × Fits expected p
  unfolding is_answer
  Fits-of_is_answer to (cmd c) (command kind) buf r a = ground arith
  Fits-of_is_answer to (cmd c) (frame_or_command kind) buf r a = ground arith
  Fits-of_is_answer to (frame c) (frame_or_command kind) buf r a = ground arith
  Fits-of_is_answer to (frame c) (command kind) buf r a =
      ground (arith, read_packet-frame order buf c r)

  pub wait-answered :
      (to p : Packet) (expected : ExpectedResponse) (buf : List ℕ) (rest : List Arrival)
      → read_packet order buf ≡ some p
      → is_answer to expected buf p ≡ true
      → wait order to expected (datagram true buf ∷ rest) ≡ answered p rest
  unfolding wait
  wait-answered to p expected buf rest r a = ground arith

  -- An arrival that `send_and_wait` passes over: it is from elsewhere, or cannot be read, or is no
  -- answer.
  abbrev pub IsIgnored : Packet → ExpectedResponse → Arrival → Type 0
  IsIgnored to expected (datagram false buf) = Unit
  IsIgnored to expected (datagram true buf) =
      (p : Packet) → read_packet order buf ≡ some p → is_answer to expected buf p ≡ false
  IsIgnored to expected broken = ⊥

  pub wait-ignored :
      (to : Packet) (expected : ExpectedResponse) (junk more : List Arrival)
      → All (IsIgnored to expected) junk
      → wait order to expected (junk ++ more) ≡ wait order to expected more
  unfolding wait
  wait-ignored to expected [] more h = refl
  wait-ignored to expected (broken ∷ rest) more h = absurd h.0
  wait-ignored to expected (datagram false buf ∷ rest) more h =
      wait-ignored to expected rest more h.1
  wait-ignored to expected (datagram true buf ∷ rest) more h =
      elim (Option-cases (read_packet order buf)) [
        | inl e ↦ ground (arith, wait-ignored to expected rest more h.1)
        | inr (p, e) ↦ ground (arith, h.0 p e, wait-ignored to expected rest more h.1)
      ]

  module _ {S : Type 0} (transmit : S → List ℕ → Option (S × List Arrival)) where
    module _ (n : ℕ) (to : Packet) (bytes : List ℕ) (expected : ExpectedResponse)
        (w : World S) where
      pub attempt-lost :
          (far : S)
          → w.inbox ≡ []
          → transmit w.far bytes ≡ some (far, [])
          → attempt order transmit (suc n) to bytes expected w
            ≡ attempt order transmit n to bytes expected (record w { far = far; inbox = [] })
      unfolding attempt wait
      attempt-lost far i t = ground arith

      pub attempt-answered :
          (far : S) (p : Packet) (buf : List ℕ)
          → w.inbox ≡ []
          → transmit w.far bytes ≡ some (far, datagram true buf ∷ [])
          → read_packet order buf ≡ some p
          → is_answer to expected buf p ≡ true
          → attempt order transmit (suc n) to bytes expected w
            ≡ finished p (record w { far = far; inbox = [] })
      unfolding attempt
      attempt-answered far p buf i t r a = ground (arith, wait-answered to p expected buf [] r a)

    pub send_and_wait_lem :
        (to : Packet) (bytes : List ℕ) (expected : ExpectedResponse) (n : ℕ) (w : World S)
        → as_bytes order to ≡ returns bytes
        → send_and_wait order transmit to expected (suc n) w
          ≡ attempt order transmit (suc n) to bytes expected w
    unfolding send_and_wait
    send_and_wait_lem to bytes expected n w e = ground arith

    pub attempt-none_left :
        (to : Packet) (bytes : List ℕ) (expected : ExpectedResponse) (w : World S)
        → attempt order transmit 0 to bytes expected w ≡ failed timed_out w
    unfolding attempt
    attempt-none_left to bytes expected w = refl
