-- ===== src/Squirrel/Shared/Answers.antt =====
-- What `send_and_wait` (haysel/squirrel/src/transport/shared.rs) takes for an answer, on any socket.
use hayselnut.Common.{
  ℕ, zero, suc, ◌≡◌, sym, subst, List, [], ◌∷◌, ◌++◌, true, false, Option, none, some, returns,
  panics, arith, Option-cases, inl, inr, Bool-cases, if◌then◌else◌, ◌==◌,
}
use hayselnut.Squirrel.Packet.{Packet, uid, responding_to}
use hayselnut.Squirrel.Wire.{ByteOrder, as_bytes, read_packet}
use hayselnut.Squirrel.Shared.{
  Arrival, datagram, broken, ExpectedResponse, Run, World, finished, failed, panicked, out_of_fuel,
  Waited, wait, attempt, send_and_wait, is_answer, answered, interrupted, elapsed, io_error,
}
use hayselnut.Squirrel.Shared.Laws.{Fits, Fits-of_is_answer, wait-answered}

-- An answer answers the packet, with what is expected.
abbrev pub IsAnswer : Packet → ExpectedResponse → Packet → Type 0
IsAnswer to expected p = (responding_to p ≡ uid to) × Fits expected p

abbrev IsWaited : Packet → ExpectedResponse → Waited → Type 0
IsWaited to expected (answered p rest) = IsAnswer to expected p
IsWaited to expected (interrupted rest) = Unit
IsWaited to expected elapsed = Unit

-- What is returned, if anything, is an answer.
abbrev pub IsAnswered : {S : Type 0} → Packet → ExpectedResponse → Run S Packet → Type 0
IsAnswered to expected (finished p w) = IsAnswer to expected p
IsAnswered to expected (failed e w) = Unit
IsAnswered to expected panicked = Unit
IsAnswered to expected out_of_fuel = Unit

after_wait :
    {S : Type 0} (to : Packet) (expected : ExpectedResponse) (w : World S) (next : Run S Packet)
    → IsAnswered to expected next
    → (o : Waited) → IsWaited to expected o
    → IsAnswered to expected (elim o [
      | answered p rest ↦ finished p (record w { inbox = rest })
      | interrupted rest ↦ failed io_error (record w { inbox = rest })
      | elapsed ↦ next
    ])
after_wait to expected w next h (answered p rest) k = k
after_wait to expected w next h (interrupted rest) k = _
after_wait to expected w next h elapsed k = h

module _ (order : ByteOrder) where
  wait_unread :
      (to : Packet) (expected : ExpectedResponse) (buf : List ℕ) (rest : List Arrival)
      → read_packet order buf ≡ none
      → wait order to expected (datagram true buf ∷ rest) ≡ wait order to expected rest
  unfolding wait
  wait_unread to expected buf rest e = ground (arith, e)

  wait_other :
      (to p : Packet) (expected : ExpectedResponse) (buf : List ℕ) (rest : List Arrival)
      → read_packet order buf ≡ some p
      → is_answer to expected buf p ≡ false
      → wait order to expected (datagram true buf ∷ rest) ≡ wait order to expected rest
  unfolding wait
  wait_other to p expected buf rest e other = ground (arith, e, other)

  wait-IsWaited :
      (to : Packet) (expected : ExpectedResponse) (inbox : List Arrival)
      → IsWaited to expected (wait order to expected inbox)
  unfolding wait
  wait-IsWaited to expected [] = _
  wait-IsWaited to expected (broken ∷ rest) = _
  wait-IsWaited to expected (datagram false buf ∷ rest) = wait-IsWaited to expected rest
  wait-IsWaited to expected (datagram true buf ∷ rest) =
      elim (Option-cases (read_packet order buf)) [
        | inl e ↦
            subst (IsWaited to expected) (sym (wait_unread to expected buf rest e))
              (wait-IsWaited to expected rest)
        | inr (p, e) ↦ elim (Bool-cases (is_answer to expected buf p)) [
          | inl fits ↦
              subst (IsWaited to expected) (sym (wait-answered order to p expected buf rest e fits))
                (Fits-of_is_answer order to p expected buf e fits)
          | inr other ↦
              subst (IsWaited to expected) (sym (wait_other to p expected buf rest e other))
                (wait-IsWaited to expected rest)
        ]
      ]

  module _ {S : Type 0} (transmit : S → List ℕ → Option (S × List Arrival)) where
    attempt-IsAnswered :
        (n : ℕ) (to : Packet) (bytes : List ℕ) (expected : ExpectedResponse) (w : World S)
        → IsAnswered to expected (attempt order transmit n to bytes expected w)
    unfolding attempt
    attempt-IsAnswered zero to bytes expected w = _
    attempt-IsAnswered (suc n) to bytes expected w =
        elim (transmit w.far bytes)
          as (λ o. IsAnswered to expected (elim o [
            | none ↦ failed io_error w
            | some (far, arrivals) ↦ elim (wait order to expected (w.inbox ++ arrivals)) [
              | answered p rest ↦ finished p (record w { far = far; inbox = rest })
              | interrupted rest ↦ failed io_error (record w { far = far; inbox = rest })
              | elapsed ↦
                  attempt order transmit n to bytes expected (record w { far = far; inbox = [] })
            ]
          ])) [
            | none ↦ _
            | some (far, arrivals) ↦
                after_wait to expected (record w { far = far })
                  (attempt order transmit n to bytes expected (record w { far = far; inbox = [] }))
                  (attempt-IsAnswered n to bytes expected (record w { far = far; inbox = [] }))
                  (wait order to expected (w.inbox ++ arrivals))
                  (wait-IsWaited to expected (w.inbox ++ arrivals))
          ]

    -- On any socket, whatever arrives, `send_and_wait` returns only a packet that answers the one that it
    -- sent, and of the form and kind that is expected.
    pub send_and_wait-IsAnswered :
        (to : Packet) (expected : ExpectedResponse) (max_attempts : ℕ) (w : World S)
        → IsAnswered to expected (send_and_wait order transmit to expected max_attempts w)
    unfolding send_and_wait
    send_and_wait-IsAnswered to expected max_attempts w =
        elim (max_attempts == 0)
          as (λ t. IsAnswered to expected (
            if t then panicked else elim (as_bytes order to) [
              | panics ↦ panicked
              | returns bytes ↦ attempt order transmit max_attempts to bytes expected w
            ])) [
              | true ↦ _
              | false ↦
                  elim (as_bytes order to)
                    as (λ o. IsAnswered to expected (elim o [
                      | panics ↦ panicked
                      | returns bytes ↦ attempt order transmit max_attempts to bytes expected w
                    ])) [
                      | panics ↦ _
                      | returns bytes ↦ attempt-IsAnswered max_attempts to bytes expected w
                    ]
            ]
