-- ===== src/Squirrel/Shared.antt =====
-- The client's request and answer: `send_and_wait` of haysel/squirrel/src/transport/shared.rs, and
-- the world that a client runs in. The socket and the timer are parameters: `transmit` sends a
-- datagram and yields what arrives until the wait for an answer ends (`none` where the send fails).
-- What was not read stays in the socket, for the next wait.
pub mod Laws
pub mod Answers
use hayselnut.Common.{
  ℕ, zero, suc, List, [], ◌∷◌, ◌++◌, Bool, true, false, ◌&&◌, ◌==◌, if◌then◌else◌, Option, none,
  some, returns, panics,
}
use hayselnut.Squirrel.Packet.{
  Packet, cmd, frame, CmdKind, to_u8, uid, responding_to, packet_type_command, next_uid,
}
use hayselnut.Squirrel.Wire.{ByteOrder, extract_packet_type, as_bytes, read_packet}

-- What `recv_from` yields: a datagram, from the peer or from elsewhere, or an I/O error.
pub data Arrival : Type 0 where
  datagram : Bool → List ℕ → Arrival
  broken : Arrival

pub data SendError : Type 0 where
  io_error timed_out : SendError

pub data ExpectedResponse : Type 0 where
  frame_or_command : CmdKind → ExpectedResponse
  command : CmdKind → ExpectedResponse

-- The socket (the far side, and what has arrived) and the client's uid generator.
pub record World (S : Type 0) : Type 0 where
  pub far : S
  pub inbox : List Arrival
  pub uid_gen : ℕ

-- How a client's function ends. Only a loop on fuel is ever `out_of_fuel`.
pub data Run (S : Type 0) (A : Type 0) : Type 0 where
  finished : A → World S → Run S A
  failed : SendError → World S → Run S A
  panicked : Run S A
  out_of_fuel : Run S A

-- A client's action: it may fail, panic, or run out of fuel.
abbrev pub Action : Type 0 → Type 0 → Type 0
Action S A = World S → Run S A

abbrev pub pure : {S A : Type 0} → A → Action S A
pure a w = finished a w

infixl 5 ◌>>=◌ ◌>>◌
abbrev pub ◌>>=◌ : {S A B : Type 0} → Action S A → (A → Action S B) → Action S B
◌>>=◌ m f w = elim (m w) [
  | finished a w' ↦ f a w'
  | failed e w' ↦ failed e w'
  | panicked ↦ panicked
  | out_of_fuel ↦ out_of_fuel
]

abbrev pub ◌>>◌ : {S B : Type 0} → Action S (Unit {0}) → Action S B → Action S B
m >> k = m >>= λ _. k

-- `uid_gen.next()`
abbrev pub fresh_uid : {S : Type 0} → Action S ℕ
fresh_uid w = finished (next_uid w.uid_gen) (record w { uid_gen = next_uid w.uid_gen })

-- Whether the packet read from `buf` is one that is waited for: it answers `to`, it is a command
-- where only a command will do, and a command is of the kind expected.
abbrev pub expected_kind : ExpectedResponse → CmdKind
expected_kind (frame_or_command kind) = kind
expected_kind (command kind) = kind

abbrev has_command_type : List ℕ → Bool
has_command_type buf = elim (extract_packet_type buf) [
  | none ↦ false
  | some ty ↦ ty == packet_type_command
]

abbrev form_fits : ExpectedResponse → List ℕ → Bool
form_fits (frame_or_command kind) buf = true
form_fits (command kind) buf = has_command_type buf

abbrev kind_fits : CmdKind → Packet → Bool
kind_fits kind (cmd c) = c.command == to_u8 kind
kind_fits kind (frame f) = true

pub is_answer : Packet → ExpectedResponse → List ℕ → Packet → Bool
is_answer to expected buf p =
    responding_to p == uid to && (form_fits expected buf && kind_fits (expected_kind expected) p)

-- How one wait ends: with the answer and what is left in the socket, with an I/O error, or by the
-- timer, when all that arrived has been read.
pub data Waited : Type 0 where
  answered : Packet → List Arrival → Waited
  interrupted : List Arrival → Waited
  elapsed : Waited

module _ (order : ByteOrder) where
  -- The inner loop of `send_and_wait`.
  pub wait : Packet → ExpectedResponse → List Arrival → Waited
  wait to expected [] = elapsed
  wait to expected (broken ∷ rest) = interrupted rest
  wait to expected (datagram false buf ∷ rest) = wait to expected rest
  wait to expected (datagram true buf ∷ rest) =
      let next = wait to expected rest in
      elim (read_packet order buf) [
        | none ↦ next
        | some p ↦ if is_answer to expected buf p then answered p rest else next
      ]

  module _ {S : Type 0} (transmit : S → List ℕ → Option (S × List Arrival)) where
    -- The outer loop, with the number of attempts that are left.
    pub attempt : ℕ → Packet → List ℕ → ExpectedResponse → Action S Packet
    attempt zero to bytes expected w = failed timed_out w
    attempt (suc n) to bytes expected w = elim (transmit w.far bytes) [
      | none ↦ failed io_error w
      | some (far, arrivals) ↦ elim (wait to expected (w.inbox ++ arrivals)) [
        | answered p rest ↦ finished p (record w { far = far; inbox = rest })
        | interrupted rest ↦ failed io_error (record w { far = far; inbox = rest })
        | elapsed ↦ attempt n to bytes expected (record w { far = far; inbox = [] })
      ]
    ]

    -- `send_and_wait`
    pub send_and_wait : Packet → ExpectedResponse → ℕ → Action S Packet
    send_and_wait to expected max_attempts w =
        if max_attempts == 0 then panicked else elim (as_bytes order to) [
          | panics ↦ panicked
          | returns bytes ↦ attempt max_attempts to bytes expected w
        ]
