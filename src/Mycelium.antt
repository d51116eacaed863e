-- ===== src/Mycelium.antt =====
-- Messages over a stream of bytes (haysel/mycelium/src/lib.rs). The socket is tokio's and the form of a message
-- rmp_serde's, which are parameters.
pub mod Stream
pub mod Buffered
pub mod Overtaken
mod Tests
use hayselnut.Common.{
  ℕ, zero, suc, ◌+◌, ◌-◌, ◌*◌, ◌/◌, ◌%◌, ◌^◌, List, [], ◌∷◌, ◌++◌, ◌==◌, leb, ltb, if◌then◌else◌,
  length, take, drop, replicate, get_or, Option, none, some,
}
use hayselnut.CsSquirrel.Packet.{write_at}

-- What an operation of the socket does: it gives a value, or it fails.
pub data Io (E S A : Type 0) : Type 0 where
  done : A → S → Io E S A
  io_failed : E → S → Io E S A

pub record Socket (E S : Type 0) : Type 0 where
  pub write_all : List ℕ → S → Io E S (Unit {0})
  pub read_exact : ℕ → S → Io E S (List ℕ)
  -- The bytes read into a slice of this length.
  pub read : ℕ → S → Io E S (List ℕ)

pub record Format (T : Type 0) : Type 0 where
  pub to_vec_named : T → Option (List ℕ)
  pub from_slice : List ℕ → Option T

pub data IpcError (E : Type 0) : Type 0 where
  io : E → IpcError E
  deserialize serialize eof : IpcError E

-- How a function ends: with a value, with an error, or with a panic.
pub data Ends (E S A : Type 0) : Type 0 where
  gives : A → S → Ends E S A
  fails : IpcError E → S → Ends E S A
  panics : Ends E S A

abbrev pub then_ : {E S A B : Type 0} → Io E S A → (A → S → Ends E S B) → Ends E S B
then_ (done a s) f = f a s
then_ (io_failed e s) f = fails (io e) s

-- `u64::to_be_bytes` and `u64::from_be_bytes`
unfoldable pub to_be_bytes : ℕ → List ℕ
to_be_bytes n =
    n / 2 ^ 56 % 256
    ∷ n / 2 ^ 48 % 256
    ∷ n / 2 ^ 40 % 256
    ∷ n / 2 ^ 32 % 256
    ∷ n / 2 ^ 24 % 256
    ∷ n / 2 ^ 16 % 256
    ∷ n / 2 ^ 8 % 256
    ∷ n % 256
    ∷ []

abbrev byte : List ℕ → ℕ → ℕ
byte bytes i = get_or bytes i 0

unfoldable pub from_be_bytes : List ℕ → ℕ
from_be_bytes b =
    byte b 0 * 2 ^ 56
    + (byte b 1 * 2 ^ 48
        + (byte b 2 * 2 ^ 40
            + (byte b 3 * 2 ^ 32
                + (byte b 4 * 2 ^ 24 + (byte b 5 * 2 ^ 16 + (byte b 6 * 2 ^ 8 + byte b 7))))))

abbrev pub parsed : {E S T : Type 0} → Option T → S → Ends E S T
parsed (some packet) s = gives packet s
parsed none s = fails deserialize s

-- The buffer and the number of its bytes that were received stay with the caller.
pub record Held (S : Type 0) : Type 0 where
  pub buffer : List ℕ
  pub amnt : ℕ
  pub stream : S

-- `Vec::extend` with 128 zeros where the buffer is full.
abbrev pub extended : {S : Type 0} → Held S → Held S
extended h =
    if h.amnt == length h.buffer then record h { buffer = h.buffer ++ replicate 128 0 } else h

-- `buffer.copy_within(from..to, 0)`
abbrev pub copy_within : ℕ → ℕ → List ℕ → List ℕ
copy_within from to buffer = write_at 0 (take (to - from) (drop from buffer)) buffer

-- What a round of the loop does, once the buffer is extended: it reads, it has a packet of this length, or
-- its sum overflows. On 64 bits.
pub data Round : Type 0 where
  short overflows : Round
  whole : ℕ → Round

unfoldable pub round_of : List ℕ → ℕ → Round
round_of buffer amnt =
    let the_rest = from_be_bytes (take 8 buffer) in
    if ltb amnt 8
    then short
    else if leb (2 ^ 64) (8 + the_rest)
    then overflows
    else if ltb amnt (8 + the_rest)
    then short
    else whole the_rest

module _ {E S T : Type 0} (socket : Socket E S) (format : Format T) where
  open socket use {write_all, read_exact, read}
  open format use {to_vec_named, from_slice}

  unfoldable pub ipc_send : T → S → Ends E S (Unit {0})
  ipc_send packet s = elim (to_vec_named packet) [
    | none ↦ fails serialize s
    | some serialized ↦
        then_ (write_all (to_be_bytes (length serialized % 2 ^ 64)) s)
          (λ _ s'. then_ (write_all serialized s') (λ _ s''. gives _ s''))
  ]

  -- `vec!` panics where the length is beyond isize::MAX.
  unfoldable pub ipc_recv : S → Ends E S T
  ipc_recv s = then_ (read_exact 8 s) (λ buf s'.
      if ltb (from_be_bytes buf) (2 ^ 63)
      then then_ (read_exact (from_be_bytes buf) s') (λ buf s''. parsed (from_slice buf) s'')
      else panics)

  -- The parse comes after the copy, and after `*amnt = 0`.
  abbrev pub packet_of : ℕ → Held S → Ends E (Held S) T
  packet_of the_rest h =
      let buffer = copy_within (8 + the_rest) h.amnt h.buffer in
      parsed (from_slice (take the_rest (drop 8 buffer))) (record h { buffer = buffer; amnt = 0 })

  -- `n` bytes more in the buffer.
  abbrev pub with_bytes : List ℕ → Held S → S → Held S
  with_bytes bytes h s = record {
    buffer = write_at h.amnt bytes h.buffer;
    amnt = h.amnt + length bytes;
    stream = s;
  }

  -- The loop of `ipc_recv_cancel_safe`, on fuel; without fuel it is `none`.
  unfoldable pub ipc_recv_cancel_safe : ℕ → Held S → Option (Ends E (Held S) T)
  ipc_recv_cancel_safe zero h = none
  ipc_recv_cancel_safe (suc fuel) h =
      let e = extended h in
      if leb h.amnt (length h.buffer)
      then elim (round_of e.buffer e.amnt) [
        | overflows ↦ some panics
        | whole the_rest ↦ some (packet_of the_rest e)
        | short ↦ elim (read (length e.buffer - e.amnt) e.stream) [
          | io_failed err s ↦ some (fails (io err) (record e { stream = s }))
          | done [] s ↦ some (fails eof (record e { stream = s }))
          | done (b ∷ bytes) s ↦ ipc_recv_cancel_safe fuel (with_bytes (b ∷ bytes) e s)
        ]
      ]
      else some panics
