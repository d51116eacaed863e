-- ===== src/Mycelium/Tests.antt =====
-- A connection that is a queue of bytes, and messages of one byte.
use hayselnut.Common.{
  replicate, ℕ, min, ◌≡◌, refl, sym, List, [], ◌∷◌, ◌++◌, if◌then◌else◌, leb, length, take, drop,
  Option, none, some, arith, take-min, drop-min, le→leb,
}
use hayselnut.Mycelium.{
  done, io_failed, Socket, Format, gives, Held, to_be_bytes, ipc_recv_cancel_safe,
}
use hayselnut.Mycelium.Stream.{IsStream, IsForm, framed, send_all, recv_all, recv_all-send_all}
use hayselnut.Mycelium.Buffered.{ipc_recv_cancel_safe_lem}
use hayselnut.Mycelium.Overtaken.{ipc_recv_cancel_safe-both}

abbrev queue : Socket ℕ (List ℕ)
queue = record {
  write_all = λ bytes s. done _ (s ++ bytes);
  read_exact = λ n s. if leb n (length s) then done (take n s) (drop n s) else io_failed 0 s;
  read = λ n s. done (take n s) (drop n s);
}

abbrev one_byte : List ℕ → Option ℕ
one_byte [] = none
one_byte (b ∷ []) = some b
one_byte (b ∷ (c ∷ cs)) = none

abbrev byte_format : Format ℕ
byte_format = record { to_vec_named = λ n. some (n ∷ []); from_slice = one_byte }

abbrev of_byte : ℕ → List ℕ
of_byte n = n ∷ []

queue-IsStream : IsStream queue (λ s. s)
queue-IsStream = record {
  writes = λ bytes s. (s ++ bytes, refl, refl);
  reads_exact = λ n s enough. (drop n s, rw (le→leb n (length s) enough) refl, refl);
  reads = λ n s one there. (
    min n (length s),
    drop n s,
    omega arith,
    omega arith,
    omega arith,
    rw (take-min n s) refl,
    sym (drop-min n s),
  );
}

byte_format-IsForm : (n : ℕ) → IsForm byte_format n (of_byte n)
byte_format-IsForm n = record { written = refl; read_back = refl; short = omega arith }

recv_all-send_all_example :
    (s' s'' : List ℕ) × (send_all queue byte_format (5 ∷ (7 ∷ [])) [] ≡ gives _ s')
    × (recv_all queue byte_format 2 s' ≡ gives (5 ∷ (7 ∷ [])) s'')
    × (s'' ≡ [])
recv_all-send_all_example =
    recv_all-send_all queue byte_format (λ s. s) queue-IsStream of_byte byte_format-IsForm
      (5 ∷ (7 ∷ [])) [] refl

-- Three bytes are received when the receipt starts again.
abbrev three_received : Held (List ℕ)
three_received = record {
  buffer = replicate 5 0;
  amnt = 3;
  stream = 0 ∷ (0 ∷ (0 ∷ (0 ∷ (1 ∷ (42 ∷ [])))));
}

ipc_recv_cancel_safe_lem_example :
    (h' : Held (List ℕ)) × (ipc_recv_cancel_safe queue byte_format 7 three_received
      ≡ some (gives 42 h'))
    × (h'.amnt ≡ 0)
    × (h'.stream ≡ [])
unfolding take replicate to_be_bytes
ipc_recv_cancel_safe_lem_example =
    ipc_recv_cancel_safe_lem queue byte_format (λ s. s) queue-IsStream 42 (of_byte 42)
      (byte_format-IsForm 42) 7 three_received (omega arith) refl (omega arith)

-- Two messages are received at once.
abbrev both_received : Held (List ℕ)
both_received = record {
  buffer = framed (of_byte 5) ++ (framed (of_byte 7) ++ replicate 110 0);
  amnt = 18;
  stream = [];
}

ipc_recv_cancel_safe-both_example :
    (h' : Held (List ℕ)) × (ipc_recv_cancel_safe queue byte_format 1 both_received
      ≡ some (gives 7 h'))
    × (h'.amnt ≡ 0)
    × (h'.stream ≡ [])
unfolding take replicate to_be_bytes
ipc_recv_cancel_safe-both_example =
    ipc_recv_cancel_safe-both queue byte_format 5 7 (of_byte 5) (of_byte 7) 0 both_received
      (byte_format-IsForm 5) (byte_format-IsForm 7) refl (omega arith) refl
