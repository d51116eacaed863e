-- ===== src/Mycelium/Stream.antt =====
-- What is sent over a connection is received (`ipc_send` and `ipc_recv` of haysel/mycelium/src/lib.rs).
use hayselnut.Common.{
  ℕ, zero, suc, ◌+◌, ◌%◌, ◌^◌, ◌≤◌, ◌<◌, ◌≡◌, ◌∙◌, refl, sym, ap, List, [], ◌∷◌, ◌++◌, true, ltb,
  length, take, drop, some, arith, append_assoc, append-nil, take-append, drop-append,
  length-append,
}
use hayselnut.Mycelium.{
  done, Socket, Format, Ends, gives, fails, panics, then_, parsed, to_be_bytes, from_be_bytes,
  ipc_send, ipc_recv,
}

pub from_be_bytes-to_be_bytes : (n : ℕ) → n < 2 ^ 64 → from_be_bytes (to_be_bytes n) ≡ n
unfolding from_be_bytes to_be_bytes
from_be_bytes-to_be_bytes n h = omega arith

pub length-to_be_bytes : (n : ℕ) → length (to_be_bytes n) ≡ 8
unfolding to_be_bytes
length-to_be_bytes n = refl

-- The sockets of a connection that is up: what is written is behind what is to be read, and what is read is
-- the first of it; a read gives at least one byte where there is any.
pub record IsStream {E S : Type 0} (socket : Socket E S) (pending : S → List ℕ) : Type 0 where
  pub writes :
      (bytes : List ℕ) (s : S)
      → (s' : S) × (socket.write_all bytes s ≡ done _ s') × (pending s' ≡ pending s ++ bytes)
  pub reads_exact :
      (n : ℕ) (s : S)
      → n ≤ length (pending s)
      → (s' : S) × (socket.read_exact n s ≡ done (take n (pending s)) s')
        × (pending s' ≡ drop n (pending s))
  pub reads :
      (n : ℕ) (s : S)
      → 1 ≤ n
      → 1 ≤ length (pending s)
      → (k : ℕ) × (s' : S) × (1 ≤ k)
        × (k ≤ n)
        × (k ≤ length (pending s))
        × (socket.read n s ≡ done (take k (pending s)) s')
        × (pending s' ≡ drop k (pending s))

-- A value whose form is read as that value, and is shorter than isize::MAX.
pub record IsForm {T : Type 0} (format : Format T) (x : T) (bytes : List ℕ) : Type 0 where
  pub written : format.to_vec_named x ≡ some bytes
  pub read_back : format.from_slice bytes ≡ some x
  pub short : length bytes < 2 ^ 63

abbrev pub framed : List ℕ → List ℕ
framed bytes = to_be_bytes (length bytes) ++ bytes

module _ {E S T : Type 0} (socket : Socket E S) (format : Format T) where
  abbrev pub send_all : List T → S → Ends E S (Unit {0})
  send_all [] s = gives _ s
  send_all (x ∷ xs) s = elim (ipc_send socket format x s) [
    | gives _ s' ↦ send_all xs s'
    | fails e s' ↦ fails e s'
    | panics ↦ panics
  ]

  abbrev pub recv_all : ℕ → S → Ends E S (List T)
  recv_all zero s = gives [] s
  recv_all (suc n) s = elim (ipc_recv socket format s) [
    | gives x s' ↦ elim (recv_all n s') [
      | gives xs s'' ↦ gives (x ∷ xs) s''
      | fails e s'' ↦ fails e s''
      | panics ↦ panics
    ]
    | fails e s' ↦ fails e s'
    | panics ↦ panics
  ]

module _ {E S T : Type 0} (socket : Socket E S) (format : Format T) (pending : S → List ℕ)
    (stream : IsStream socket pending) (form : T → List ℕ)
    (exact : (x : T) → IsForm format x (form x)) where
  send_lem :
      (x : T) (s : S)
      → (s' : S) × (ipc_send socket format x s ≡ gives _ s')
        × (pending s' ≡ pending s ++ framed (form x))
  unfolding ipc_send
  send_lem x s =
      let size : length (form x) % 2 ^ 64 ≡ length (form x) = omega (arith, (exact x).short) in
      let (s', w, p) = stream.writes (to_be_bytes (length (form x))) s in
      let (s'', w', p') = stream.writes (form x) s' in
      (
        s'',
        rw ((exact x).written, size, ipc_send) (rw (w, then_) (rw (w', then_) refl)),
        p'
            ∙ (ap (λ bs. bs ++ form x) p
                ∙ append_assoc (pending s) (to_be_bytes (length (form x))) (form x)),
      )

  recv_lem :
      (x : T) (rest : List ℕ) (s : S)
      → pending s ≡ framed (form x) ++ rest
      → (s' : S) × (ipc_recv socket format s ≡ gives x s') × (pending s' ≡ rest)
  unfolding ipc_recv from_be_bytes
  recv_lem x rest s there =
      let bytes = form x in
      let flat : pending s ≡ to_be_bytes (length bytes) ++ (bytes ++ rest) =
        there ∙ append_assoc (to_be_bytes (length bytes)) bytes rest in
      let size : length (pending s) ≡ 8 + length (bytes ++ rest) = omega (
        arith,
        ap length flat,
        length-append (to_be_bytes (length bytes)) (bytes ++ rest),
        length-to_be_bytes (length bytes),
      ) in
      let (s', r, p) = stream.reads_exact 8 s (omega (arith, size)) in
      let first : take 8 (pending s) ≡ to_be_bytes (length bytes) =
        ap (take 8) flat
        ∙ take-append 8 (to_be_bytes (length bytes)) (bytes ++ rest)
            (length-to_be_bytes (length bytes)) in
      let behind : pending s' ≡ bytes ++ rest =
        p
        ∙ (ap (drop 8) flat
            ∙ drop-append 8 (to_be_bytes (length bytes)) (bytes ++ rest)
                (length-to_be_bytes (length bytes))) in
      let number : from_be_bytes (to_be_bytes (length bytes)) ≡ length bytes =
        from_be_bytes-to_be_bytes (length bytes) (omega (arith, (exact x).short)) in
      let small : ltb (length bytes) (2 ^ 63) ≡ true = ground (arith, (exact x).short) in
      let (s'', r', p') =
        stream.reads_exact (length bytes) s'
          (omega (arith, ap length behind, length-append bytes rest)) in
      let body : take (length bytes) (pending s') ≡ bytes =
        ap (take (length bytes)) behind ∙ take-append (length bytes) bytes rest refl in
      (
        s'',
        rw (r, first, number, then_, ipc_recv)
            (rw small (rw (r', body, then_) (rw ((exact x).read_back, parsed) refl))),
        p' ∙ (ap (drop (length bytes)) behind ∙ drop-append (length bytes) bytes rest refl),
      )

  frames : List T → List ℕ
  frames [] = []
  frames (x ∷ xs) = framed (form x) ++ frames xs

  send_all_lem :
      (xs : List T) (s : S)
      → (s' : S) × (send_all socket format xs s ≡ gives _ s')
        × (pending s' ≡ pending s ++ frames xs)
  unfolding frames
  send_all_lem [] s = (s, refl, sym (append-nil (pending s)))
  send_all_lem (x ∷ xs) s =
      let (s', sent, p) = send_lem x s in
      let (s'', all_sent, p') = send_all_lem xs s' in
      (
        s'',
        rw (sent, send_all) all_sent,
        p'
            ∙ (ap (λ bs. bs ++ frames xs) p
                ∙ append_assoc (pending s) (framed (form x)) (frames xs)),
      )

  recv_all_lem :
      (xs : List T) (s : S)
      → pending s ≡ frames xs
      → (s' : S) × (recv_all socket format (length xs) s ≡ gives xs s') × (pending s' ≡ [])
  unfolding frames
  recv_all_lem [] s there = (s, refl, there)
  recv_all_lem (x ∷ xs) s there =
      let (s', got, p) = recv_lem x (frames xs) s there in
      let (s'', all_got, p') = recv_all_lem xs s' p in
      (s'', rw (got, recv_all) (rw (all_got, recv_all) refl), p')

  -- Messages whose form is read as they are and is shorter than isize::MAX are received as they are sent,
  -- all and in their order, over a connection that is up with nothing on the way; nothing is left on
  -- the way.
  pub recv_all-send_all :
      (xs : List T) (s : S)
      → pending s ≡ []
      → (s' s'' : S) × (send_all socket format xs s ≡ gives _ s')
        × (recv_all socket format (length xs) s' ≡ gives xs s'')
        × (pending s'' ≡ [])
  recv_all-send_all xs s empty =
      let (s', sent, p) = send_all_lem xs s in
      let (s'', got, p') = recv_all_lem xs s' (p ∙ ap (λ bs. bs ++ frames xs) empty) in
      (s', s'', sent, got, p')
