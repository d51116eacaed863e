-- ===== src/Squirrel/Tests.antt =====
-- The transport on concrete input: a little-endian machine, a connection, a short transfer each way.
use hayselnut.Common.{
  replicate, length-replicate, drop, ℕ, ◌+◌, ◌*◌, ◌/◌, ◌%◌, ◌^◌, ◌≤◌, ◌<◌, ◌≡◌, refl, inl, List, [],
  ◌∷◌, length, get_or, some, returns, panics, arith,
}
use hayselnut.Squirrel.Shared.Answers.{IsAnswered, send_and_wait-IsAnswered}
use hayselnut.Squirrel.Packet.{
  confirm, Packet, frame, Frame, tx, confirm, complete, next_uid, frame_buf_size, packet_type_frame,
}
use hayselnut.Squirrel.Wire.{ByteOrder, as_bytes, read_packet}
use hayselnut.Squirrel.Wire.RoundTrip.{read_packet-as_bytes}
use hayselnut.Squirrel.Server.{
  ClientInterface, received, receiving_start, resting, theoretically_done_receiving, handle, new,
  cmd_packet,
}
use hayselnut.Squirrel.Server.Invariant.{
  IsSafe, handle-IsSafe, new-IsValid, IsTaken, handle_overrun,
}
use hayselnut.Squirrel.Server.Receiving.{tx_begun}
use hayselnut.Squirrel.Server.Starting.{
  KeepsQueue, handle-KeepsQueue, handle_all, handle_all-receiving_start,
}
use hayselnut.Squirrel.Shared.{send_and_wait, command, finished, failed, timed_out}
use hayselnut.Squirrel.Client.{mvp_send, chunks}
use hayselnut.Squirrel.Link.{Fate, request_lost, reply_lost, delivered, Link, transmit}
use hayselnut.Squirrel.Link.Exchange.{Exchange, plan, link, idle}
use hayselnut.Squirrel.Link.Upload.{mvp_send-delivers}
use hayselnut.Squirrel.Link.Empty.{mvp_send-empty}

abbrev u32_le : ℕ → List ℕ
u32_le n = n % 256 ∷ n / 256 % 256 ∷ n / 2 ^ 16 % 256 ∷ n / 2 ^ 24 % 256 ∷ []

abbrev byte : List ℕ → ℕ → ℕ
byte bytes i = get_or bytes i 0

u32_exact :
    (n : ℕ)
    → n < 2 ^ 32
    → n % 256 + (n / 256 % 256 * 256 + (n / 2 ^ 16 % 256 * 2 ^ 16 + n / 2 ^ 24 % 256 * 2 ^ 24)) ≡ n
u32_exact n h = omega arith

u16_exact : (n : ℕ) → n < 2 ^ 16 → n % 256 + n / 256 % 256 * 256 ≡ n
u16_exact n h = omega arith

abbrev little_endian : ByteOrder
little_endian = record {
  u32_bytes = u32_le;
  u32_read = λ b. byte b 0 + (byte b 1 * 256 + (byte b 2 * 2 ^ 16 + byte b 3 * 2 ^ 24));
  u16_bytes = λ n. n % 256 ∷ n / 256 % 256 ∷ [];
  u16_read = λ b. byte b 0 + byte b 1 * 256;
  u32_length = λ n. refl;
  u16_length = λ n. refl;
  u32_exact = u32_exact;
  u16_exact = u16_exact;
}

abbrev confirmation : Packet
confirmation = cmd_packet 258 1 confirm

read_packet-as_bytes_example :
    (bytes : List ℕ) × (as_bytes little_endian confirmation ≡ returns bytes)
    × (length bytes ≤ 508)
    × (read_packet little_endian bytes ≡ some confirmation)
read_packet-as_bytes_example = read_packet-as_bytes little_endian confirmation (omega arith)

confirmation_bytes :
    as_bytes little_endian confirmation
    ≡ returns (2 ∷ 1 ∷ 0 ∷ 0 ∷ 1 ∷ 0 ∷ 0 ∷ 0 ∷ 0xBB ∷ 2 ∷ 0 ∷ 0 ∷ [])
unfolding as_bytes
confirmation_bytes = refl

abbrev fresh : ClientInterface
fresh = new 0 1000

handle-IsSafe_example : IsSafe (handle fresh 5 (cmd_packet 7 0 tx))
handle-IsSafe_example =
    handle-IsSafe fresh 5 (cmd_packet 7 0 tx) (new-IsValid 0 1000) (omega arith) tt

-- A connection at rest with something queued, and one that has answered `Tx`.
abbrev at_rest : ClientInterface
at_rest = record {
  state = resting;
  respond_to = 0;
  last_sent = 0;
  uid_gen = 0;
  transaction_time = 0;
  max_transaction_time = 1000;
  recev_buf = [];
  send_queue = (9 ∷ 8 ∷ []) ∷ [];
  send_buf = [];
  last_sent_send_buf = [];
}

abbrev started : ClientInterface
started = tx_begun at_rest 7 5

abbrev lying_frame : Frame
lying_frame = record {
  packet = 8;
  responding_to = next_uid 0;
  packet_ty = packet_type_frame;
  pad = 0;
  len = 497;
  bytes = replicate 496 0;
}

handle_overrun_example :
    (handle started 6 (frame lying_frame) ≡ panics
      → IsTaken started 6 lying_frame × (length lying_frame.bytes < lying_frame.len))
    × (IsTaken started 6 lying_frame
        → length lying_frame.bytes < lying_frame.len
        → handle started 6 (frame lying_frame) ≡ panics)
handle_overrun_example = handle_overrun started 6 lying_frame

-- It is taken, and panics.
overrun : handle started 6 (frame lying_frame) ≡ panics
overrun =
    (handle_overrun started 6 lying_frame).1 (refl, inl refl)
      (omega (arith, length-replicate {A = ℕ} 496 0))

handle-KeepsQueue_example :
    KeepsQueue ((9 ∷ 8 ∷ []) ∷ []) (handle started 6 (cmd_packet 8 1 complete))
handle-KeepsQueue_example = handle-KeepsQueue started 6 (cmd_packet 8 1 complete)

handle_all-receiving_start_example :
    handle_all started ((900000, cmd_packet 8 0 tx) ∷ (1800000, cmd_packet 9 0 tx) ∷ [])
    ≡ returns (started, [])
handle_all-receiving_start_example =
    handle_all-receiving_start started
      ((900000, cmd_packet 8 0 tx) ∷ (1800000, cmd_packet 9 0 tx) ∷ []) refl
      ((λ e. omega arith), ((λ e. omega arith), tt))

-- The answer is lost once, then the request, and then both arrive.
abbrev lossy : Exchange
lossy = record { losses = reply_lost 3 ∷ request_lost ∷ []; at = 9 }

abbrev smooth : Exchange
smooth = record { losses = []; at = 20 }

abbrev start : Link
start = link at_rest (plan (lossy ∷ smooth ∷ lossy ∷ [])) []

mvp_send-delivers_example :
    (d : ClientInterface) × (g' : ℕ) × (mvp_send little_endian
        (transmit little_endian)
        (5 ∷ 6 ∷ 7 ∷ [])
        (idle start 41)
      ≡ finished tt (idle (link d [] (received (5 ∷ 6 ∷ 7 ∷ []) ∷ [])) g'))
    × (d.state ≡ theoretically_done_receiving)
    × (d.send_queue ≡ at_rest.send_queue)
unfolding chunks drop
mvp_send-delivers_example =
    mvp_send-delivers little_endian 0 100 (5 ∷ 6 ∷ 7 ∷ []) at_rest 41 lossy lossy (smooth ∷ []) []
      (λ e. cc) (inl refl) (omega arith) one_chunk (omega arith)
  where
    one_chunk : length (smooth ∷ []) ≡ length (chunks frame_buf_size (5 ∷ 6 ∷ 7 ∷ []))
    one_chunk = refl

mvp_send-empty_example :
    (d : ClientInterface) × (g' : ℕ) × (rest : List Fate) × (mvp_send little_endian
        (transmit little_endian)
        []
        (idle (link at_rest (delivered 20 ∷ (delivered 21 ∷ [])) []) 41)
      ≡ failed timed_out (idle (link d rest []) g'))
    × (d.state ≡ receiving_start)
mvp_send-empty_example =
    mvp_send-empty little_endian 0 100 at_rest 41 smooth (delivered 21 ∷ []) [] (inl refl)
      (omega arith)

send_and_wait-IsAnswered_example : IsAnswered (cmd_packet 42 0 tx) (command confirm) (
    send_and_wait little_endian
      (transmit little_endian)
      (cmd_packet 42 0 tx)
      (command confirm)
      5
      (idle (link at_rest (delivered 20 ∷ []) []) 41))
send_and_wait-IsAnswered_example =
    send_and_wait-IsAnswered little_endian (transmit little_endian) (cmd_packet 42 0 tx)
      (command confirm) 5 (idle (link at_rest (delivered 20 ∷ []) []) 41)
