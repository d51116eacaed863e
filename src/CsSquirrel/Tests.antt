-- ===== src/CsSquirrel/Tests.antt =====
-- The theorems about the protocol at concrete packets: big-endian bytes, a scratch buffer of twelve or twenty
-- bytes, two frames of two bytes.
use hayselnut.Common.{
  ◌≤◌, inr, suc, ℕ, ◌+◌, ◌*◌, ◌/◌, ◌%◌, ◌^◌, ◌<◌, ◌≡◌, refl, inl, List, [], ◌∷◌, ◌++◌, All, get_or,
  map, true, Option, some, returns, arith, length,
}
use hayselnut.Squirrel.Wire.{ByteOrder}
use hayselnut.CsSquirrel.Cursor
use hayselnut.CsSquirrel.Cursor.{Cursor, drain, concat, IsPart, drain_lem}
use hayselnut.CsSquirrel.Env.{for_udp}
use hayselnut.CsSquirrel.Packet.{portion_to_send, frame, tx, rx, confirm, data_of, ok}
use hayselnut.CsSquirrel.Packet.Answers.{send_data}
use hayselnut.CsSquirrel.Packet.RoundTrip.{cmd_packet, frame_packet, Says, send_data-Says}
use hayselnut.CsSquirrel.Server.{
  ConnState, new, recv, process, Step, done, Processed, recv_done, send_done, send_start, answer,
}
use hayselnut.CsSquirrel.Server.Transfer.{packets, Sent, run, reads}
use hayselnut.CsSquirrel.Server.Session.{session, run-session, completes}
use hayselnut.CsSquirrel.Server.Bounds.{confirm_fits}
use hayselnut.CsSquirrel.Server.Repeats.{once, run-once}
use hayselnut.CsSquirrel.Server.Replays.{confirm_again}
use hayselnut.CsSquirrel.Server.Client.{run_sending, confirms, heard, answers}
use hayselnut.CsSquirrel.Server.Sending.{room_for}
use hayselnut.CsSquirrel.Server.Delivery.{run-receive}
use hayselnut.CsSquirrel.Server.Invariant.{Keeps, process-IsConsistent}
use hayselnut.CsSquirrel.Client
use hayselnut.CsSquirrel.Client.Inert.{drive_send-ignores, drive_packets, IsNothing}

abbrev seven : List ℕ
seven = 1 ∷ 2 ∷ 3 ∷ 4 ∷ 5 ∷ 6 ∷ 7 ∷ []

abbrev byte : List ℕ → ℕ → ℕ
byte bytes i = get_or bytes i 0

u32_exact :
    (n : ℕ)
    → n < 2 ^ 32
    → n / 2 ^ 24 % 256 * 2 ^ 24 + (n / 2 ^ 16 % 256 * 2 ^ 16 + (n / 256 % 256 * 256 + n % 256)) ≡ n
u32_exact n h = omega arith

u16_exact : (n : ℕ) → n < 2 ^ 16 → n / 256 % 256 * 256 + n % 256 ≡ n
u16_exact n h = omega arith

abbrev big_endian : ByteOrder
big_endian = record {
  u32_bytes = λ n. n / 2 ^ 24 % 256 ∷ n / 2 ^ 16 % 256 ∷ n / 256 % 256 ∷ n % 256 ∷ [];
  u32_read = λ b. byte b 0 * 2 ^ 24 + (byte b 1 * 2 ^ 16 + (byte b 2 * 256 + byte b 3));
  u16_bytes = λ n. n / 256 % 256 ∷ n % 256 ∷ [];
  u16_read = λ b. byte b 0 * 256 + byte b 1;
  u32_length = λ n. refl;
  u16_length = λ n. refl;
  u32_exact = u32_exact;
  u16_exact = u16_exact;
}

abbrev scratch : List ℕ
scratch = 9 ∷ 9 ∷ 9 ∷ 9 ∷ 9 ∷ 9 ∷ 9 ∷ 9 ∷ 9 ∷ 9 ∷ 9 ∷ 9 ∷ 9 ∷ 9 ∷ []

send_data-Says_example :
    (inner : List ℕ) × (send_data big_endian 258 7 (1 ∷ 2 ∷ []) scratch ≡ returns inner)
    × Says big_endian inner (frame (frame_packet 258 7 (1 ∷ 2 ∷ [])))
    × (data_of (frame_packet 258 7 (1 ∷ 2 ∷ [])) ≡ ok (1 ∷ 2 ∷ []))
send_data-Says_example =
    send_data-Says big_endian 258 7 (1 ∷ 2 ∷ []) scratch (omega arith) (omega arith) (omega arith)
      (omega arith)

abbrev server : ConnState
server = new (record { max_trans_time = 100 }) for_udp 5

-- The first frame comes twice more.
abbrev two_frames : List Sent
two_frames =
    record { uid = 21; bytes = 1 ∷ 2 ∷ []; at = 11; again = 12 ∷ 14 ∷ [] }
    ∷ record { uid = 22; bytes = 3 ∷ 4 ∷ []; at = 15; again = [] }
    ∷ []

run-session_example :
    (earlier : List Processed) × (final : Processed) × (s' : ConnState) × (run big_endian
        (session 20 10 0 two_frames 23 16)
        scratch
        server
      ≡ returns (earlier ++ (final ∷ []), s'))
    × (reads earlier ≡ 1 ∷ 2 ∷ 3 ∷ 4 ∷ [])
    × (completes final ≡ true)
    × (s'.state ≡ recv_done)
run-session_example =
    run-session big_endian 20 10 two_frames 23 16 scratch server (inl refl) (omega arith)
      (omega arith) ((omega arith, (omega arith, (omega arith, _))), ((omega arith, _), _))
      (omega arith) (omega arith)

run-receive_example :
    (part : List ℕ) × (parts : List (List ℕ)) × (results : List Processed) × (s' : ConnState)
    × (c' : Option Cursor) × (run_sending big_endian
          ((10, cmd_packet 20 0 rx) ∷ confirms (λ n. 21) (λ n. 11) (suc (length parts)) 1)
          scratch
          server
          (some (Cursor.new seven))
        ≡ returns (results, s', c'))
    × (map (heard big_endian) results
        ≡ some (frame (frame_packet 1 20 part)) ∷ answers (λ n. 21) 1 parts)
    × (concat (part ∷ parts) ≡ seven)
    × All (IsPart (room_for server scratch)) (part ∷ parts)
    × (s'.state ≡ send_done)
run-receive_example =
    run-receive big_endian 20 10 (λ n. 21) (λ n. 11) scratch server seven (inl refl) (omega arith)
      (omega arith) (omega arith) (λ n. omega arith) (λ n. omega arith)
      (record { packet_size = omega arith; packet_small = omega arith; scratch_size = omega arith })

-- A connection that has sent seven packets, and of which the transaction began at 10.
abbrev receiving : ConnState
receiving = record server {
  state = recv;
  responding_to = 30;
  last_sent = 7;
  gen = record { current = 7 };
  trans_time = 10;
}

abbrev sending : ConnState
sending = record receiving { state = send_start }

confirm_again_example :
    (step : Step) × (write : List ℕ) × (process big_endian 11
        (cmd_packet 31 7 confirm)
        scratch
        sending
        (some (Cursor.new seven))
      ≡ returns step)
    × (step.result ≡ done (answer write))
    × (process big_endian 12 (cmd_packet 31 7 confirm) scratch step.next_state step.cursor
        ≡ returns step)
confirm_again_example =
    confirm_again big_endian 11 12 31 scratch sending (Cursor.new seven) (inl refl)
      (record { generated = refl; not_null = omega arith; fits = omega arith }) (omega arith)
      (omega arith)
      (record { packet_size = omega arith; packet_small = omega arith; scratch_size = omega arith })
      (omega arith) (omega arith)

process-IsConsistent_example :
    Keeps big_endian
      (record { max_trans_time = 100 })
      for_udp
      (process big_endian 11 (cmd_packet 31 7 confirm) scratch sending (some (Cursor.new seven)))
process-IsConsistent_example =
    process-IsConsistent big_endian (record { max_trans_time = 100 }) for_udp 11
      (cmd_packet 31 7 confirm) scratch sending (some (Cursor.new seven))
      (record { generated = refl; fits = omega arith; conf_kept = refl; env_kept = refl })

abbrev client : Client.ConnState
client = Client.new (record { max_trans_time = 100 }) for_udp 5

drive_send-ignores_example :
    (write : List ℕ) × (s' : Client.ConnState) × (results : List Client.Driven) × (Client.drive_send
        big_endian 10 scratch client
      ≡ returns (Client.drove (record Client.nothing { written = some write }), s'))
    × Says big_endian write (cmd_packet 1 0 tx)
    × (drive_packets ((11, cmd_packet 1 1 confirm) ∷ []) s' ≡ returns (results, s'))
    × All IsNothing results
    × (Client.currently s' ≡ Client.resting)
drive_send-ignores_example =
    drive_send-ignores big_endian 10 ((11, cmd_packet 1 1 confirm) ∷ []) scratch client refl
      (omega arith)

run-once_example :
    (results single : List Processed) × (s' : ConnState) × (run big_endian
        (packets 7 two_frames)
        scratch
        receiving
      ≡ returns (results, s'))
    × (run big_endian (packets 7 (map once two_frames)) scratch receiving ≡ returns (single, s'))
    × (reads results ≡ reads single)
run-once_example =
    run-once big_endian two_frames scratch receiving (inr refl)
      (record { generated = refl; not_null = omega arith; fits = omega arith })
      ((omega arith, (omega arith, (omega arith, _))), ((omega arith, _), _)) (omega arith)

confirm_fits_example :
    (step : Step) × (write sent : List ℕ) × (process big_endian 11
        (cmd_packet 31 7 confirm)
        scratch
        sending
        (some (Cursor.new seven))
      ≡ returns step)
    × (step.result ≡ done (answer write))
    × (portion_to_send big_endian write ≡ returns sent)
    × (length sent ≤ 508)
    × (length sent ≤ 14)
confirm_fits_example =
    confirm_fits big_endian 11 31 scratch sending (Cursor.new seven) (inl refl)
      (record { generated = refl; not_null = omega arith; fits = omega arith }) (omega arith)
      (record { packet_size = omega arith; packet_small = omega arith; scratch_size = omega arith })
      (omega arith) (omega arith)
