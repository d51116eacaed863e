-- ===== src/Ipc/Tests.antt =====
-- A client that is a queue of bytes, and a database that finds one reading.
use hayselnut.Common.{
  false, true, ℕ, ◌-◌, List, [], ◌∷◌, ◌++◌, ◌≡◌, refl, none, some, if◌then◌else◌, leb, ltb, length,
  take, drop,
}
use hayselnut.Dispatch.{answered}
use hayselnut.Mycelium.{done, io_failed, Socket, Format}
use hayselnut.Ipc.{
  start, meta_new_station, IpcMsgKind, query_last_hour_of, client_disconnect, bye, Connection, Peer,
  read_msg, goes_on, handle_read,
}
use hayselnut.Ipc.Listener.{ended, alive, live, accepted, Happening, told, arrives, run}
use hayselnut.Ipc.Reading.{IsReading, Leaves, handle_read-Leaves}

abbrev sent_bytes : Socket ℕ (List ℕ)
sent_bytes = record {
  write_all = λ bytes s. done _ (s ++ bytes);
  read_exact = λ n s. if leb n (length s) then done (take n s) (drop n s) else io_failed 0 s;
  read = λ n s. done (take n s) (drop n s);
}

abbrev first_byte : IpcMsgKind ℕ ℕ → List ℕ
first_byte client_disconnect = 1 ∷ []
first_byte bye = 2 ∷ []
first_byte _ = 3 ∷ []

abbrev client : Peer ℕ ℕ ℕ (List ℕ)
client = record {
  socket = sent_bytes;
  format = record { to_vec_named = λ kind. some (first_byte kind); from_slice = λ bytes. none };
  query_db = λ query w. answered ((60, 21) ∷ []) w;
  now = λ w. 90;
  hour_before = λ t. t - 60;
  earlier = ltb;
}

-- The task has half 7 of the socket.
abbrev connected : Connection ℕ
connected = record { read = none; reading = none; init_known = none }

disconnecting :
    handle_read client 7 (read_msg client_disconnect) connected []
    ≡ goes_on
        (record connected { read = some 7 })
        (0 ∷ (0 ∷ (0 ∷ (0 ∷ (0 ∷ (0 ∷ (0 ∷ (1 ∷ (2 ∷ [])))))))))
unfolding handle_read hayselnut.Mycelium.ipc_send hayselnut.Mycelium.to_be_bytes
disconnecting = refl

handle_read-Leaves_example :
    Leaves 7
      (IsReading {F = ℕ} {DateTime = ℕ} 7 (query_last_hour_of 4 5))
      (handle_read client 7 (read_msg (query_last_hour_of 4 5)) connected [])
handle_read-Leaves_example = handle_read-Leaves client 7 (query_last_hour_of 4 5) connected [] refl

-- A query comes, a station is new, and the client goes; then nothing arrives.
abbrev an_hour : List (Happening ℕ ℕ ℕ (List ℕ))
an_hour =
    arrives (read_msg (query_last_hour_of 4 5)) none
    ∷ told (meta_new_station 4) (some [])
    ∷ arrives (read_msg client_disconnect) (some [])
    ∷ arrives (read_msg client_disconnect) none
    ∷ []

abbrev arrived : Connection ℕ
arrived = accepted 7 ([], [])

lived :
    (w : List ℕ) × (live client an_hour arrived []
      ≡ alive false (record { read = some 7; reading = none; init_known = none }) w)
unfolding live start run handle_read hayselnut.Ipc.last_hour_query hayselnut.Mycelium.ipc_send
    hayselnut.Tsdb.Query.with_station hayselnut.Tsdb.Query.with_channel
    hayselnut.Tsdb.Query.with_after hayselnut.Tsdb.Query.verify
lived = (_, refl)

-- The connection breaks after three messages: an announcement fails, the next one is dropped, and reading ends it.
abbrev breaks : Socket ℕ (List ℕ)
breaks = record sent_bytes {
  write_all = λ bytes s. if leb 27 (length s) then io_failed 0 s else done _ (s ++ bytes);
}

broken :
    (w w' : List ℕ) × (live
        (record client { socket = breaks })
        (arrives (read_msg (query_last_hour_of 4 5)) none
          ∷ (told (meta_new_station 4) none ∷ (told (meta_new_station 5) none ∷ [])))
        arrived
        []
      ≡ alive true (record { read = none; reading = some 7; init_known = none }) w)
    × (live
          (record client { socket = breaks })
          (arrives (read_msg (query_last_hour_of 4 5)) none
            ∷ (told (meta_new_station 4) none
                ∷ (told (meta_new_station 5) none
                    ∷ (told (meta_new_station 6) (some [])
                        ∷ (arrives (read_msg (query_last_hour_of 4 5)) (some []) ∷ [])))))
          arrived
          []
        ≡ ended w')
unfolding live start run handle_read hayselnut.Ipc.last_hour_query hayselnut.Mycelium.ipc_send
    hayselnut.Mycelium.to_be_bytes hayselnut.Tsdb.Query.with_station
    hayselnut.Tsdb.Query.with_channel hayselnut.Tsdb.Query.with_after hayselnut.Tsdb.Query.verify
broken = (_, _, refl, refl)
