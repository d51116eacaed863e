-- ===== src/Tsdb/Tests/Bus.antt =====
-- A database in memory with one station, opened again.
use hayselnut.Common.{
  ℕ, ◌≡◌, refl, List, [], ◌∷◌, ◌++◌, replicate, false, true, some, returns, panics,
}
use hayselnut.Tsdb.Time.{ℤ}
use hayselnut.Tsdb.Database.{Db, DbEntrypoint}
use hayselnut.Tsdb.Tests.{nowhere, no_cells, store_in_memory}
use hayselnut.Tsdb.Bus.{Msg, Comm, start, runner}
use hayselnut.Tsdb.Bus.Restart.{runner-start}

abbrev first_station : DbEntrypoint
first_station = record {
  stations = record { id = 7; ptr = 1 } ∷ replicate 15 nowhere;
  station_map_chunk_size = 16;
  channel_map_chunk_size = 64;
}

abbrev closed_db : Db store_in_memory
closed_db = record { memory = record no_cells { entry = some first_station }; init = false }

runner-start_example :
    (db' : Db store_in_memory) × (comm : Comm ℕ ℤ) × (start store_in_memory ℤ
        (7 ∷ [])
        (50 ∷ [])
        closed_db
      ≡ returns (db', comm))
    × (db'.init ≡ true)
    × (db'.memory ≡ closed_db.memory)
    × ((fuel : ℕ) (later : List (Msg ℕ ℤ))
        → runner store_in_memory (λ s. s) some fuel (comm.queue ++ later) db' ≡ panics)
runner-start_example =
    runner-start store_in_memory (λ s. s) some 7 [] (50 ∷ []) closed_db first_station refl refl refl
      refl refl
