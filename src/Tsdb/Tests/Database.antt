-- ===== src/Tsdb/Tests/Database.antt =====
-- The theorems about queries and the map of stations, at the database in memory.
use hayselnut.Common.{ℕ, ◌≡◌, [], ◌∷◌, Bool, true, false, ltb, replicate, none, some, arith}
use hayselnut.Tsdb.Time.{ℤ, pos, negsuc, ◌≤ℤ◌}
use hayselnut.Tsdb.Query.{QueryBuilder}
use hayselnut.Tsdb.Query.Reached.{Reached}
use hayselnut.Tsdb.Database.{Db, DbEntrypoint}
use hayselnut.Tsdb.Tests.{Cells, nowhere, no_cells, store_in_memory}

-- A builder with the station 7 and the channel 8, and bounds.
abbrev both : QueryBuilder ℕ ℤ 3
both = record {
  station = some 7;
  channel = some 8;
  max_results = none;
  after_time = none;
  before_time = none;
}

abbrev bounded : QueryBuilder ℕ ℤ 27
bounded = record {
  station = some 7;
  channel = some 8;
  max_results = none;
  after_time = some (pos 1600000000);
  before_time = some (pos 1600000000);
}

abbrev earlier : ℤ → ℤ → Bool
earlier (pos s) (pos t) = ltb s t
earlier (pos s) (negsuc t) = false
earlier (negsuc s) (pos t) = true
earlier (negsuc s) (negsuc t) = ltb t s

earlier_order : (s t : ℤ) → earlier s t ≡ false → t ≤ℤ s
earlier_order (pos s) (pos t) h = ground (arith, h)
earlier_order (pos s) (negsuc t) h = _
earlier_order (negsuc s) (pos t) h = ground (arith, h)
earlier_order (negsuc s) (negsuc t) h = ground (arith, h)

abbrev sixteen : DbEntrypoint
sixteen = record {
  stations = replicate 16 nowhere;
  station_map_chunk_size = 16;
  channel_map_chunk_size = 64;
}

abbrev new_db : Db store_in_memory
new_db = record { memory = record no_cells { entry = some sixteen }; init = true }

abbrev listing : ℕ → DbEntrypoint
listing ptr = record sixteen { stations = record { id = 9; ptr = ptr } ∷ replicate 15 nowhere }

abbrev named : Cells
named = record no_cells { entry = some (listing 0) }

abbrev allocated : Cells
allocated = record named { station_cells = replicate 64 nowhere ∷ [] }
