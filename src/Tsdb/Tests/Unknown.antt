-- ===== src/Tsdb/Tests/Unknown.antt =====
-- A station that sends data of a channel that the database in memory does not have.
use hayselnut.Common.{
  ℕ, ◌≡◌, refl, List, [], ◌∷◌, ◌++◌, replicate, false, true, none, some, returns, panics,
}
use hayselnut.Tsdb.Time.{ℤ, pos}
use hayselnut.Tsdb.Database.{Db, DbEntrypoint, get_channels_for}
use hayselnut.Tsdb.Tests.{nowhere, no_cells, store_in_memory}
use hayselnut.Tsdb.Bus.{
  Record, float, event, Msg, Comm, sent, received, weather_data_received, runner,
}
use hayselnut.Dispatch.{answered, ran}
use hayselnut.Dispatch.Application.{AppClient, some_data, Services, app_received}
use hayselnut.Dispatch.Unknown.{IsServing, app_received-panics}

abbrev one_station : DbEntrypoint
one_station = record {
  stations = record { id = 7; ptr = 1 } ∷ replicate 15 nowhere;
  station_map_chunk_size = 16;
  channel_map_chunk_size = 64;
}

abbrev db_with_station : Db store_in_memory
db_with_station = record {
  memory = record no_cells {
    entry = some one_station;
    station_cells = (record { id = 50; ptr = 1 } ∷ replicate 63 nowhere) ∷ [];
  };
  init = true;
}

-- The world is what was announced; a packet is data of the channel 51 and an event of the channel 50.
abbrev services : Services ℕ ℤ (List (Record ℕ ℤ))
services = record {
  bus = record { dispatch = λ target e w. answered _ w };
  process_connect = λ d w. answered [] w;
  query_channel = λ id w. answered none w;
  announce = λ r w. answered _ (w ++ (r ∷ []));
  now = λ w. pos 1700000000;
  from_slice = λ bytes. some (some_data ((51, float 3) ∷ ((50, event) ∷ [])));
  to_vec_named = λ mappings. some [];
}

services-IsServing : IsServing services (λ w. w) (λ w. Unit {0})
services-IsServing = record {
  asks = λ id w live. (none, w, refl, _, refl);
  tells = λ r w live. (w ++ (r ∷ []), refl, refl);
}

abbrev client : AppClient
client = record { transport = 3; meta_station_id = some 7 }

channels_of_station : get_channels_for store_in_memory db_with_station 7 ≡ returns (some (50 ∷ []))
unfolding get_channels_for replicate
channels_of_station = refl

app_received-panics_example :
    (r : Record ℕ ℤ) × (w' : List (Record ℕ ℤ)) × (comm : Comm ℕ ℤ) × (app_received services
        (1 ∷ [])
        client
        []
      ≡ ran client w')
    × (r.recorded_by ≡ 7)
    × (r.recorded_at ≡ pos 1700000000)
    × (r.readings ≡ ((51, float 3) ∷ ((50, event) ∷ [])))
    × (w' ≡ [] ++ (r ∷ []))
    × (received (weather_data_received r) (record { queue = []; closed = false }) ≡ sent _ comm)
    × ((fuel : ℕ) (later : List (Msg ℕ ℤ))
        → runner store_in_memory (λ s. s) some fuel (comm.queue ++ later) db_with_station ≡ panics)
app_received-panics_example =
    app_received-panics store_in_memory (λ s. s) some services (λ w. w) (λ w. Unit {0})
      services-IsServing (1 ∷ []) 51 3 ((50, event) ∷ []) 7 client [] db_with_station
      (some (50 ∷ [])) _ refl refl channels_of_station refl
