-- ===== src/Tsdb/Database.antt =====
-- The database (`DB` of haysel/src/tsdb3/mod.rs): the maps of stations and channels
-- (haysel/src/tsdb3/repr.rs), and its operations.
pub mod Readings
pub mod Stations
pub mod Queries
use hayselnut.Common.{
  ℕ, zero, suc, ◌+◌, ◌-◌, ◌^◌, ◌≡◌, ◌≢◌, List, [], ◌∷◌, Bool, true, false, not, ◌&&◌, ◌==◌, leb,
  if◌then◌else◌, length, get_elem?, set, map, Option, none, some, Outcome, returns, panics, ◌>>=◌,
}
use hayselnut.Tsdb.Time.{ℤ, pos, epoch, unix_to_htime, htime_to_unix}
use hayselnut.Tsdb.Channel.{ChannelData, Channel, ChunkMemory, insert_entry, query_channel}
use hayselnut.Tsdb.Query.{QueryBuilder, verified, to_raw, is_none}

-- `MapStationsElem` and `MapChannelsElem`. An id is the number that its 16 bytes are, nil is 0; a
-- pointer is its address, null is 0.
pub record MapElem : Type 0 where
  pub id : ℕ
  pub ptr : ℕ

pub record DbEntrypoint : Type 0 where
  pub stations : List MapElem
  pub station_map_chunk_size : ℕ
  pub channel_map_chunk_size : ℕ

abbrev pub stations_len : ℕ
stations_len = 16

abbrev pub channels_len : ℕ
channels_len = 64

-- What the database asks of `AllocAccess` beyond the chunks: reading and writing the entrypoint, the
-- stations and the channels, and allocating zeroed ones. An entrypoint that is written is read again,
-- and a new station is not at null.
pub record Store (F : Type 0) : Type 1 where
  pub chunks : ChunkMemory F
  pub entrypoint : chunks.Memory → Outcome (Option DbEntrypoint)
  pub write_entrypoint : chunks.Memory → DbEntrypoint → Outcome chunks.Memory
  pub alloc_entrypoint : chunks.Memory → Outcome (ℕ × DbEntrypoint × chunks.Memory)
  pub set_entrypoint_pointer : chunks.Memory → ℕ → Outcome chunks.Memory
  pub read_station : chunks.Memory → ℕ → Outcome (List MapElem)
  pub write_station : chunks.Memory → ℕ → List MapElem → Outcome chunks.Memory
  pub alloc_station : chunks.Memory → Outcome (ℕ × chunks.Memory)
  pub read_channel : chunks.Memory → ℕ → Outcome (Channel F)
  pub write_channel : chunks.Memory → ℕ → Channel F → Outcome chunks.Memory
  pub alloc_channel : chunks.Memory → Outcome (ℕ × chunks.Memory)
  pub entrypoint-write :
      (m m' : chunks.Memory) (e : DbEntrypoint)
      → write_entrypoint m e ≡ returns m'
      → entrypoint m' ≡ returns (some e)
  pub alloc_station-ne_null :
      (m m' : chunks.Memory) (p : ℕ) → alloc_station m ≡ returns (p, m') → p ≢ 0

abbrev pub expect {ℓ} : {A : Type ℓ} → Option A → Outcome A
expect none = panics
expect (some a) = returns a

abbrev pub assert : Bool → Outcome {0} Unit
assert true = returns _
assert false = panics

-- `take_while` on the pointers, and `find`.
abbrev pub valid_elems : List MapElem → List MapElem
valid_elems [] = []
valid_elems (elem_ ∷ rest) = if elem_.ptr == 0 then [] else elem_ ∷ valid_elems rest

abbrev pub find_elem : ℕ → List MapElem → Option MapElem
find_elem id [] = none
find_elem id (elem_ ∷ rest) = if elem_.id == id then some elem_ else find_elem id rest

-- The index of the first element with a null pointer.
abbrev pub first_empty : List MapElem → Option ℕ
first_empty [] = none
first_empty (elem_ ∷ rest) =
    let more = first_empty rest in
    if elem_.ptr == 0 then some 0 else elim more [ none ↦ none | some i ↦ some (suc i) ]

abbrev pub is_some {ℓ} : {A : Type ℓ} → Option A → Bool
is_some o = not (is_none o)

abbrev pub ids : List MapElem → List ℕ
ids elems = map (λ e. e.id) elems

-- `find(|x| *x == &id).is_some()` on ids.
abbrev pub contains : ℕ → List ℕ → Bool
contains id [] = false
contains id (x ∷ xs) = if x == id then true else contains id xs

module _ {F : Type 0} (store : Store F) where
  open store use {
    chunks, entrypoint, write_entrypoint, alloc_entrypoint, set_entrypoint_pointer, read_station,
    write_station, alloc_station, read_channel, write_channel, alloc_channel,
  }

  pub record Db : Type 0 where
    pub memory : chunks.Memory
    pub init : Bool

  -- `access.entrypoint().unwrap()`
  abbrev pub entry_of : Db → Outcome DbEntrypoint
  entry_of db = entrypoint db.memory >>= λ e. expect e

  -- `DB::init`; the map sizes are those of zeroed values.
  unfoldable pub init_db : Db → Outcome Db
  init_db db = assert (not db.init) >>= λ _. alloc_entrypoint db.memory >>= λ allocated.
      set_entrypoint_pointer allocated.2 allocated.0 >>= λ pointed.
      write_entrypoint pointed (record allocated.1 {
        station_map_chunk_size = stations_len;
        channel_map_chunk_size = channels_len;
      })
      >>= λ written. returns (record { memory = written; init = true })

  -- `DB::open`
  unfoldable pub open_db : Db → Outcome Db
  open_db db = assert (not db.init) >>= λ _. entry_of db >>= λ entry.
      assert (entry.station_map_chunk_size == stations_len) >>= λ _.
      assert (entry.channel_map_chunk_size == channels_len) >>= λ _.
      returns (record db { init = true })

  unfoldable pub get_stations : Db → Outcome (List ℕ)
  get_stations db =
      assert db.init >>= λ _. entry_of db >>= λ entry. returns (ids (valid_elems entry.stations))

  unfoldable pub get_channels_for : Db → ℕ → Outcome (Option (List ℕ))
  get_channels_for db station_id = assert db.init >>= λ _. assert (not (station_id == 0)) >>= λ _.
      entry_of db >>= λ entry. elim (find_elem station_id (valid_elems entry.stations)) [
        | none ↦ returns none
        | some elem_ ↦ read_station db.memory elem_.ptr >>= λ station.
            returns (some (ids (valid_elems station)))
      ]

  unfoldable pub insert_station : ℕ → Db → Outcome Db
  insert_station id db = assert db.init >>= λ _. assert (not (id == 0)) >>= λ _.
      get_stations db >>= λ stations. assert (not (contains id stations)) >>= λ _.
      entry_of db >>= λ entry. expect (first_empty entry.stations) >>= λ i.
      write_entrypoint db.memory
        (record entry { stations = set entry.stations i (record { id = id; ptr = 0 }) })
      >>= λ named. alloc_station named >>= λ allocated.
          write_entrypoint allocated.1 (record entry {
            stations = set entry.stations i (record { id = id; ptr = allocated.0 });
          })
          >>= λ written. returns (record db { memory = written })

  -- The loop of `insert_channels`.
  unfoldable pub fill_channels :
      ℕ → ℕ → List MapElem → List ℕ → chunks.Memory → Outcome chunks.Memory
  fill_channels ptr ins_idx elems [] m = returns m
  fill_channels ptr ins_idx elems (ch ∷ channels) m =
      let rest = λ (elems' : List MapElem) (m' : chunks.Memory).
        fill_channels ptr (ins_idx + 1) elems' channels m' in
      assert (not (ch == 0)) >>= λ _. expect (get_elem? elems ins_idx) >>= λ elem_.
      write_station m ptr (set elems ins_idx (record elem_ { id = ch })) >>= λ named.
      alloc_channel named >>= λ allocated.
      let filled = set elems ins_idx (record { id = ch; ptr = allocated.0 }) in
      write_station allocated.1 ptr filled >>= λ written. rest filled written

  unfoldable pub insert_channels : ℕ → List ℕ → Db → Outcome Db
  insert_channels station_id channels db = assert db.init >>= λ _.
      assert (not (station_id == 0)) >>= λ _. entry_of db >>= λ entry.
      expect (find_elem station_id (valid_elems entry.stations)) >>= λ elem_.
      read_station db.memory elem_.ptr >>= λ station.
      fill_channels elem_.ptr (length (valid_elems station)) station channels db.memory
      >>= λ written. returns (record db { memory = written })
