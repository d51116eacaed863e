-- ===== src/Tsdb/Tests.antt =====
-- A database in memory, and the theorems about the database at it.
mod Database
mod Bus
mod Unknown
mod Access
use hayselnut.Common.{
  ℕ, zero, suc, ◌+◌, ◌-◌, ◌^◌, ◌≤◌, ◌<◌, ◌≡◌, ◌≢◌, ◌∙◌, refl, sym, ap, subst, returns_injective,
  List, [], ◌∷◌, ◌++◌, Bool, true, false, ltb, leb, not, ◌==◌, if◌then◌else◌, inr, All, length,
  get_elem?, set, take, replicate, length-replicate, length-append, Option, none, some, Outcome,
  returns, panics, ◌>>=◌, arith,
}
use hayselnut.Tsdb.Time.{ℤ, pos, negsuc, htime_to_unix, unix_to_htime, epoch, ◌≤ℤ◌}
use hayselnut.Tsdb.Channel.{
  DataEntry, ChannelData, Channel, ChunkMemory, insert_entry, query_channel,
}
use hayselnut.Tsdb.Channel.History.{Chain, Holds, history, Stores, Ascending}
use hayselnut.Tsdb.Channel.Insert.{insert_entry-Stores}
use hayselnut.Tsdb.Channel.Selected.{answer, between, joined}
use hayselnut.Tsdb.Channel.Scan.{query_channel_lem}
use hayselnut.Tsdb.Query.{
  QueryBuilder, verified, private_into, new, with_channel, with_station, verify, to_raw,
}
use hayselnut.Tsdb.Query.Reached.{Reached, newly, channelled, stationed}
use hayselnut.Tsdb.Database.Readings.{query_data}
use hayselnut.Tsdb.Database.Stations.{IsDense}
use hayselnut.Tsdb.Database.Queries.{IsNothing, query_data_unbounded, query_data-IsNothing}
use hayselnut.Tsdb.Database.{Store, Db, MapElem, DbEntrypoint, get_stations, insert_station}

-- What is at an address: the addresses count from 1.
abbrev cell_at : {A : Type 0} → List A → ℕ → Outcome A
cell_at cells zero = panics
cell_at cells (suc i) = elim (get_elem? cells i) [ none ↦ panics | some a ↦ returns a ]

record Cells : Type 0 where
  chunk_cells : List (ChannelData ℕ)
  entry : Option DbEntrypoint
  station_cells : List (List MapElem)
  channel_cells : List (Channel ℕ)

get_elem?-new : {A : Type 0} (xs : List A) (a : A) → get_elem? (xs ++ (a ∷ [])) (length xs) ≡ some a
get_elem?-new [] a = refl
get_elem?-new (x ∷ xs) a = get_elem?-new xs a

cell_at-new :
    {A : Type 0} (xs : List A) (a : A) → cell_at (xs ++ (a ∷ [])) (suc (length xs)) ≡ returns a
cell_at-new xs a = rw (cell_at, get_elem?-new xs a) refl

cell_at-old :
    {A : Type 0} (xs : List A) (a : A) (q : ℕ) (b : A)
    → cell_at xs q ≡ returns b
    → cell_at (xs ++ (a ∷ [])) q ≡ returns b
cell_at-old xs a zero b h = h
cell_at-old [] a (suc i) b h = ground (arith, h)
cell_at-old (x ∷ xs) a (suc zero) b h = h
cell_at-old (x ∷ xs) a (suc (suc i)) b h = cell_at-old xs a (suc i) b h

address-ne_null :
    {M : Type 0} {m m' : M} {p : ℕ} (n : ℕ) (o : Outcome (ℕ × M))
    → o ≡ returns (p, m')
    → o ≡ returns (suc n, m)
    → p ≢ 0
address-ne_null n o h k z = ground (arith, h, k, z)

abbrev nowhere : MapElem
nowhere = record { id = 0; ptr = 0 }

abbrev unwritten : DataEntry ℕ
unwritten = record { htime = 0; reading = 0 }

abbrev empty_channel : Channel ℕ
empty_channel = record {
  num_used = 0;
  last_time = 0;
  latest = record { chunk = replicate 512 unwritten; next = 0 };
}

abbrev no_cells : Cells
no_cells = record { chunk_cells = []; entry = none; station_cells = []; channel_cells = [] }

abbrev chunks_in_memory : ChunkMemory ℕ
chunks_in_memory = record {
  Memory = Cells;
  read = λ m p. cell_at m.chunk_cells p;
  alloc_with = λ m d.
      returns (suc (length m.chunk_cells), record m { chunk_cells = m.chunk_cells ++ (d ∷ []) });
  alloc-ne_null = λ m m' p d h z. address-ne_null _ _ h refl z;
  read-alloc = λ m m' p d h.
      subst (λ (o : ℕ × Cells). cell_at o.1.chunk_cells o.0 ≡ returns d) (returns_injective h)
        (cell_at-new m.chunk_cells d);
  read-alloc_old = λ m m' p q d e h r.
      subst (λ (o : ℕ × Cells). cell_at o.1.chunk_cells q ≡ returns e) (returns_injective h)
        (cell_at-old m.chunk_cells d q e r);
}

abbrev store_in_memory : Store ℕ
store_in_memory = record {
  chunks = chunks_in_memory;
  entrypoint = λ m. returns m.entry;
  write_entrypoint = λ m e. returns (record m { entry = some e });
  alloc_entrypoint = λ m. returns (
    1,
    record {
      stations = replicate 16 nowhere;
      station_map_chunk_size = 0;
      channel_map_chunk_size = 0;
    },
    m,
  );
  set_entrypoint_pointer = λ m p. returns m;
  read_station = λ m p. cell_at m.station_cells p;
  write_station = λ m p s. returns (record m { station_cells = set m.station_cells (p - 1) s });
  alloc_station = λ m. returns (
    suc (length m.station_cells),
    record m { station_cells = m.station_cells ++ (replicate 64 nowhere ∷ []) },
  );
  read_channel = λ m p. cell_at m.channel_cells p;
  write_channel = λ m p c. returns (record m { channel_cells = set m.channel_cells (p - 1) c });
  alloc_channel = λ m. returns (
    suc (length m.channel_cells),
    record m { channel_cells = m.channel_cells ++ (empty_channel ∷ []) },
  );
  entrypoint-write = λ m m' e h.
      subst (λ (o : Cells). returns o.entry ≡ returns (some e)) (returns_injective h) refl;
  alloc_station-ne_null = λ m m' p h z. address-ne_null _ _ h refl z;
}

-- A full chunk of readings at the time 3, and a channel with one reading, at the time 5, before it.
abbrev at_3 : DataEntry ℕ
at_3 = record { htime = 3; reading = 30 }

abbrev at_5 : DataEntry ℕ
at_5 = record { htime = 5; reading = 50 }

abbrev one_chunk : Cells
one_chunk = record no_cells { chunk_cells = record { chunk = replicate 512 at_3; next = 0 } ∷ [] }

abbrev channel_of_two : Channel ℕ
channel_of_two = record {
  num_used = 1;
  last_time = 5;
  latest = record { chunk = at_5 ∷ replicate 511 unwritten; next = 1 };
}

Ascending-replicate : (n : ℕ) → Ascending 3 3 (replicate n at_3)
unfolding replicate
Ascending-replicate zero = omega arith
Ascending-replicate (suc n) = (omega arith, Ascending-replicate n)

channel_of_two-Stores :
    Stores chunks_in_memory one_chunk channel_of_two (replicate 512 at_3 ++ (at_5 ∷ []))
unfolding take
channel_of_two-Stores = record {
  head = at_5 ∷ [];
  older = replicate 512 at_3 ∷ [];
  holds = record {
    sized = ap suc (length-replicate 511 unwritten);
    used = omega arith;
    newest = refl;
    chain = (λ z. ground (arith, z), length-replicate 512 at_3, (0, refl, refl));
  };
  ordered = (3, (omega arith, omega arith), (3, Ascending-replicate 512, _));
  whole = refl;
}

empty_channel-Stores : Stores chunks_in_memory no_cells empty_channel []
unfolding take
empty_channel-Stores = record {
  head = [];
  older = [];
  holds = record {
    sized = length-replicate 512 unwritten;
    used = omega arith;
    newest = refl;
    chain = refl;
  };
  ordered = (0, omega arith, _);
  whole = refl;
}

insert_entry-Stores_example :
    (c' : Channel ℕ) × (m' : Cells) × (insert_entry chunks_in_memory 5 20 empty_channel no_cells
      ≡ returns (c', m'))
    × Stores chunks_in_memory m' c' (record { htime = 5; reading = 20 } ∷ [])
insert_entry-Stores_example =
    insert_entry-Stores chunks_in_memory 5 20 empty_channel no_cells [] empty_channel-Stores
      (omega arith) (λ d. (1, record no_cells { chunk_cells = d ∷ [] }, refl))

query_channel_lem_example :
    query_channel chunks_in_memory some one_chunk 2 9 1000 2 channel_of_two
    ≡ returns
        (some (answer htime_to_unix (between 2 9 (joined ((at_5 ∷ []) ∷ replicate 512 at_3 ∷ [])))))
unfolding channel_of_two-Stores
query_channel_lem_example =
    query_channel_lem some htime_to_unix (λ h u. refl) chunks_in_memory one_chunk 2 9 1000 1
      channel_of_two (replicate 512 at_3 ++ (at_5 ∷ [])) channel_of_two-Stores at_5 [] refl
      (omega arith) (omega arith)
      (omega (arith, length-append (replicate 512 at_3) [], length-replicate 512 at_3))
      (omega arith)
