-- ===== src/Tsdb/Bus/Restart.antt =====
-- A database that is opened again (haysel/src/main.rs, haysel/src/tsdb3/bus/rt.rs).
use hayselnut.Common.{
  ℕ, ◌≡◌, refl, true, false, List, [], ◌∷◌, ◌++◌, ◌==◌, inl, inr, Bool-cases, some, returns, panics,
  Option,
}
use hayselnut.Tsdb.Time.{ℤ}
use hayselnut.Tsdb.Database.{
  Store, Db, DbEntrypoint, ids, valid_elems, contains, stations_len, channels_len, open_db,
  get_stations, insert_station,
}
use hayselnut.Tsdb.Bus.{Msg, Comm, ensure_stations, run_msg, runner, start, ensure_exists}

module _ {F : Type 0} (store : Store F) where
  insert_station_known :
      (id : ℕ) (db : Db store) (entry : DbEntrypoint)
      → db.init ≡ true
      → store.entrypoint db.memory ≡ returns (some entry)
      → contains id (ids (valid_elems entry.stations)) ≡ true
      → insert_station store id db ≡ panics
  unfolding insert_station get_stations
  insert_station_known id db entry init there known = elim (Bool-cases (id == 0)) [
    | inl nil ↦ rw (init, nil) refl
    | inr e ↦ rw (init, e) (rw there (rw known refl))
  ]

  -- Where the first station of a registry is in a database that is closed and whose maps have the sizes of
  -- the code, start opens the database: it is initialized, its memory as it was. Then its thread panics at the
  -- first message, that of all the registry's stations, whatever comes behind it.
  pub runner-start :
      {DateTime : Type 0} (timestamp_of : DateTime → ℤ) (from_timestamp : ℤ → Option DateTime)
      → (id : ℕ) (stations channels : List ℕ) (db : Db store) (entry : DbEntrypoint)
      → db.init ≡ false
      → store.entrypoint db.memory ≡ returns (some entry)
      → entry.station_map_chunk_size ≡ stations_len
      → entry.channel_map_chunk_size ≡ channels_len
      → contains id (ids (valid_elems entry.stations)) ≡ true
      → (db' : Db store) × (comm : Comm F DateTime) × (start store DateTime
            (id ∷ stations)
            channels
            db
          ≡ returns (db', comm))
        × (db'.init ≡ true)
        × (db'.memory ≡ db.memory)
        × ((fuel : ℕ) (later : List (Msg F DateTime))
            → runner store timestamp_of from_timestamp fuel (comm.queue ++ later) db' ≡ panics)
  unfolding start open_db runner run_msg ensure_stations
  runner-start timestamp_of from_timestamp id stations channels db entry closed there size size'
        known =
      (
        record db { init = true },
        record { queue = ensure_exists (id ∷ stations) channels ∷ []; closed = false },
        rw closed (rw there (rw (size, size') refl)),
        refl,
        refl,
        λ fuel later.
            rw (insert_station_known id (record db { init = true }) entry refl there known) refl,
      )
