-- ===== src/Tsdb/Database/Readings.antt =====
-- Readings in and out: `insert_data`, `query_data` and `qery_data_raw` (haysel/src/tsdb3/mod.rs).
use hayselnut.Common.{ℕ, ◌-◌, ◌^◌, List, false, leb, Option, none, some, Outcome, returns, ◌>>=◌}
use hayselnut.Tsdb.Time.{ℤ, pos, epoch, unix_to_htime, htime_to_unix}
use hayselnut.Tsdb.Channel.{insert_entry, query_channel}
use hayselnut.Tsdb.Query.{QueryBuilder, verified, to_raw}
use hayselnut.Tsdb.Database.{
  Store, Db, entry_of, get_stations, get_channels_for, expect, assert, contains, find_elem,
  valid_elems,
}

module _ {F : Type 0} (store : Store F) where
  open store use {chunks, read_station, read_channel, write_channel}

  -- The two lookups that `insert_data` and `qery_data_raw` begin with: the assertions, and the pointer
  -- to the channel.
  unfoldable pub assert_known : ℕ → ℕ → Db store → Outcome {0} Unit
  assert_known station_id channel_id db = assert db.init >>= λ _.
      get_stations store db >>= λ stations. assert (contains station_id stations) >>= λ _.
      get_channels_for store db station_id >>= λ channels.
      assert (elim channels [ none ↦ false | some chs ↦ contains channel_id chs ])

  unfoldable pub find_channel : ℕ → ℕ → Db store → Outcome ℕ
  find_channel station_id channel_id db = entry_of store db >>= λ entry.
      expect (find_elem station_id (valid_elems entry.stations)) >>= λ elem_.
      read_station db.memory elem_.ptr >>= λ station.
      expect (find_elem channel_id (valid_elems station)) >>= λ ch. returns ch.ptr

  -- `time.timestamp()`, chrono's conversions, are parameters.
  module _ {DateTime : Type 0} (timestamp_of : DateTime → ℤ)
      (from_timestamp : ℤ → Option DateTime) where
    unfoldable pub insert_data : ℕ → ℕ → DateTime → F → Db store → Outcome (Db store)
    insert_data station_id channel_id time reading db =
        assert_known station_id channel_id db >>= λ _.
        expect (unix_to_htime (timestamp_of time)) >>= λ timestamp.
        find_channel station_id channel_id db >>= λ ptr. read_channel db.memory ptr >>= λ channel.
        insert_entry chunks timestamp reading channel db.memory >>= λ inserted.
        write_channel inserted.1 ptr inserted.0 >>= λ written.
        returns (record db { memory = written })

    -- The bounds of a query as the database stores times.
    unfoldable pub query_bounds : DateTime → DateTime → Outcome (ℕ × ℕ)
    query_bounds after_time before_time =
        expect (unix_to_htime (timestamp_of after_time)) >>= λ t_lower.
        expect (unix_to_htime (timestamp_of before_time)) >>= λ t_upper.
        assert (leb t_lower t_upper) >>= λ _. returns (t_lower, t_upper)

    -- The fuel is that of `query_channel`.
    unfoldable pub qery_data_raw :
        ℕ → ℕ → ℕ → DateTime → DateTime → ℕ → Db store → Outcome (Option (List (DateTime × F)))
    qery_data_raw fuel station_id channel_id after_time before_time max_results db =
        assert_known station_id channel_id db >>= λ _.
        query_bounds after_time before_time >>= λ bounds.
        find_channel station_id channel_id db >>= λ ptr. read_channel db.memory ptr >>= λ channel.
        query_channel chunks from_timestamp db.memory bounds.0 bounds.1 max_results fuel channel

    -- `unwrap_or` of `from_timestamp(...).unwrap()`, which panics even where the bound is given.
    abbrev pub default_to : ℤ → Option DateTime → Outcome DateTime
    default_to default bound = expect (from_timestamp default) >>= λ d. elim bound [
      | none ↦ returns d
      | some t ↦ returns t
    ]

    unfoldable pub query_data :
        ℕ → QueryBuilder ℕ DateTime verified → Db store → Outcome (Option (List (DateTime × F)))
    query_data fuel query db = to_raw query >>= λ raw. default_to (pos epoch) raw.3 >>= λ after.
        default_to (htime_to_unix (2 ^ 32 - 1)) raw.4 >>= λ before.
        qery_data_raw fuel raw.0 raw.1 after before
          (elim raw.2 [ none ↦ 2 ^ 64 - 1 | some max ↦ max ]) db
