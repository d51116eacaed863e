-- ===== src/Tsdb/Bus.antt =====
-- The database's thread and the handler that passes the bus's events on to it
-- (haysel/src/tsdb3/bus.rs, haysel/src/tsdb3/bus/rt.rs).
pub mod Restart
use hayselnut.Common.{
  ℕ, Bool, true, false, List, [], ◌∷◌, ◌++◌, Option, none, some, Outcome, returns, panics, ◌>>=◌,
  if◌then◌else◌, map,
}
use hayselnut.Tsdb.Time.{ℤ}
use hayselnut.Tsdb.Query.{QueryBuilder, verified}
use hayselnut.Tsdb.Database.{Store, Db, open_db, insert_station, insert_channels}
use hayselnut.Tsdb.Database.Readings.{insert_data, query_data}

-- A reading as it comes from a station. What an event carries is not looked at.
pub data Received (F : Type 0) : Type 0 where
  float : F → Received F
  event : Received F

pub record Record (F DateTime : Type 0) : Type 0 where
  pub recorded_at : DateTime
  pub recorded_by : ℕ
  pub readings : List (ℕ × Received F)

-- Of the known stations and channels only the ids are used, in the order in which the maps are visited.
pub data Msg (F DateTime : Type 0) : Type 0 where
  query : QueryBuilder ℕ DateTime verified → Msg F DateTime
  ensure_exists : List ℕ → List ℕ → Msg F DateTime
  new_station : ℕ → Msg F DateTime
  new_channel : ℕ → ℕ → Msg F DateTime
  record_data : Record F DateTime → Msg F DateTime

module _ {F : Type 0} (store : Store F) {DateTime : Type 0} (timestamp_of : DateTime → ℤ)
    (from_timestamp : ℤ → Option DateTime) where
  unfoldable pub ensure_stations : List ℕ → List ℕ → Db store → Outcome (Db store)
  ensure_stations [] channels db = returns db
  ensure_stations (id ∷ stations) channels db =
      let rest = λ (db' : Db store). ensure_stations stations channels db' in
      insert_station store id db >>= λ db'.
      insert_channels store id channels db' >>= λ db''. rest db''

  -- An event is skipped.
  unfoldable pub record_readings :
      ℕ → DateTime → List (ℕ × Received F) → Db store → Outcome (Db store)
  record_readings by_station time [] db = returns db
  record_readings by_station time ((ch, val) ∷ readings) db =
      let rest = λ (db' : Db store). record_readings by_station time readings db' in
      elim val [
        | float reading ↦
            insert_data store timestamp_of from_timestamp by_station ch time reading db >>= rest
        | event ↦ rest db
      ]

  -- What a query is answered; `none` inside where the fuel runs out.
  abbrev pub Answer : Type 0
  Answer = Option (List (DateTime × F))

  unfoldable pub run_msg : ℕ → Msg F DateTime → Db store → Outcome (List Answer × Db store)
  run_msg fuel (query params) db =
      query_data store timestamp_of from_timestamp fuel params db >>= λ resp.
      returns (resp ∷ [], db)
  run_msg fuel (ensure_exists stations channels) db =
      ensure_stations stations channels db >>= λ db'. returns ([], db')
  run_msg fuel (new_station sid) db = insert_station store sid db >>= λ db'. returns ([], db')
  run_msg fuel (new_channel sid cid) db =
      insert_channels store sid (cid ∷ []) db >>= λ db'. returns ([], db')
  run_msg fuel (record_data r) db =
      record_readings r.recorded_by r.recorded_at r.readings db >>= λ db'. returns ([], db')

  -- The messages until the queue is closed; a panic ends the thread.
  unfoldable pub runner : ℕ → List (Msg F DateTime) → Db store → Outcome (List Answer × Db store)
  runner fuel [] db = returns ([], db)
  runner fuel (msg ∷ queue) db =
      let rest = λ (db' : Db store). runner fuel queue db' in
      run_msg fuel msg db >>= λ (answers, db').
      rest db' >>= λ (later, db''). returns (answers ++ later, db'')

-- What has been sent to the thread, and whether it is gone. A queue that is full is waited for.
pub record Comm (F DateTime : Type 0) : Type 0 where
  pub queue : List (Msg F DateTime)
  pub closed : Bool

pub data Sent (A F DateTime : Type 0) : Type 0 where
  sent : A → Comm F DateTime → Sent A F DateTime
  runtime_task_closed : Comm F DateTime → Sent A F DateTime

-- The events that the handler registers for, but for queries.
pub data BusEvent (F DateTime : Type 0) : Type 0 where
  meta_new_station : ℕ → BusEvent F DateTime
  meta_station_assoc_channel : ℕ → ℕ → BusEvent F DateTime
  weather_data_received : Record F DateTime → BusEvent F DateTime

module _ {F DateTime : Type 0} where
  abbrev pub send_async : Msg F DateTime → Comm F DateTime → Sent (Unit {0}) F DateTime
  send_async msg comm =
      if comm.closed
      then runtime_task_closed comm
      else sent _ (record comm { queue = comm.queue ++ (msg ∷ []) })

  abbrev pub received : BusEvent F DateTime → Comm F DateTime → Sent (Unit {0}) F DateTime
  received (meta_new_station sid) comm = send_async (new_station sid) comm
  received (meta_station_assoc_channel sid cid) comm = send_async (new_channel sid cid) comm
  received (weather_data_received r) comm = send_async (record_data r) comm

  -- `TStopDBus3::query`. There is no answer where the thread drops the sender.
  abbrev pub ask :
      {A : Type 0}
      → QueryBuilder ℕ DateTime verified
      → Option A
      → Comm F DateTime
      → Sent A F DateTime
  ask params answer comm = elim (send_async (query params) comm) [
    | runtime_task_closed comm' ↦ runtime_task_closed comm'
    | sent _ comm' ↦ elim answer [ none ↦ runtime_task_closed comm' | some a ↦ sent a comm' ]
  ]

  -- `TStopDBus3::ensure_exists`
  abbrev pub send_ensure_exists : List ℕ → List ℕ → Comm F DateTime → Outcome (Comm F DateTime)
  send_ensure_exists stations channels comm =
      elim (send_async (ensure_exists stations channels) comm) [
        | sent _ comm' ↦ returns comm'
        | runtime_task_closed comm' ↦ panics
      ]

-- What main does with the database: it opens it, starts the thread, and sends the registry's stations and
-- channels.
unfoldable pub start :
    {F : Type 0} (store : Store F) (DateTime : Type 0)
    → List ℕ
    → List ℕ
    → Db store
    → Outcome (Db store × Comm F DateTime)
start store DateTime stations channels db = open_db store db >>= λ db'.
    send_ensure_exists stations channels (record { queue = []; closed = false }) >>= λ comm.
    returns (db', comm)
