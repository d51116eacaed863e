-- ===== src/Dispatch/Unknown.antt =====
-- Data of a channel that the server does not know, from the station to the database's thread
-- (haysel/src/dispatch/application.rs, haysel/src/tsdb3/bus.rs, haysel/src/tsdb3/bus/rt.rs, haysel/src/tsdb3/mod.rs).
use hayselnut.Common.{
  ℕ, ◌≡◌, ◌∙◌, refl, ap, Bool, false, List, [], ◌∷◌, ◌++◌, Option, none, some, returns, panics,
  bind_panics,
}
use hayselnut.Registry.Maps.{HashMap}
use hayselnut.Registry.Data.{Uuid, Channel}
use hayselnut.Tsdb.Time.{ℤ}
use hayselnut.Tsdb.Database.{Store, Db, assert, contains, get_stations, get_channels_for}
use hayselnut.Tsdb.Database.Readings.{assert_known, insert_data}
use hayselnut.Tsdb.Bus.{
  Received, Record, float, Msg, record_data, Comm, sent, weather_data_received, received,
  record_readings, run_msg, runner,
}
use hayselnut.Dispatch.{answered, ran}
use hayselnut.Dispatch.Application.{
  AppClient, some_data, Services, query_each, record_of, on_data, app_received,
}

-- In the worlds in which the registry is live, it answers and stays so, and what is announced can be told.
pub record IsServing {F DateTime W : Type 0} (services : Services F DateTime W)
    (announced : W → List (Record F DateTime)) (IsLive : W → Type 0) : Type 0 where
  pub asks :
      (id : Uuid) (w : W)
      → IsLive w
      → (ch : Option Channel) × (w' : W) × (services.query_channel id w ≡ answered ch w')
        × IsLive w'
        × (announced w' ≡ announced w)
  pub tells :
      (r : Record F DateTime) (w : W)
      → IsLive w
      → (w' : W) × (services.announce r w ≡ answered _ w')
        × (announced w' ≡ announced w ++ (r ∷ []))

module _ {F DateTime W : Type 0} (services : Services F DateTime W)
    (announced : W → List (Record F DateTime)) (IsLive : W → Type 0)
    (serving : IsServing services announced IsLive) where
  query_each_lem :
      (readings : HashMap Uuid (Received F)) (c : AppClient) (w : W)
      → IsLive w
      → (w' : W) × ((rest : W → _) → query_each services readings c w rest ≡ rest w')
        × IsLive w'
        × (announced w' ≡ announced w)
  unfolding query_each
  query_each_lem [] c w live = (w, λ rest. refl, live, refl)
  query_each_lem ((id, dat) ∷ readings) c w live =
      let (ch, w', e, live', same) = serving.asks id w live in
      let (w'', gone_on, live'', same') = query_each_lem readings c w' live' in
      (w'', λ rest. rw (e, query_each) (gone_on rest), live'', same' ∙ same)

module _ {F : Type 0} (store : Store F) {DateTime : Type 0} (timestamp_of : DateTime → ℤ)
    (from_timestamp : ℤ → Option DateTime) where
  -- Whether a channel is among those that a station has in the database.
  abbrev pub lists : Option (List ℕ) → ℕ → Bool
  lists channels id = elim channels [ none ↦ false | some chs ↦ contains id chs ]

  insert_data_unknown :
      (station channel : ℕ) (time : DateTime) (reading : F) (db : Db store) (chs : Option (List ℕ))
      → get_channels_for store db station ≡ returns chs
      → lists chs channel ≡ false
      → insert_data store timestamp_of from_timestamp station channel time reading db ≡ panics
  unfolding insert_data assert_known
  insert_data_unknown station channel time reading db chs listed unknown =
      let refused : assert_known store station channel db ≡ panics =
        bind_panics (assert db.init) _ (λ _. bind_panics (get_stations store db) _ (λ stations.
          bind_panics (assert (contains station stations)) _ (λ _. rw listed (rw unknown refl)))) in
      rw (refused, insert_data) refl

  -- Where the registry is live, so that it answers every query, and a record can be announced, data whose first entry is a
  -- number, for a channel that the database does not have for the client's station, is announced once, with
  -- its station, the time, and all its entries. The database's handler, whose queue is empty and whose thread
  -- is not gone, passes the record on, and then the thread panics, whatever comes behind it.
  pub app_received-panics :
      {W : Type 0} (services : Services F DateTime W) (announced : W → List (Record F DateTime))
      (IsLive : W → Type 0)
      → IsServing services announced IsLive
      → (bytes : List ℕ) (id : Uuid) (v : F) (rest : HashMap Uuid (Received F)) (station : Uuid)
        (c : AppClient) (w : W) (db : Db store) (chs : Option (List ℕ))
      → IsLive w
      → services.from_slice bytes ≡ some (some_data ((id, float v) ∷ rest))
      → c.meta_station_id ≡ some station
      → get_channels_for store db station ≡ returns chs
      → lists chs id ≡ false
      → (r : Record F DateTime) × (w' : W) × (comm : Comm F DateTime) × (app_received services bytes
            c w
          ≡ ran c w')
        × (r.recorded_by ≡ station)
        × (r.recorded_at ≡ services.now w)
        × (r.readings ≡ ((id, float v) ∷ rest))
        × (announced w' ≡ announced w ++ (r ∷ []))
        × (received (weather_data_received r) (record { queue = []; closed = false }) ≡ sent _ comm)
        × ((fuel : ℕ) (later : List (Msg F DateTime))
            → runner store timestamp_of from_timestamp fuel (comm.queue ++ later) db ≡ panics)
  unfolding app_received on_data runner run_msg record_readings
  app_received-panics services announced IsLive serving bytes id v rest station c w db chs live form
        known listed unknown =
      let readings = (id, float v) ∷ rest in
      let r : Record F DateTime = record {
        recorded_at = services.now w;
        recorded_by = station;
        readings = readings;
      } in
      let (w', asked, live', same) =
        query_each_lem services announced IsLive serving readings c w live in
      let (w'', told, added) = serving.tells r w' live' in
      (
        r,
        w'',
        record { queue = record_data r ∷ []; closed = false },
        rw (form, app_received)
            (asked (record_of services c.meta_station_id (services.now w) readings c)
              ∙ (ap (λ by_station. record_of services by_station (services.now w) readings c w')
                    known
                  ∙ rw (told, record_of) refl)),
        refl,
        refl,
        refl,
        added ∙ ap (λ l. l ++ (r ∷ [])) same,
        refl,
        λ fuel later.
            rw (insert_data_unknown station id (services.now w) v db chs listed unknown) refl,
      )
