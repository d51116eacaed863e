-- ===== src/Dispatch/Application.antt =====
-- The client of one station's application (haysel/src/dispatch/application.rs) and the packets that it reads
-- (haysel/squirrel/src/api.rs). What it asks of the registry and of the bus, the clock, and the form of a packet are
-- parameters.
use hayselnut.Common.{ℕ, List, [], ◌∷◌, Option, none, some}
use hayselnut.Registry.Maps.{HashMap}
use hayselnut.Registry.Data.{Uuid, ChannelName, Channel}
use hayselnut.Registry.{OnConnect}
use hayselnut.Tsdb.Bus.{Received, Record}
use hayselnut.Dispatch.{
  HandlerInstance, queue_data, Asked, answered, dispatch_err, Ran, ran, errored, ran_panics, Bus,
}
use hayselnut.Dispatch.Transport.{dispatching}

pub data PacketKind (F : Type 0) : Type 0 where
  connect : OnConnect → PacketKind F
  channel_mappings : HashMap ChannelName Uuid → PacketKind F
  some_data : HashMap Uuid (Received F) → PacketKind F

-- What is only stored or logged of a station is left out.
pub record AppClient : Type 0 where
  pub transport : HandlerInstance
  pub meta_station_id : Option Uuid

pub record Services (F DateTime W : Type 0) : Type 0 where
  pub bus : Bus W
  pub process_connect : OnConnect → W → Asked (HashMap ChannelName Uuid) W
  pub query_channel : Uuid → W → Asked (Option Channel) W
  pub announce : Record F DateTime → W → Asked (Unit {0}) W
  pub now : W → DateTime
  pub from_slice : List ℕ → Option (PacketKind F)
  pub to_vec_named : HashMap ChannelName Uuid → Option (List ℕ)

module _ {F DateTime W : Type 0} (services : Services F DateTime W) where
  open services use {bus, process_connect, query_channel, announce, now, from_slice, to_vec_named}

  unfoldable pub on_connect : OnConnect → AppClient → W → Ran AppClient W
  on_connect d c w = elim (process_connect d w) [
    | dispatch_err w' ↦ errored c w'
    | answered mappings w' ↦ elim (to_vec_named mappings) [
      | none ↦ ran_panics
      | some resp ↦
          dispatching bus c.transport (queue_data resp) c w'
            (ran (record c { meta_station_id = some d.station_id }))
    ]
  ]

  -- Each channel is asked for, to be logged; then the rest of the method.
  unfoldable pub query_each :
      HashMap Uuid (Received F) → AppClient → W → (W → Ran AppClient W) → Ran AppClient W
  query_each [] c w rest = rest w
  query_each ((chid, dat) ∷ readings) c w rest =
      let more = λ (w' : W). query_each readings c w' rest in
      elim (query_channel chid w) [ dispatch_err w' ↦ errored c w' | answered ch w' ↦ more w' ]

  -- The end of `on_data`: a record of the station, if it is known.
  abbrev pub record_of :
      Option Uuid → DateTime → HashMap Uuid (Received F) → AppClient → W → Ran AppClient W
  record_of none received_at readings c w = ran c w
  record_of (some recorded_by) received_at readings c w =
      elim (announce
        (record { recorded_at = received_at; recorded_by = recorded_by; readings = readings }) w) [
          | dispatch_err w' ↦ errored c w'
          | answered _ w' ↦ ran c w'
        ]

  unfoldable pub on_data : HashMap Uuid (Received F) → AppClient → W → Ran AppClient W
  on_data readings c w = query_each readings c w (record_of c.meta_station_id (now w) readings c)

  abbrev pub of_kind : PacketKind F → AppClient → W → Ran AppClient W
  of_kind (connect d) c w = on_connect d c w
  of_kind (some_data readings) c w = on_data readings c w
  of_kind (channel_mappings mappings) c w = ran c w

  unfoldable pub app_received : List ℕ → AppClient → W → Ran AppClient W
  app_received bytes c w = elim (from_slice bytes) [ none ↦ ran c w | some kind ↦ of_kind kind c w ]
