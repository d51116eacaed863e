-- ===== src/Ipc.antt =====
-- The connections to IPC clients (haysel/src/ipc.rs, haysel/src/misc/take.rs; the messages are those of
-- haysel/mycelium/src/lib.rs). The sockets, the database across the bus and the clock are parameters.
pub mod Reading
pub mod Listener
mod Tests
use hayselnut.Common.{ℕ, ◌^◌, Bool, refl, ◌>>=◌, List, Option, none, some, Outcome, returns, panics}
use hayselnut.Registry.Maps.{HashMap}
use hayselnut.Registry.Data.{Uuid, Channel, StationInfo}
use hayselnut.Tsdb.Query.{
  QueryBuilder, Verification, before_after_after, query_params, verified, initial,
  with_station_stage, has_bolth_stage, flag_after_t, or_bits, new, with_station, with_channel,
  with_after, verify,
}
use hayselnut.Tsdb.Bus.{Received, Record}
use hayselnut.Dispatch.{Asked, answered, dispatch_err}
use hayselnut.Mycelium.{Socket, Format, IpcError, Ends, gives, fails, ipc_send}

pub data IpcMsgKind (F DateTime : Type 0) : Type 0 where
  haiii : HashMap Uuid StationInfo → HashMap Uuid Channel → IpcMsgKind F DateTime
  bye client_disconnect : IpcMsgKind F DateTime
  fresh_hot_data : Uuid → DateTime → HashMap Uuid (Received F) → IpcMsgKind F DateTime
  new_station : Uuid → IpcMsgKind F DateTime
  new_channel : Uuid → Channel → IpcMsgKind F DateTime
  station_new_channel : Uuid → Uuid → IpcMsgKind F DateTime
  query_last_hour_response : List (DateTime × F) → DateTime → IpcMsgKind F DateTime
  query_last_hour_of : Uuid → Uuid → IpcMsgKind F DateTime

-- `Take`
abbrev pub take : {A : Type 0} → Option A → Outcome (A × Option A)
take none = panics
take (some a) = returns (a, none)

-- The half of the socket to read from is in its slot, or the task that reads in the background has it.
pub record Connection (Half : Type 0) : Type 0 where
  pub read : Option Half
  pub reading : Option Half
  pub init_known : Option (HashMap Uuid StationInfo × HashMap Uuid Channel)

abbrev pub bg_read : {Half : Type 0} → Half → Connection Half → Connection Half
bg_read half c = record c { reading = some half }

pub data ConnectionErr (E : Type 0) : Type 0 where
  ipc : IpcError E → ConnectionErr E
  dispatch : ConnectionErr E

-- What a background task has read.
pub data Read (F DateTime E : Type 0) : Type 0 where
  read_msg : IpcMsgKind F DateTime → Read F DateTime E
  read_failed : IpcError E → Read F DateTime E

-- How a method ends.
pub data Method (E C W : Type 0) : Type 0 where
  goes_on : C → W → Method E C W
  errs : ConnectionErr E → C → W → Method E C W
  method_panics : Method E C W

-- What the handler has beside it.
pub record Peer (F DateTime E W : Type 0) : Type 0 where
  pub socket : Socket E W
  pub format : Format (IpcMsgKind F DateTime)
  pub query_db : QueryBuilder Uuid DateTime verified → W → Asked (List (DateTime × F)) W
  pub now : W → DateTime
  pub hour_before : DateTime → DateTime
  pub earlier : DateTime → DateTime → Bool

module _ {F DateTime E W : Type 0} (peer : Peer F DateTime E W) where
  open peer use {hour_before, earlier}

  unfoldable pub last_hour_query : Uuid → Uuid → DateTime → Outcome (Verification Uuid DateTime)
  last_hour_query station channel from_time = do
    b1 ← with_station initial refl station (new {Uuid = Uuid} {DateTime = DateTime})
    b2 ← with_channel with_station_stage refl channel b1
    b3 ← with_after has_bolth_stage refl (hour_before from_time) b2
    returns (verify earlier (or_bits 64 has_bolth_stage flag_after_t) refl b3)

pub data Told (F DateTime : Type 0) : Type 0 where
  meta_new_station : Uuid → Told F DateTime
  meta_new_channel : Uuid → Channel → Told F DateTime
  meta_station_assoc_channel : Uuid → Uuid → Channel → Told F DateTime
  weather_data_received : Record F DateTime → Told F DateTime

abbrev pub message_of : {F DateTime : Type 0} → Told F DateTime → IpcMsgKind F DateTime
message_of (meta_new_station id) = new_station id
message_of (meta_new_channel id ch) = new_channel id ch
message_of (meta_station_assoc_channel station channel info) = station_new_channel station channel
message_of (weather_data_received r) = fresh_hot_data r.recorded_by r.recorded_at r.readings

module _ {F DateTime E W Half : Type 0} (peer : Peer F DateTime E W) where
  open peer use {socket, format, query_db, now}

  -- `send`, and the rest of the method.
  abbrev pub sending :
      IpcMsgKind F DateTime
      → Connection Half
      → W
      → (W → Method E (Connection Half) W)
      → Method E (Connection Half) W
  sending kind c w rest = elim (ipc_send socket format kind w) [
    | gives _ w' ↦ rest w'
    | fails e w' ↦ errs (ipc e) c w'
    | Ends.panics ↦ method_panics
  ]

  -- The same with `let _ =` before it.
  abbrev pub trying :
      IpcMsgKind F DateTime → W → (W → Method E (Connection Half) W) → Method E (Connection Half) W
  trying kind w rest = elim (ipc_send socket format kind w) [
    | gives _ w' ↦ rest w'
    | fails e w' ↦ rest w'
    | Ends.panics ↦ method_panics
  ]

  abbrev pub read_again : Connection Half → W → Method E (Connection Half) W
  read_again c w = elim (take c.read) [
    | panics ↦ method_panics
    | returns (half, slot) ↦ goes_on (bg_read half (record c { read = slot })) w
  ]

  abbrev pub answer :
      QueryBuilder Uuid DateTime verified
      → DateTime
      → Connection Half
      → W
      → Method E (Connection Half) W
  answer query from_time c w = elim (query_db query w) [
    | dispatch_err w' ↦ errs dispatch c w'
    | answered readings w' ↦
        sending (query_last_hour_response readings from_time) c w' (read_again c)
  ]

  abbrev pub answer_query :
      Uuid → Uuid → DateTime → Connection Half → W → Method E (Connection Half) W
  answer_query station channel from_time c w =
      elim (last_hour_query peer station channel from_time) [
        | panics ↦ method_panics
        | returns before_after_after ↦ method_panics
        | returns (query_params query) ↦ answer query from_time c w
      ]

  abbrev pub of_message : IpcMsgKind F DateTime → Connection Half → W → Method E (Connection Half) W
  of_message client_disconnect c w = trying bye w (goes_on c)
  of_message (query_last_hour_of station channel) c w = answer_query station channel (now w) c w
  of_message _ c w = read_again c w

  -- The half is put back first.
  unfoldable pub handle_read :
      Half → Read F DateTime E → Connection Half → W → Method E (Connection Half) W
  handle_read half (read_msg kind) c w = of_message kind (record c { read = some half }) w
  handle_read half (read_failed e) c w = errs (ipc e) (record c { read = some half }) w

  -- `init`
  unfoldable pub start : Connection Half → W → Method E (Connection Half) W
  start c w = elim (take c.read) [
    | panics ↦ method_panics
    | returns (half, slot) ↦
        let reads = bg_read half (record c { read = slot }) in
        elim (take c.init_known) [
          | panics ↦ method_panics
          | returns ((stations, channels), empty) ↦
              let told = record reads { init_known = empty } in
              sending (haiii stations channels) told w (goes_on told)
        ]
  ]

  abbrev pub tell : Told F DateTime → Connection Half → W → Method E (Connection Half) W
  tell event c w = sending (message_of event) c w (goes_on c)
