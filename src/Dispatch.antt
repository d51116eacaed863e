-- ===== src/Dispatch.antt =====
-- The weather stations' clients on the bus (haysel/src/dispatch.rs, haysel/src/dispatch). A handler instance is a
-- number; the bus is a parameter, with what its operations give and how they leave the world.
pub mod Transport
pub mod Delivery
pub mod Controller
pub mod Paired
pub mod Application
pub mod Unknown
mod Tests
use hayselnut.Common.{ℕ, List}
use hayselnut.Squirrel.Packet.{Packet}

abbrev pub HandlerInstance : Type 0
HandlerInstance = ℕ

-- The events that are for one handler.
pub data Event : Type 0 where
  queue_data data_recvd : List ℕ → Event
  req_send_pkt controller_received : Packet → Event
  ident_app : HandlerInstance → Event

-- How an operation of the bus ends.
pub data Asked (A W : Type 0) : Type 0 where
  answered : A → W → Asked A W
  dispatch_err : W → Asked A W

-- How a method of the handler `C` ends.
pub data Ran (C W : Type 0) : Type 0 where
  ran : C → W → Ran C W
  errored : C → W → Ran C W
  ran_panics : Ran C W

-- `dispatch` of an event to one handler.
pub record Bus (W : Type 0) : Type 0 where
  pub dispatch : HandlerInstance → Event → W → Asked (Unit {0}) W
