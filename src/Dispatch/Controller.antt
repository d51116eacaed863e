-- ===== src/Dispatch/Controller.antt =====
-- The handler of the socket (haysel/src/dispatch.rs). Spawning handlers, the socket and the background task that
-- receives are parameters.
use hayselnut.Common.{ℕ, Option, none, some}
use hayselnut.Squirrel.Packet.{Packet}
use hayselnut.Registry.Maps.{HashMap, get, insert}
use hayselnut.Registry.Data.{uuid-HasSame}
use hayselnut.Dispatch.{
  HandlerInstance, Event, ident_app, controller_received, answered, dispatch_err, Ran, ran, errored,
  ran_panics, Bus,
}

-- An address is a number.
pub record Controller : Type 0 where
  pub active_clients : HashMap ℕ HandlerInstance
  pub active_clients_inv : HashMap HandlerInstance ℕ

pub record Host (W : Type 0) : Type 0 where
  pub bus : Bus W
  pub spawn_trans_cli : ℕ → W → HandlerInstance × W
  pub spawn_appl_cli : ℕ → HandlerInstance → W → HandlerInstance × W
  pub recv_next : W → W
  pub shutdown : W → W
  -- `none` where the packet cannot be sent.
  pub send_to : Packet → ℕ → W → Option W

-- What `recv_next_packet` gave.
pub data Incoming : Type 0 where
  packet_from : ℕ → Packet → Incoming
  no_packet recv_failed : Incoming

abbrev pub insert_active_client : ℕ → HandlerInstance → Controller → Controller
insert_active_client addr instance c = record {
  active_clients = insert c.active_clients addr instance;
  active_clients_inv = insert c.active_clients_inv instance addr;
}

module _ {W : Type 0} (host : Host W) where
  open host use {bus, spawn_trans_cli, spawn_appl_cli, recv_next, shutdown, send_to}

  -- `dispatch` and `unwrap`, and the rest of the method.
  abbrev pub dispatch_unwrap :
      HandlerInstance → Event → W → (W → Ran Controller W) → Ran Controller W
  dispatch_unwrap target event w rest = elim (bus.dispatch target event w) [
    | dispatch_err w' ↦ ran_panics
    | answered _ w' ↦ rest w'
  ]

  abbrev pub pass_on : HandlerInstance → Packet → Controller → W → Ran Controller W
  pass_on target p c w =
      dispatch_unwrap target (controller_received p) w (λ w'. ran c (recv_next w'))

  -- Handlers for an address that is new.
  abbrev pub welcome : ℕ → Packet → Controller → W → Ran Controller W
  welcome addr p c w =
      let (trans_cli, w') = spawn_trans_cli addr w in
      let (appl_cli, w'') = spawn_appl_cli addr trans_cli w' in
      dispatch_unwrap trans_cli (ident_app appl_cli) w''
        (pass_on trans_cli p (insert_active_client addr trans_cli c))

  abbrev pub target_of : Option HandlerInstance → ℕ → Packet → Controller → W → Ran Controller W
  target_of (some target) addr p c w = pass_on target p c w
  target_of none addr p c w = welcome addr p c w

  -- A handler that is shut down does not come back from this; it ends as an error would.
  unfoldable pub handle_receved : Incoming → Controller → W → Ran Controller W
  handle_receved (packet_from addr p) c w = target_of (get c.active_clients addr) addr p c w
  handle_receved no_packet c w = ran c (recv_next w)
  handle_receved recv_failed c w = errored c (shutdown w)

  abbrev pub send_to_addr : Option ℕ → Packet → Controller → W → Ran Controller W
  send_to_addr none p c w = ran c w
  send_to_addr (some addr) p c w = elim (send_to p addr w) [
    | none ↦ ran_panics
    | some w' ↦ ran c w'
  ]

  -- The source is the handler that the event is from.
  unfoldable pub send_packet : HandlerInstance → Packet → Controller → W → Ran Controller W
  send_packet source p c w = send_to_addr (get c.active_clients_inv source) p c w
