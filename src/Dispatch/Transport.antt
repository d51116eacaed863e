-- ===== src/Dispatch/Transport.antt =====
-- The client of one station's transport (haysel/src/dispatch/transport.rs).
use hayselnut.Common.{ℕ, List, [], ◌∷◌, ◌++◌, Option, none, some, returns, panics}
use hayselnut.Squirrel.Packet.{Packet}
use hayselnut.Squirrel.Server.{
  ClientInterface, DispatchEvent, send, timed_out, received, handle, queue, new,
}
use hayselnut.Dispatch.{
  HandlerInstance, Event, data_recvd, req_send_pkt, answered, dispatch_err, Ran, ran, errored,
  ran_panics, Bus,
}

pub record TransportClient : Type 0 where
  pub ctrl : HandlerInstance
  pub ext : Option HandlerInstance
  pub inter : ClientInterface
  pub missed_events : List (List ℕ)

-- `TransportClient::new`, at time `now`.
abbrev pub transport_client : ℕ → ℕ → HandlerInstance → TransportClient
transport_client now max_trans_t controller = record {
  ctrl = controller;
  ext = none;
  inter = new now max_trans_t;
  missed_events = [];
}

abbrev pub miss : List ℕ → TransportClient → TransportClient
miss pkt c = record c { missed_events = c.missed_events ++ (pkt ∷ []) }

module _ {W : Type 0} (bus : Bus W) where
  open bus use {dispatch}

  -- One dispatch of a method, and the rest of the method.
  abbrev pub dispatching : {C : Type 0} → HandlerInstance → Event → C → W → (W → Ran C W) → Ran C W
  dispatching target event c w rest = elim (dispatch target event w) [
    | dispatch_err w' ↦ errored c w'
    | answered _ w' ↦ rest w'
  ]

  unfoldable pub dispatch_missed :
      HandlerInstance → List (List ℕ) → TransportClient → W → Ran TransportClient W
  dispatch_missed app [] c w = ran c w
  dispatch_missed app (pkt ∷ pkts) c w =
      dispatching app (data_recvd pkt) c w (dispatch_missed app pkts c)

  -- All missed events are taken off, also where a dispatch fails.
  abbrev pub ident_appl : HandlerInstance → TransportClient → W → Ran TransportClient W
  ident_appl app c w =
      dispatch_missed app c.missed_events (record c { ext = some app; missed_events = [] }) w

  abbrev pub queue_data : List ℕ → TransportClient → W → Ran TransportClient W
  queue_data bytes c w = ran (record c { inter = queue bytes c.inter }) w

  -- Data that was received, for the application or for later, and the rest of the method.
  abbrev pub arrived :
      Option HandlerInstance
      → List ℕ
      → TransportClient
      → W
      → (TransportClient → W → Ran TransportClient W)
      → Ran TransportClient W
  arrived (some ext) pkt c w rest = dispatching ext (data_recvd pkt) c w (rest c)
  arrived none pkt c w rest = rest (miss pkt c) w

  unfoldable pub dispatch_events : List DispatchEvent → TransportClient → W → Ran TransportClient W
  dispatch_events [] c w = ran c w
  dispatch_events (timed_out ∷ evs) c w = dispatch_events evs c w
  dispatch_events (send pkt ∷ evs) c w =
      dispatching c.ctrl (req_send_pkt pkt) c w (dispatch_events evs c)
  dispatch_events (received pkt ∷ evs) c w = arrived c.ext pkt c w (dispatch_events evs)

  unfoldable pub handle_pkt : ℕ → Packet → TransportClient → W → Ran TransportClient W
  handle_pkt now pkt c w = elim (handle c.inter now pkt) [
    | panics ↦ ran_panics
    | returns (inter, evs) ↦ dispatch_events evs (record c { inter = inter }) w
  ]
