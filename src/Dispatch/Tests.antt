-- ===== src/Dispatch/Tests.antt =====
-- A bus that is up, whose world is the list of what was dispatched, and a station that begins a transmission.
use hayselnut.Dispatch.Controller.{Controller, Host}
use hayselnut.Registry.Data.{uuid-HasSame}
use hayselnut.Common.{
  ◌||◌, Bool, true, ltb, ap, ℕ, ◌+◌, ◌≡◌, ◌≢◌, refl, sym, List, [], ◌∷◌, ◌++◌, ◌==◌, eq_of_==,
  if◌then◌else◌, Bool-cases, inl, inr, some, arith,
}
use hayselnut.Squirrel.Packet.{Packet, tx, confirm, complete, next_uid}
use hayselnut.Squirrel.Server.Receiving.{tx_begun, tx_done, handle-complete, handle-tx}
use hayselnut.Squirrel.Server.{
  ClientInterface, DispatchEvent, send, received, queue, cmd_packet, receiving,
}
use hayselnut.Dispatch.{dispatch_err, HandlerInstance, Event, answered, ran, Bus}
use hayselnut.Dispatch.Transport.{TransportClient, ident_appl}
use hayselnut.Dispatch.Delivery.{
  Between, in_touch, waiting, IsUp, pkt, data_to_send, steps, Connected, over, queues, handles,
  payloads, packets, ident_appl-Between,
}

-- Only the handlers 2 and 4 have a runtime.
abbrev has_runtime : HandlerInstance → Bool
has_runtime h = (h == 2) || (h == 4)

abbrev sent_bus : Bus (List (HandlerInstance × Event))
sent_bus = record {
  dispatch = λ target event w.
      if has_runtime target then answered _ (w ++ ((target, event) ∷ [])) else dispatch_err w;
}

abbrev log_of : HandlerInstance → List (HandlerInstance × Event) → List Event
log_of h [] = []
log_of h ((target, event) ∷ w) = let rest = log_of h w in if target == h then event ∷ rest else rest

log_of-own :
    (h : HandlerInstance) (event : Event) (w : List (HandlerInstance × Event))
    → log_of h (w ++ ((h, event) ∷ [])) ≡ log_of h w ++ (event ∷ [])
log_of-own h event [] = ground arith
log_of-own h event ((target, e) ∷ w) = elim (Bool-cases (target == h)) [
  | inl this ↦ rw this (ap (λ l. e ∷ l) (log_of-own h event w))
  | inr other ↦ rw other (log_of-own h event w)
]

log_of-other :
    (h other : HandlerInstance) (event : Event) (w : List (HandlerInstance × Event))
    → other ≢ h
    → log_of other (w ++ ((h, event) ∷ [])) ≡ log_of other w
log_of-other h other event [] apart = elim (Bool-cases (h == other)) [
  | inl same ↦ absurd (apart (sym (eq_of_== h other same)))
  | inr e ↦ rw e refl
]
log_of-other h other event ((target, e) ∷ w) apart = elim (Bool-cases (target == other)) [
  | inl this ↦ rw this (ap (λ l. e ∷ l) (log_of-other h other event w apart))
  | inr that ↦ rw that (log_of-other h other event w apart)
]

sent_bus-IsUp : IsUp sent_bus log_of (λ w h. has_runtime h ≡ true)
sent_bus-IsUp = record {
  dispatches = λ target event w live. (
    w ++ ((target, event) ∷ []),
    rw live refl,
    log_of-own target event w,
    λ other live' apart. log_of-other target other event w apart,
    λ h live'. live',
  );
}

-- A connection that has received two bytes.
abbrev two_received : ClientInterface
two_received = record {
  state = receiving;
  respond_to = 7;
  last_sent = 1;
  uid_gen = 1;
  transaction_time = 0;
  max_transaction_time = 1000;
  recev_buf = 5 ∷ (6 ∷ []);
  send_queue = [];
  send_buf = [];
  last_sent_send_buf = [];
}

abbrev end_events : List DispatchEvent
end_events = received (5 ∷ (6 ∷ [])) ∷ (send (cmd_packet (next_uid 1) 8 confirm) ∷ [])

abbrev next_events : List DispatchEvent
next_events = send (cmd_packet (next_uid (next_uid 1)) 11 confirm) ∷ []

at_end :
    Connected
      (pkt 5 (cmd_packet 8 1 complete) ∷ [])
      two_received
      end_events
      (tx_done two_received 8)
at_end =
    handles 5 (cmd_packet 8 1 complete) (handle-complete two_received 8 5 refl (omega arith)) over

abbrev begun : ClientInterface
begun = tx_begun (tx_done two_received 8) 11 9

next_begun :
    Connected
      (pkt 9 (cmd_packet 11 0 tx) ∷ (data_to_send (3 ∷ []) ∷ []))
      (tx_done two_received 8)
      next_events
      (queue (3 ∷ []) begun)
next_begun =
    handles 9 (cmd_packet 11 0 tx) (handle-tx (tx_done two_received 8) 11 9 (inr (inl refl)))
      (queues (3 ∷ []) over)

ident_appl-Between_example :
    (c : TransportClient) × (w' : List (HandlerInstance × Event)) × (c' : TransportClient)
    × (w'' : List (HandlerInstance × Event)) × (w3 : List (HandlerInstance × Event)) × (steps
          sent_bus
          (pkt 5 (cmd_packet 8 1 complete) ∷ [])
          (waiting 2 two_received [])
          []
        ≡ ran c w')
    × (ident_appl sent_bus 4 c w' ≡ ran c' w'')
    × (steps sent_bus (pkt 9 (cmd_packet 11 0 tx) ∷ (data_to_send (3 ∷ []) ∷ [])) c' w''
        ≡ ran (in_touch 2 4 (queue (3 ∷ []) begun)) w3)
    × Between log_of 4 2 [] w3
        (payloads end_events ++ payloads next_events)
        (packets end_events ++ packets next_events)
ident_appl-Between_example =
    ident_appl-Between sent_bus log_of (λ w h. has_runtime h ≡ true) sent_bus-IsUp 4 2
      (λ e. omega arith) [] refl refl at_end next_begun

-- A host whose instances are numbered; the world has the next number, and those below it have runtimes.
abbrev numbered_host : Host (ℕ × List (HandlerInstance × Event))
numbered_host = record {
  bus = record {
    dispatch = λ target event (n, w).
        if ltb target n then answered _ (n, w ++ ((target, event) ∷ [])) else dispatch_err (n, w);
  };
  spawn_trans_cli = λ addr (n, w). (n, (n + 1, w));
  spawn_appl_cli = λ addr trans (n, w). (n, (n + 1, w));
  recv_next = λ w. w;
  shutdown = λ w. w;
  send_to = λ p addr w. some w;
}

abbrev one_client : Controller
one_client = record { active_clients = (80, 5) ∷ []; active_clients_inv = (5, 80) ∷ [] }
