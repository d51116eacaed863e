-- ===== src/Dispatch/Delivery.antt =====
-- What reaches the application of a station (haysel/src/dispatch/transport.rs over
-- haysel/squirrel/src/transport/server.rs).
use hayselnut.Common.{
  ℕ, ◌≡◌, ◌≢◌, ◌∙◌, refl, sym, ap, subst, List, [], ◌∷◌, ◌++◌, map, append_assoc, append-nil, none,
  some, returns,
}
use hayselnut.Squirrel.Packet.{Packet}
use hayselnut.Squirrel.Server.{
  ClientInterface, DispatchEvent, send, timed_out, received, handle, queue,
}
use hayselnut.Dispatch.{
  HandlerInstance, Event, data_recvd, req_send_pkt, answered, Ran, ran, errored, ran_panics, Bus,
}
use hayselnut.Dispatch.Transport.{
  TransportClient, dispatching, dispatch_missed, ident_appl, queue_data, miss, arrived,
  dispatch_events, handle_pkt,
}

-- Some handlers are live in a world. What is dispatched to a live one is handled and adds to its log of what it was
-- sent, and to no other live one's; those that are live stay so.
pub record IsUp {W : Type 0} (bus : Bus W) (log : HandlerInstance → W → List Event)
    (Live : W → HandlerInstance → Type 0) : Type 0 where
  pub dispatches :
      (target : HandlerInstance) (event : Event) (w : W)
      → Live w target
      → (w' : W) × (bus.dispatch target event w ≡ answered _ w')
        × (log target w' ≡ log target w ++ (event ∷ []))
        × ((other : HandlerInstance) → Live w other → other ≢ target → log other w' ≡ log other w)
        × ((h : HandlerInstance) → Live w h → Live w' h)

-- What comes to the client: packets, each at its time, and data to send.
pub data Step : Type 0 where
  pkt : ℕ → Packet → Step
  data_to_send : List ℕ → Step

abbrev pub step : {W : Type 0} → Bus W → Step → TransportClient → W → Ran TransportClient W
step bus (pkt now p) c w = handle_pkt bus now p c w
step bus (data_to_send bytes) c w = queue_data bus bytes c w

abbrev pub steps : {W : Type 0} → Bus W → List Step → TransportClient → W → Ran TransportClient W
steps bus [] c w = ran c w
steps bus (s ∷ ss) c w = elim (step bus s c w) [
  | ran c' w' ↦ steps bus ss c' w'
  | errored c' w' ↦ errored c' w'
  | ran_panics ↦ ran_panics
]

-- The connection by itself: the steps, what it is before them, its events and what it is then.
pub data Connected
    : List Step → ClientInterface → List DispatchEvent → ClientInterface → Type 0 where
  over : {inter : ClientInterface} → Connected [] inter [] inter
  queues :
      {ss : List Step} {inter inter' : ClientInterface} {evs : List DispatchEvent} (bytes : List ℕ)
      → Connected ss (queue bytes inter) evs inter'
      → Connected (data_to_send bytes ∷ ss) inter evs inter'
  handles :
      {ss : List Step} {inter inter' inter'' : ClientInterface} {first later : List DispatchEvent}
      (now : ℕ) (p : Packet)
      → handle inter now p ≡ returns (inter', first)
      → Connected ss inter' later inter''
      → Connected (pkt now p ∷ ss) inter (first ++ later) inter''

-- The data that was received, and the packets that are to be sent.
abbrev pub payloads : List DispatchEvent → List (List ℕ)
payloads [] = []
payloads (send p ∷ evs) = payloads evs
payloads (timed_out ∷ evs) = payloads evs
payloads (received bytes ∷ evs) = bytes ∷ payloads evs

abbrev pub packets : List DispatchEvent → List Packet
packets [] = []
packets (send p ∷ evs) = p ∷ packets evs
packets (timed_out ∷ evs) = packets evs
packets (received bytes ∷ evs) = packets evs

payloads-append : (xs ys : List DispatchEvent) → payloads (xs ++ ys) ≡ payloads xs ++ payloads ys
payloads-append [] ys = refl
payloads-append (send p ∷ xs) ys = payloads-append xs ys
payloads-append (timed_out ∷ xs) ys = payloads-append xs ys
payloads-append (received bytes ∷ xs) ys = ap (λ bs. bytes ∷ bs) (payloads-append xs ys)

packets-append : (xs ys : List DispatchEvent) → packets (xs ++ ys) ≡ packets xs ++ packets ys
packets-append [] ys = refl
packets-append (send p ∷ xs) ys = ap (λ ps. p ∷ ps) (packets-append xs ys)
packets-append (timed_out ∷ xs) ys = packets-append xs ys
packets-append (received bytes ∷ xs) ys = packets-append xs ys

map_over_append :
    {A B : Type 0} (f : A → B) (xs ys : List A) → map f (xs ++ ys) ≡ map f xs ++ map f ys
map_over_append f [] ys = refl
map_over_append f (x ∷ xs) ys = ap (λ zs. f x ∷ zs) (map_over_append f xs ys)

-- What the application and the controller were sent between two moments.
module _ {W : Type 0} (log : HandlerInstance → W → List Event) (app ctrl : HandlerInstance) where
  abbrev pub Between : W → W → List (List ℕ) → List Packet → Type 0
  Between w w' received_data sent_packets =
      (log app w' ≡ log app w ++ map data_recvd received_data)
      × (log ctrl w' ≡ log ctrl w ++ map req_send_pkt sent_packets)

-- Both are live.
abbrev pub Both :
    {W : Type 0} → (W → HandlerInstance → Type 0) → HandlerInstance → HandlerInstance → W → Type 0
Both Live app ctrl w = Live w app × Live w ctrl

-- The client before the application is known, and then.
abbrev pub waiting : HandlerInstance → ClientInterface → List (List ℕ) → TransportClient
waiting ctrl inter missed = record {
  ctrl = ctrl;
  ext = none;
  inter = inter;
  missed_events = missed;
}

abbrev pub in_touch : HandlerInstance → HandlerInstance → ClientInterface → TransportClient
in_touch ctrl app inter = record { ctrl = ctrl; ext = some app; inter = inter; missed_events = [] }

module _ {W : Type 0} (bus : Bus W) (log : HandlerInstance → W → List Event)
    (Live : W → HandlerInstance → Type 0) (up : IsUp bus log Live) (app ctrl : HandlerInstance)
    (apart : app ≢ ctrl) where
  nothing_yet : (w : W) → Between log app ctrl w w [] []
  nothing_yet w = (sym (append-nil (log app w)), sym (append-nil (log ctrl w)))

  then-Between :
      (w w' w'' : W) (ds ds' : List (List ℕ)) (ps ps' : List Packet)
      → Between log app ctrl w w' ds ps
      → Between log app ctrl w' w'' ds' ps'
      → Between log app ctrl w w'' (ds ++ ds') (ps ++ ps')
  then-Between w w' w'' ds ds' ps ps' (d, p) (d', p') = (
    d'
        ∙ (ap (λ l. l ++ map data_recvd ds') d
            ∙ (append_assoc (log app w) (map data_recvd ds) (map data_recvd ds')
                ∙ ap (λ l. log app w ++ l) (sym (map_over_append data_recvd ds ds')))),
    p'
        ∙ (ap (λ l. l ++ map req_send_pkt ps') p
            ∙ (append_assoc (log ctrl w) (map req_send_pkt ps) (map req_send_pkt ps')
                ∙ ap (λ l. log ctrl w ++ l) (sym (map_over_append req_send_pkt ps ps')))),
  )

  app_told :
      (bytes : List ℕ) (w : W)
      → Both Live app ctrl w
      → (w' : W) × (bus.dispatch app (data_recvd bytes) w ≡ answered _ w')
        × Both Live app ctrl w'
        × Between log app ctrl w w' (bytes ∷ []) []
  app_told bytes w both =
      let (w', e, told, others, stay) = up.dispatches app (data_recvd bytes) w both.0 in
      (
        w',
        e,
        (stay app both.0, stay ctrl both.1),
        (told, others ctrl both.1 (λ same. apart (sym same)) ∙ sym (append-nil (log ctrl w))),
      )

  ctrl_told :
      (p : Packet) (target : HandlerInstance) (w : W)
      → target ≡ ctrl
      → Both Live app ctrl w
      → (w' : W) × (bus.dispatch target (req_send_pkt p) w ≡ answered _ w')
        × Both Live app ctrl w'
        × Between log app ctrl w w' [] (p ∷ [])
  ctrl_told p target w this both =
      let (w', e, told, others, stay) = up.dispatches ctrl (req_send_pkt p) w both.1 in
      (
        w',
        ap (λ t. bus.dispatch t (req_send_pkt p) w) this ∙ e,
        (stay app both.0, stay ctrl both.1),
        (others app both.0 apart ∙ sym (append-nil (log app w)), told),
      )

  missed_told :
      (pkts : List (List ℕ)) (c : TransportClient) (w : W)
      → Both Live app ctrl w
      → (w' : W) × (dispatch_missed bus app pkts c w ≡ ran c w')
        × Both Live app ctrl w'
        × Between log app ctrl w w' pkts []
  unfolding dispatch_missed
  missed_told [] c w both = (w, refl, both, nothing_yet w)
  missed_told (bytes ∷ pkts) c w both =
      let (w', e, both', told) = app_told bytes w both in
      let (w'', e', both'', told') = missed_told pkts c w' both' in
      (
        w'',
        rw (e, dispatching) e',
        both'',
        then-Between w w' w'' (bytes ∷ []) pkts [] [] told told',
      )

  -- Before the application is known.
  events_missed :
      (evs : List DispatchEvent) (c : TransportClient) (w : W)
      → c.ctrl ≡ ctrl
      → c.ext ≡ none
      → Both Live app ctrl w
      → (w' : W) × (dispatch_events bus evs c w
          ≡ ran (record c { missed_events = c.missed_events ++ payloads evs }) w')
        × Both Live app ctrl w'
        × Between log app ctrl w w' [] (packets evs)
  unfolding dispatch_events
  events_missed [] c w this nobody both = (
    w,
    ap (λ m. ran (record c { missed_events = m }) w) (sym (append-nil c.missed_events)),
    both,
    nothing_yet w,
  )
  events_missed (timed_out ∷ evs) c w this nobody both = events_missed evs c w this nobody both
  events_missed (send p ∷ evs) c w this nobody both =
      let (w', e, both', told) = ctrl_told p c.ctrl w this both in
      let (w'', e', both'', told') = events_missed evs c w' this nobody both' in
      (
        w'',
        rw (e, dispatching, dispatch_events) e',
        both'',
        then-Between w w' w'' [] [] (p ∷ []) (packets evs) told told',
      )
  events_missed (received bytes ∷ evs) c w this nobody both =
      let (w', e, both', told) = events_missed evs (miss bytes c) w this nobody both in
      (
        w',
        ap (λ ext. arrived bus ext bytes c w (dispatch_events bus evs)) nobody
            ∙ (e
                ∙ ap (λ m. ran (record c { missed_events = m }) w')
                    (append_assoc c.missed_events (bytes ∷ []) (payloads evs))),
        both',
        told,
      )

  -- When it is known.
  events_told :
      (evs : List DispatchEvent) (c : TransportClient) (w : W)
      → c.ctrl ≡ ctrl
      → c.ext ≡ some app
      → Both Live app ctrl w
      → (w' : W) × (dispatch_events bus evs c w ≡ ran c w')
        × Both Live app ctrl w'
        × Between log app ctrl w w' (payloads evs) (packets evs)
  unfolding dispatch_events
  events_told [] c w this known both = (w, refl, both, nothing_yet w)
  events_told (timed_out ∷ evs) c w this known both = events_told evs c w this known both
  events_told (send p ∷ evs) c w this known both =
      let (w', e, both', told) = ctrl_told p c.ctrl w this both in
      let (w'', e', both'', told') = events_told evs c w' this known both' in
      (
        w'',
        rw (e, dispatching, dispatch_events) e',
        both'',
        then-Between w w' w'' [] (payloads evs) (p ∷ []) (packets evs) told told',
      )
  events_told (received bytes ∷ evs) c w this known both =
      let (w', e, both', told) = app_told bytes w both in
      let (w'', e', both'', told') = events_told evs c w' this known both' in
      (
        w'',
        ap (λ ext. arrived bus ext bytes c w (dispatch_events bus evs)) known
            ∙ rw (e, dispatching) e',
        both'',
        then-Between w w' w'' (bytes ∷ []) (payloads evs) [] (packets evs) told told',
      )

  steps_missed :
      {ss : List Step} {inter inter' : ClientInterface} {evs : List DispatchEvent}
      (missed : List (List ℕ)) (w : W)
      → Both Live app ctrl w
      → Connected ss inter evs inter'
      → (w' : W) × (steps bus ss (waiting ctrl inter missed) w
          ≡ ran (waiting ctrl inter' (missed ++ payloads evs)) w')
        × Both Live app ctrl w'
        × Between log app ctrl w w' [] (packets evs)
  unfolding handle_pkt
  steps_missed missed w both (over {inter}) =
      (w, ap (λ m. ran (waiting ctrl inter m) w) (sym (append-nil missed)), both, nothing_yet w)
  steps_missed missed w both (queues bytes later) = steps_missed missed w both later
  steps_missed missed w both
        (handles {ss} {inter} {inter'} {inter''} {first} {later} now p handled rest) =
      let (w', e, both', told) =
        events_missed first (waiting ctrl inter' missed) w refl refl both in
      let (w'', e', both'', told') = steps_missed (missed ++ payloads first) w' both' rest in
      (
        w'',
        rw (handled, steps)
            (rw (e, steps)
              (e'
                ∙ ap (λ m. ran (waiting ctrl inter'' m) w'')
                    (append_assoc missed (payloads first) (payloads later)
                      ∙ ap (λ l. missed ++ l) (sym (payloads-append first later))))),
        both'',
        subst (λ ps. Between log app ctrl w w'' [] ps) (sym (packets-append first later))
            (then-Between w w' w'' [] [] (packets first) (packets later) told told'),
      )

  steps_told :
      {ss : List Step} {inter inter' : ClientInterface} {evs : List DispatchEvent} (w : W)
      → Both Live app ctrl w
      → Connected ss inter evs inter'
      → (w' : W) × (steps bus ss (in_touch ctrl app inter) w ≡ ran (in_touch ctrl app inter') w')
        × Both Live app ctrl w'
        × Between log app ctrl w w' (payloads evs) (packets evs)
  unfolding handle_pkt
  steps_told w both over = (w, refl, both, nothing_yet w)
  steps_told w both (queues bytes later) = steps_told w both later
  steps_told w both (handles {ss} {inter} {inter'} {inter''} {first} {later} now p handled rest) =
      let (w', e, both', told) = events_told first (in_touch ctrl app inter') w refl refl both in
      let (w'', e', both'', told') = steps_told w' both' rest in
      (
        w'',
        rw (handled, steps) (rw (e, steps) e'),
        both'',
        subst (λ ds. Between log app ctrl w w'' ds (packets (first ++ later)))
            (sym (payloads-append first later))
            (subst (λ ps. Between log app ctrl w w'' (payloads first ++ payloads later) ps)
              (sym (packets-append first later))
              (then-Between w w' w'' (payloads first) (payloads later) (packets first)
                (packets later) told told')),
      )

  -- Over a bus on which what is dispatched to a live handler is handled, and live handlers stay so, a client whose
  -- application and controller are live is begun, takes what comes, each packet without a panic, is told of its
  -- application, and takes what comes then. The application is sent exactly the data that the connection
  -- receives, all, once and in order, also what came before it was known; the controller is sent exactly
  -- the packets that the connection sends, in their order.
  pub ident_appl-Between :
      {before after : List Step} {inter inter' inter'' : ClientInterface}
      {evs evs' : List DispatchEvent} (w : W)
      → Live w app
      → Live w ctrl
      → Connected before inter evs inter'
      → Connected after inter' evs' inter''
      → (c : TransportClient) × (w' : W) × (c' : TransportClient) × (w'' : W) × (w3 : W) × (steps
            bus before
            (waiting ctrl inter [])
            w
          ≡ ran c w')
        × (ident_appl bus app c w' ≡ ran c' w'')
        × (steps bus after c' w'' ≡ ran (in_touch ctrl app inter'') w3)
        × Between log app ctrl w w3 (payloads evs ++ payloads evs') (packets evs ++ packets evs')
  ident_appl-Between {evs = evs} {evs' = evs'} w live live' first later =
      let (w', e, both, told) = steps_missed [] w (live, live') first in
      let (w'', e', both', told') = missed_told (payloads evs) (in_touch ctrl app _) w' both in
      let (w3, e'', _, told'') = steps_told w'' both' later in
      (
        _,
        w',
        _,
        w'',
        w3,
        e,
        e',
        e'',
        then-Between w w'' w3 (payloads evs) (payloads evs') (packets evs) (packets evs')
            (subst (λ ps. Between log app ctrl w w'' (payloads evs) ps) (append-nil (packets evs))
              (then-Between w w' w'' [] (payloads evs) (packets evs) [] told told'))
            told'',
      )
