-- ===== src/Roundtable/Query.antt =====
-- A query reaches one handler (haysel/roundtable/src/handler/interface.rs, dispatch.rs and runtime.rs).
use hayselnut.Common.{
  ◌≡◌, ◌≢◌, ◌⊎◌, inl, inr, arith, ◌||◌, Outcome, All_imp, refl, ap, List, [], ◌∷◌, ◌++◌, Bool, true,
  false, ◌&&◌, ◌==◌, Option, none, some, returns, All, if◌then◌else◌,
}
use hayselnut.Registry.Maps.{get}
use hayselnut.Registry.Data.{uuid-HasSame}
use hayselnut.Roundtable.{
  MethodId, HandlerInstance, instance_, Response, resp_ok, response_err, Responder, respond,
  Request,
}
use hayselnut.Roundtable.Runtime.{
  Called, finished, failed, shuts_down, Reported, reported, report_shuts_down, Handled, Handler,
  MethodRaw, Rt, msg_target_match, handle_message, select_call, ended_as, after_select,
}
use hayselnut.Roundtable.Interface.{
  is_empty, cons_runtime, DispatchResult, dispatched, dispatch_failed, handler_error, no_response,
  expected, awaited, woken, send_all, query_as, bus_dispatch_event,
}

-- An instance is told by its number and the number of its type.
abbrev pub IsSame : HandlerInstance → HandlerInstance → Type 0
IsSame i j = (i.discriminant ≡ j.discriminant) × (i.typ.id ≡ j.typ.id)

abbrev pub IsOther : HandlerInstance → HandlerInstance → Type 0
IsOther i j = (i.discriminant ≢ j.discriminant) ⊎ (i.typ.id ≢ j.typ.id)

-- None of these runtimes is of the instance.
abbrev pub AreOthers : {A R E H W : Type 0} → HandlerInstance → List (Rt A R E H W) → Type 0
AreOthers target rts = All (λ rt. IsOther target rt.inst) rts

same_matches :
    (inst target : HandlerInstance)
    → IsSame target inst
    → msg_target_match inst (instance_ target) ≡ true
same_matches inst target (number, typ) = ground (arith, number, typ)

other_differs :
    (inst target : HandlerInstance)
    → IsOther target inst
    → msg_target_match inst (instance_ target) ≡ false
other_differs inst target (inl number) = ground (arith, number)
other_differs inst target (inr typ) = ground (arith, typ)

Reported-cases :
    {H W : Type 0} (o : Reported H W)
    → ((hdl : H) × (w : W) × (o ≡ reported hdl w))
      ⊎ ((hdl : H) × (w : W) × (o ≡ report_shuts_down hdl w))
Reported-cases (reported hdl w) = inl (hdl, w, refl)
Reported-cases (report_shuts_down hdl w) = inr (hdl, w, refl)

-- How a query is answered, by what the method came to, if in time, and what it leaves of the handler: its state, and
-- whether it has shut down. An error is the handler's to report.
abbrev pub after_report : {R H W : Type 0} → Reported H W → DispatchResult R × H × Bool × W
after_report (reported hdl w) = (dispatch_failed handler_error, hdl, false, w)
after_report (report_shuts_down hdl w) = (dispatch_failed handler_error, hdl, true, w)

abbrev pub comes_to :
    {R E H W : Type 0}
    → (E → H → W → Reported H W)
    → Called R E H W
    → DispatchResult R × H × Bool × W
comes_to report (finished r hdl w) = (dispatched r, hdl, false, w)
comes_to report (shuts_down hdl w) = (dispatch_failed handler_error, hdl, true, w)
comes_to report (failed e hdl w) = after_report (report e hdl w)

-- A response that was put, and waited for.
timely :
    {R : Type 0} (within : Bool) (value : Option (Response R)) (known : DispatchResult R)
    → expected (woken value) ≡ returns known
    → expected (if within then woken value else dispatch_failed no_response)
      ≡ returns (if within then known else dispatch_failed no_response)
timely true value known h = h
timely false value known h = refl

module _ {A R E H W : Type 0} (handler : Handler A R E H W) (flag_first : Bool) where
  others_take_nothing :
      (rq : Request A) (responder : Responder R) (rts : List (Rt A R E H W)) (w : W)
      → All (λ rt. msg_target_match rt.inst rq.target ≡ false) rts
      → send_all handler flag_first rq responder rts w
        ≡ record { runtimes = rts; responder = responder; world = w }
  unfolding send_all
  others_take_nothing rq responder [] w others = refl
  others_take_nothing rq responder (rt ∷ rts) w (here, rest) =
      rw (here, send_all) (ap (cons_runtime rt) (others_take_nothing rq responder rts w rest))

  send_all-append :
      (rq : Request A) (responder : Responder R) (before after : List (Rt A R E H W))
      (rt : Rt A R E H W) (w : W)
      → All (λ rt. msg_target_match rt.inst rq.target ≡ false) before
      → msg_target_match rt.inst rq.target ≡ true
      → All (λ rt. msg_target_match rt.inst rq.target ≡ false) after
      → send_all handler flag_first rq responder (before ++ (rt ∷ after)) w ≡ (
          let handled = handle_message handler flag_first rq responder rt w in
          record {
            runtimes = before ++ (handled.rt ∷ after);
            responder = handled.responder;
            world = handled.world;
          })
  unfolding send_all
  send_all-append rq responder [] after rt w _ this others =
      rw (this, send_all)
        (ap (cons_runtime (handle_message handler flag_first rq responder rt w).rt)
          (others_take_nothing rq _ after _ others))
  send_all-append rq responder (b ∷ before) after rt w (here, rest) this others =
      rw (here, send_all)
        (ap (cons_runtime b) (send_all-append rq responder before after rt w rest this others))

  cons_is_not_empty :
      (before after : List (Rt A R E H W)) (rt : Rt A R E H W)
      → is_empty (before ++ (rt ∷ after)) ≡ false
  cons_is_not_empty [] after rt = refl
  cons_is_not_empty (b ∷ before) after rt = refl

  -- While the flag for a shutdown is not set, the method is run.
  pub select_call_runs :
      (call : H → W → Called R E H W) (rt : Rt A R E H W) (w : W)
      → rt.shutdown ≡ false
      → select_call handler flag_first call rt w ≡ ended_as handler rt (call rt.hdl w)
  select_call_runs call rt w running =
      ap
        (λ b.
          if b && flag_first
          then record { response = response_err; flag_err = true; rt = rt; world = w }
          else ended_as handler rt (call rt.hdl w))
        running

  handle_message_lem :
      (rq : Request A) (responder : Responder R) (rt : Rt A R E H W) (m : MethodRaw A R E H W)
      (w : W)
      → get rt.methods rq.method.id ≡ some m
      → rq.method.id_desc ≡ m.handler_desc
      → rt.shutdown ≡ false
      → handle_message handler flag_first rq responder rt w
        ≡ after_select handler rq responder (
            ended_as handler
              (record rt { message_source = some rq.source })
              (m.handler_func rq.arguments rq.source rt.hdl w))
  unfolding handle_message
  handle_message_lem rq responder rt m w found described running =
      let same : (rq.method.id_desc == m.handler_desc) ≡ true = ground (arith, described) in
      rw (found, handle_message)
        (rw (same, handle_message)
          (ap (after_select handler rq responder) (
            select_call_runs (m.handler_func rq.arguments rq.source)
              (record rt { message_source = some rq.source }) w running)))

  module _ (taken : W → Bool) (in_time : W → W → Bool) where
    -- What a query that has been handled so gives.
    abbrev handled_query :
        List (Rt A R E H W)
        → List (Rt A R E H W)
        → W
        → Handled handler
        → Outcome (DispatchResult R) × List (Rt A R E H W) × W
    handled_query before after w h = (
      expected (awaited (taken w) (in_time w h.world) h.responder),
      before ++ (h.rt ∷ after),
      h.world,
    )

    abbrev pub queried :
        List (Rt A R E H W)
        → List (Rt A R E H W)
        → Rt A R E H W
        → W
        → DispatchResult R × H × Bool × W
        → Outcome (DispatchResult R) × List (Rt A R E H W) × W
    queried before after rt w (result, hdl, stops, w') = (
      returns (if in_time w w' then result else dispatch_failed no_response),
      before
          ++ (record rt { hdl = hdl; message_source = none; shutdown = stops || rt.shutdown }
              ∷ after),
      w',
    )

    handled_queried :
        (before after : List (Rt A R E H W)) (rt : Rt A R E H W) (source target : HandlerInstance)
        (method : MethodId) (args : A) (called : Called R E H W) (w : W)
        → rt.shutdown ≡ false
        → handled_query before after w (
            after_select handler
              (record {
                source = source;
                target = instance_ target;
                method = method;
                arguments = args;
              })
              (respond none false)
              (ended_as handler (record rt { message_source = some source }) called))
          ≡ queried before after rt w (comes_to handler.on_error called)
    handled_queried before after rt source target method args (finished r hdl w') w running =
        rw running (
          ap
            (λ (o : Outcome (DispatchResult R)). (
              o,
              before ++ (record rt { hdl = hdl; message_source = none; shutdown = false } ∷ after),
              w',
            ))
            (timely (in_time w w') (some (resp_ok r)) _ refl))
    handled_queried before after rt source target method args (shuts_down hdl w') w running =
        ap
          (λ (o : Outcome (DispatchResult R)). (
            o,
            before ++ (record rt { hdl = hdl; message_source = none; shutdown = true } ∷ after),
            w',
          ))
          (timely (in_time w w') (some response_err) _ refl)
    handled_queried before after rt source target method args (failed e hdl w') w running =
        elim (Reported-cases (handler.on_error e hdl w')) [
          | inl (hdl', w'', told) ↦ rw told (
              rw running (
                ap
                  (λ (o : Outcome (DispatchResult R)). (
                    o,
                    before
                        ++ (record rt { hdl = hdl'; message_source = none; shutdown = false }
                            ∷ after),
                    w'',
                  ))
                  (timely (in_time w w'') (some response_err) _ refl)))
          | inr (hdl', w'', told) ↦ rw told (
              ap
                (λ (o : Outcome (DispatchResult R)). (
                  o,
                  before
                      ++ (record rt { hdl = hdl'; message_source = none; shutdown = true } ∷ after),
                  w'',
                ))
                (timely (in_time w w'') (some response_err) _ refl))
        ]

    -- A query of an instance that exactly one of the runtimes is of, where the method of its handler has the description
    -- that the query has and nothing has shut the runtime down: the method is run once, with the arguments and the
    -- source of the query, and no other handler is. Within 15 seconds the query is answered with the method's result,
    -- or with an error if the method has failed, which the handler then reports, or has shut the handler down; after
    -- them with NoResponse, though the method has been run.
    pub query_as_lem :
        (before after : List (Rt A R E H W)) (rt : Rt A R E H W) (source target : HandlerInstance)
        (method : MethodId) (args : A) (m : MethodRaw A R E H W) (w : W)
        → AreOthers target before
        → AreOthers target after
        → IsSame target rt.inst
        → get rt.methods method.id ≡ some m
        → method.id_desc ≡ m.handler_desc
        → rt.shutdown ≡ false
        → query_as handler flag_first taken in_time source target method args
            (before ++ (rt ∷ after))
            w
          ≡ queried before after rt w
              (comes_to handler.on_error (m.handler_func args source rt.hdl w))
    unfolding bus_dispatch_event
    query_as_lem before after rt source target method args m w others others' this found described
          running =
        let rq : Request A = record {
          source = source;
          target = instance_ target;
          method = method;
          arguments = args;
        } in
        rw
          (
            send_all-append rq (respond none false) before after rt w
                (All_imp _ _ before (λ rt. other_differs rt.inst target) others)
                (same_matches rt.inst target this)
                (All_imp _ _ after (λ rt. other_differs rt.inst target) others'),
            query_as,
          )
          (rw (handle_message_lem rq (respond none false) rt m w found described running, query_as)
            (rw (cons_is_not_empty before after rt) (
              handled_queried before after rt source target method args
                (m.handler_func args source rt.hdl w) w running)))
