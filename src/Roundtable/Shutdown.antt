-- ===== src/Roundtable/Shutdown.antt =====
-- A handler that shuts down (haysel/roundtable/src/handler/runtime.rs).
use hayselnut.Common.{ℕ, ◌≡◌, ◌∙◌, refl, ap, List, ◌∷◌, Bool, true, false, ◌==◌, Option, none, some}
use hayselnut.Registry.Maps.{get}
use hayselnut.Registry.Data.{uuid-HasSame}
use hayselnut.Roundtable.{HandlerInstance, response_err, Responder, Request}
use hayselnut.Roundtable.Runtime.{
  shuts_down, Handler, MethodRaw, Rt, handle_message, ended_as, after_select, call_background,
  after_background, continues, exits, Arm, message, background, turn, run_loop, Handled,
  put_response, signal_verify,
}
use hayselnut.Roundtable.Query.{select_call_runs}

module _ {A R E H W : Type 0} (handler : Handler A R E H W) where
  abbrev pub shut : Rt A R E H W → H → Option HandlerInstance → Rt A R E H W
  shut rt hdl source = record rt { hdl = hdl; shutdown = true; message_source = source }

  message_shuts_down :
      (flag_first : Bool) (rq : Request A) (responder : Responder R) (rt : Rt A R E H W)
      (m : MethodRaw A R E H W) (hdl : H) (w w' : W)
      → get rt.methods rq.method.id ≡ some m
      → (rq.method.id_desc == m.handler_desc) ≡ true
      → rt.shutdown ≡ false
      → m.handler_func rq.arguments rq.source rt.hdl w ≡ shuts_down hdl w'
      → turn handler (message flag_first rq responder) rt w ≡ continues (shut rt hdl none) w'
  unfolding turn handle_message
  message_shuts_down flag_first rq responder rt m hdl w w' found described running ends =
      let sourced : Rt A R E H W = record rt { message_source = some rq.source } in
      let selected =
        select_call_runs handler flag_first (m.handler_func rq.arguments rq.source) sourced w
          running
        ∙ ap (ended_as handler sourced) ends in
      let handled : handle_message handler flag_first rq responder rt w ≡ record {
        rt = shut rt hdl none;
        responder = put_response rq.target (signal_verify responder) response_err;
        world = w';
      } =
        rw (found, handle_message)
          (rw (described, handle_message) (ap (after_select handler rq responder) selected)) in
      ap (λ (h : Handled handler). continues h.rt h.world) handled

  background_shuts_down :
      (flag_first : Bool) (result : A) (id : ℕ) (rt : Rt A R E H W) (m : MethodRaw A R E H W)
      (hdl : H) (w w' : W)
      → get rt.methods id ≡ some m
      → rt.shutdown ≡ false
      → m.handler_func result rt.inst rt.hdl w ≡ shuts_down hdl w'
      → turn handler (background flag_first result id) rt w ≡ exits (shut rt hdl (some rt.inst)) w'
  unfolding turn
  background_shuts_down flag_first result id rt m hdl w w' found running ends =
      let sourced : Rt A R E H W = record rt { message_source = some rt.inst } in
      ap (λ found. call_background handler found flag_first result rt w) found
      ∙ ap (after_background handler) (
          select_call_runs handler flag_first (m.handler_func result rt.inst) sourced w running
          ∙ ap (ended_as handler sourced) ends)

  -- Where a method shuts its handler down, whoever it is called for, the loop of a runtime that nothing has
  -- shut down yet ends if the method is called with the result of a background task; if it is called by a
  -- message, the loop goes on to what comes next, with the flag set.
  pub run_loop-shuts_down :
      (flag_first : Bool) (rq : Request A) (responder : Responder R) (rt : Rt A R E H W)
      (m : MethodRaw A R E H W) (hdl : H) (w w' : W) (arms : List (Arm handler))
      → get rt.methods rq.method.id ≡ some m
      → (rq.method.id_desc == m.handler_desc) ≡ true
      → rt.shutdown ≡ false
      → ((source : HandlerInstance)
          → m.handler_func rq.arguments source rt.hdl w ≡ shuts_down hdl w')
      → (run_loop handler (background flag_first rq.arguments rq.method.id ∷ arms) rt w
          ≡ (exits (shut rt hdl (some rt.inst)) w', arms))
        × (run_loop handler (message flag_first rq responder ∷ arms) rt w
            ≡ run_loop handler arms (shut rt hdl none) w')
  unfolding run_loop
  run_loop-shuts_down flag_first rq responder rt m hdl w w' arms found described running ends = (
    rw
        (
          background_shuts_down flag_first rq.arguments rq.method.id rt m hdl w w' found running
              (ends rt.inst),
          run_loop,
        )
        refl,
    rw
        (
          message_shuts_down flag_first rq responder rt m hdl w w' found described running
              (ends rq.source),
          run_loop,
        )
        refl,
  )
