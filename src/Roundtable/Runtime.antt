-- ===== src/Roundtable/Runtime.antt =====
-- The runtime of one handler (haysel/roundtable/src/handler/runtime.rs). The handler's code is a parameter: a method
-- runs to its end, or to a shutdown, from which it does not come back.
use hayselnut.Common.{
  ℕ, ◌==◌, List, [], ◌∷◌, Bool, true, false, ◌&&◌, Option, none, some, if◌then◌else◌,
}
use hayselnut.Registry.Maps.{HashMap, get}
use hayselnut.Registry.Data.{uuid-HasSame}
use hayselnut.Roundtable.{
  MethodId, HandlerInstance, Target, instance_, type_, any, Response, resp_ok, response_err,
  Responder, verify, respond, Request,
}

-- How the code of a handler `H` in the world `W` ends.
pub data Called (R E H W : Type 0) : Type 0 where
  finished : R → H → W → Called R E H W
  failed : E → H → W → Called R E H W
  shuts_down : H → W → Called R E H W

pub data Reported (H W : Type 0) : Type 0 where
  reported : H → W → Reported H W
  report_shuts_down : H → W → Reported H W

-- A method is given its arguments and the source of the event.
pub record MethodRaw (A R E H W : Type 0) : Type 0 where
  pub handler_desc : ℕ
  pub handler_func : A → HandlerInstance → H → W → Called R E H W

pub record Handler (A R E H W : Type 0) : Type 0 where
  pub methods : H → HashMap ℕ (MethodRaw A R E H W)
  pub describe : H → ℕ
  pub init : H → W → Called (Unit {0}) E H W
  pub on_error : E → H → W → Reported H W

pub record Rt (A R E H W : Type 0) : Type 0 where
  pub hdl : H
  pub inst : HandlerInstance
  pub methods : HashMap ℕ (MethodRaw A R E H W)
  pub message_source : Option HandlerInstance
  pub shutdown : Bool

abbrev pub msg_target_match : HandlerInstance → Target → Bool
msg_target_match this any = true
msg_target_match this (type_ typ) = typ.id == this.typ.id
msg_target_match this (instance_ inst) =
    (inst.discriminant == this.discriminant) && (inst.typ.id == this.typ.id)

-- `put` and, where there was no value, `signal`; only where an instance was targeted.
abbrev pub put_response : {R : Type 0} → Target → Responder R → Response R → Responder R
put_response (instance_ inst) (respond none signalled) resp = respond (some resp) true
put_response target responder resp = responder

abbrev pub signal_verify : {R : Type 0} → Responder R → Responder R
signal_verify (verify signalled) = verify true
signal_verify responder = responder

module _ {A R E H W : Type 0} (handler : Handler A R E H W) where
  open handler use {describe, init, on_error}

  abbrev pub update_metadata : Rt A R E H W → Rt A R E H W
  update_metadata rt = record rt {
    methods = handler.methods rt.hdl;
    inst = record (rt.inst) { discriminant_desc = describe rt.hdl };
  }

  abbrev pub described_as : Option (MethodRaw A R E H W) → ℕ → Bool
  described_as none desc = false
  described_as (some method_val) desc = desc == method_val.handler_desc

  abbrev pub msg_method_validate : Rt A R E H W → MethodId → Bool
  msg_method_validate rt method = described_as (get rt.methods method.id) method.id_desc

  -- What a select of the method and of the shutdown flag leaves: the response, and whether the flag for an
  -- error is set.
  pub record Selected : Type 0 where
    pub response : Response R
    pub flag_err : Bool
    pub rt : Rt A R E H W
    pub world : W

  abbrev pub reported_as : Rt A R E H W → Reported H W → Selected
  reported_as rt (reported hdl w) = record {
    response = response_err;
    flag_err = true;
    rt = record rt { hdl = hdl };
    world = w;
  }
  reported_as rt (report_shuts_down hdl w) = record {
    response = response_err;
    flag_err = true;
    rt = record rt { hdl = hdl; shutdown = true };
    world = w;
  }

  abbrev pub ended_as : Rt A R E H W → Called R E H W → Selected
  ended_as rt (finished resp hdl w) = record {
    response = resp_ok resp;
    flag_err = false;
    rt = record rt { hdl = hdl };
    world = w;
  }
  ended_as rt (failed err hdl w) = reported_as rt (on_error err hdl w)
  ended_as rt (shuts_down hdl w) = record {
    response = response_err;
    flag_err = true;
    rt = record rt { hdl = hdl; shutdown = true };
    world = w;
  }

  -- The flag is never reset: where it is set, and the select looks at it first, the method is not run.
  abbrev pub select_call : Bool → (H → W → Called R E H W) → Rt A R E H W → W → Selected
  select_call flag_first call rt w =
      if rt.shutdown && flag_first
      then record { response = response_err; flag_err = true; rt = rt; world = w }
      else ended_as rt (call rt.hdl w)

  -- What handling a message leaves; the function always returns Ok.
  pub record Handled : Type 0 where
    pub rt : Rt A R E H W
    pub responder : Responder R
    pub world : W

  abbrev pub after_select : Request A → Responder R → Selected → Handled
  after_select rq responder s = record {
    rt = record (s.rt) { message_source = none };
    responder = put_response rq.target (signal_verify responder) s.response;
    world = s.world;
  }

  abbrev pub call_method :
      Option (MethodRaw A R E H W) → Bool → Request A → Responder R → Rt A R E H W → W → Handled
  call_method none flag_first rq responder rt w = record {
    rt = rt;
    responder = responder;
    world = w;
  }
  call_method (some method_val) flag_first rq responder rt w = after_select rq responder (
      select_call flag_first (method_val.handler_func rq.arguments rq.source)
        (record rt { message_source = some rq.source }) w)

  -- `get(&method.id).unwrap()` finds what the validation found.
  unfoldable pub handle_message : Bool → Request A → Responder R → Rt A R E H W → W → Handled
  handle_message flag_first rq responder rt w =
      if msg_method_validate rt rq.method
      then call_method (get rt.methods rq.method.id) flag_first rq responder rt w
      else record { rt = rt; responder = responder; world = w }

  -- How the loop of `run` goes on after one of its arms.
  pub data Turn : Type 0 where
    continues : Rt A R E H W → W → Turn
    exits : Rt A R E H W → W → Turn

  -- A message that passed the filter, a change of the metadata, and the result of a background task with its
  -- method.
  pub data Arm : Type 0 where
    message : Bool → Request A → Responder R → Arm
    metadata : Arm
    background : Bool → A → ℕ → Arm
    background_panicked : Arm

  abbrev pub after_background : Selected → Turn
  after_background s =
      if s.flag_err
      then exits s.rt s.world
      else continues (record (s.rt) { message_source = none }) s.world

  abbrev pub call_background : Option (MethodRaw A R E H W) → Bool → A → Rt A R E H W → W → Turn
  call_background none flag_first result rt w = continues rt w
  call_background (some method_val) flag_first result rt w = after_background (
      select_call flag_first (method_val.handler_func result rt.inst)
        (record rt { message_source = some rt.inst }) w)

  unfoldable pub turn : Arm → Rt A R E H W → W → Turn
  turn (message flag_first rq responder) rt w =
      let handled = handle_message flag_first rq responder rt w in
      continues handled.rt handled.world
  turn metadata rt w = continues (update_metadata rt) w
  turn (background flag_first result method_id) rt w =
      call_background (get rt.methods method_id) flag_first result rt w
  turn background_panicked rt w = continues rt w

  -- The loop, over the arms that it takes; `exits` is with the arms that are left.
  unfoldable pub run_loop : List Arm → Rt A R E H W → W → Turn × List Arm
  run_loop [] rt w = (continues rt w, [])
  run_loop (arm ∷ arms) rt w =
      let rest = λ (rt' : Rt A R E H W) (w' : W). run_loop arms rt' w' in
      elim (turn arm rt w) [ exits rt' w' ↦ (exits rt' w', arms) | continues rt' w' ↦ rest rt' w' ]

  abbrev pub after_init : List Arm → Rt A R E H W → Called (Unit {0}) E H W → Turn × List Arm
  after_init arms rt (finished _ hdl w) = run_loop arms (record rt { hdl = hdl }) w
  after_init arms rt (shuts_down hdl w) = (exits (record rt { hdl = hdl; shutdown = true }) w, arms)
  after_init arms rt (failed err hdl w) = elim (on_error err hdl w) [
    | reported hdl' w' ↦ (exits (record rt { hdl = hdl' }) w', arms)
    | report_shuts_down hdl' w' ↦ (exits (record rt { hdl = hdl'; shutdown = true }) w', arms)
  ]

  -- `run`, of a runtime whose flag is not set.
  abbrev pub run : List Arm → Rt A R E H W → W → Turn × List Arm
  run arms rt w = after_init arms rt (init rt.hdl w)
