-- ===== src/Roundtable/Interface.antt =====
-- What is asked of the bus (haysel/roundtable/src/handler/dispatch.rs, interface.rs). The runtimes take a message one
-- after the other. The wait times out where nobody signals the waker, or not within 15 seconds: `taken` says of the
-- world in which a message is sent whether it is taken within them, on which the handler signals that it has it, and
-- `in_time` of two worlds whether the second one, in which the handler has answered, is within them.
use hayselnut.Common.{
  List, [], ◌∷◌, Bool, true, false, ◌&&◌, ◌||◌, Option, none, some, Outcome, returns, panics,
  if◌then◌else◌,
}
use hayselnut.Roundtable.{
  MethodId, HandlerInstance, Target, instance_, type_, any, Response, resp_ok, response_err,
  Responder, no_verify, verify, respond, Request,
}
use hayselnut.Roundtable.Runtime.{Handler, Rt, msg_target_match, handle_message}

pub data DispatchErr : Type 0 where
  no_response null_response handler_error : DispatchErr

pub data DispatchResult (B : Type 0) : Type 0 where
  dispatched : B → DispatchResult B
  dispatch_failed : DispatchErr → DispatchResult B

-- The runtimes, the responder of a message, and the world.
pub record Bus (A R E H W : Type 0) : Type 0 where
  pub runtimes : List (Rt A R E H W)
  pub responder : Responder R
  pub world : W

abbrev pub cons_runtime : {A R E H W : Type 0} → Rt A R E H W → Bus A R E H W → Bus A R E H W
cons_runtime rt b = record b { runtimes = rt ∷ b.runtimes }

abbrev pub is_empty : {B : Type 0} → List B → Bool
is_empty [] = true
is_empty (x ∷ xs) = false

abbrev pub responder_for : {R : Type 0} → Target → Bool → Bool → Responder R
responder_for (instance_ inst) want_response want_verification =
    if want_response
    then respond none false
    else if want_verification
    then verify false
    else no_verify
responder_for (type_ typ) want_response want_verification = no_verify
responder_for any want_response want_verification = no_verify

abbrev pub woken : {R : Type 0} → Option (Response R) → DispatchResult (Option R)
woken none = dispatch_failed null_response
woken (some (resp_ok ret)) = dispatched (some ret)
woken (some response_err) = dispatch_failed handler_error

-- The end of `bus_dispatch_event`, once the wait is over.
abbrev pub awaited : {R : Type 0} → Bool → Bool → Responder R → DispatchResult (Option R)
awaited taken within no_verify = dispatched none
awaited taken within (verify signalled) =
    if signalled && taken then dispatched none else dispatch_failed no_response
awaited taken within (respond value signalled) =
    if signalled && within then woken value else dispatch_failed no_response

-- No response where one was expected is unreachable.
abbrev pub expected : {R : Type 0} → DispatchResult (Option R) → Outcome (DispatchResult R)
expected (dispatch_failed err) = returns (dispatch_failed err)
expected (dispatched none) = panics
expected (dispatched (some ret)) = returns (dispatched ret)

module _ {A R E H W : Type 0} (handler : Handler A R E H W) (flag_first : Bool) where
  -- The task before a runtime that filters what is for it, and the runtime.
  abbrev pub take_message :
      Request A → Responder R → Rt A R E H W → W → Rt A R E H W × Responder R × W
  take_message rq responder rt w =
      let handled = handle_message handler flag_first rq responder rt w in
      if msg_target_match rt.inst rq.target
      then (handled.rt, handled.responder, handled.world)
      else (rt, responder, w)

  unfoldable pub send_all : Request A → Responder R → List (Rt A R E H W) → W → Bus A R E H W
  send_all rq responder [] w = record { runtimes = []; responder = responder; world = w }
  send_all rq responder (rt ∷ rts) w =
      let (rt', responder', w') = take_message rq responder rt w in
      cons_runtime rt' (send_all rq responder' rts w')

module _ {A R E H W : Type 0} (handler : Handler A R E H W) (flag_first : Bool) (taken : W → Bool)
    (in_time : W → W → Bool) where
  unfoldable pub bus_dispatch_event :
      Request A
      → Bool
      → Bool
      → List (Rt A R E H W)
      → W
      → DispatchResult (Option R) × List (Rt A R E H W) × W
  bus_dispatch_event rq want_response want_verification rts w =
      let b =
        send_all handler flag_first rq (responder_for rq.target want_response want_verification) rts
          w in
      if is_empty rts && (want_response || want_verification)
      then (dispatch_failed no_response, rts, w)
      else (awaited (taken w) (in_time w b.world) b.responder, b.runtimes, b.world)

  -- The first parts of `announce_as`, `dispatch_as` and `query_as`.
  abbrev pub announce_as :
      HandlerInstance
      → Target
      → MethodId
      → A
      → List (Rt A R E H W)
      → W
      → DispatchResult (Option R) × List (Rt A R E H W) × W
  announce_as source target method args rts w =
      bus_dispatch_event
        (record { source = source; target = target; method = method; arguments = args }) false false
        rts w

  abbrev pub dispatch_as :
      HandlerInstance
      → HandlerInstance
      → MethodId
      → A
      → List (Rt A R E H W)
      → W
      → DispatchResult (Option R) × List (Rt A R E H W) × W
  dispatch_as source target method args rts w =
      bus_dispatch_event
        (record { source = source; target = instance_ target; method = method; arguments = args })
        false true rts w

  abbrev pub query_as :
      HandlerInstance
      → HandlerInstance
      → MethodId
      → A
      → List (Rt A R E H W)
      → W
      → Outcome (DispatchResult R) × List (Rt A R E H W) × W
  query_as source target method args rts w =
      let (result, rts', w') =
        bus_dispatch_event
          (record { source = source; target = instance_ target; method = method; arguments = args })
          true true rts w in
      (expected result, rts', w')
