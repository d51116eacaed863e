-- ===== src/Roundtable/Tests.antt =====
-- Two handlers that count, of one type.
use hayselnut.Common.{
  ℕ, ◌+◌, ◌≡◌, refl, inl, arith, List, [], ◌∷◌, false, true, none, some, returns,
}
use hayselnut.Roundtable.{MethodId, instance_, no_verify, Request}
use hayselnut.Roundtable.Runtime.{
  finished, shuts_down, reported, Handler, MethodRaw, Rt, message, background, metadata, exits,
  run_loop,
}
use hayselnut.Roundtable.Interface.{dispatched, query_as}
use hayselnut.Roundtable.Query.{query_as_lem}
use hayselnut.Roundtable.Shutdown.{shut, run_loop-shuts_down}

-- A method that adds its argument to the count, and one that shuts down.
abbrev adds : MethodRaw ℕ ℕ ℕ ℕ (List ℕ)
adds = record { handler_desc = 1; handler_func = λ n source hdl w. finished (hdl + n) (hdl + n) w }

abbrev stops : MethodRaw ℕ ℕ ℕ ℕ (List ℕ)
stops = record { handler_desc = 2; handler_func = λ n source hdl w. shuts_down hdl w }

abbrev counter : Handler ℕ ℕ ℕ ℕ (List ℕ)
counter = record {
  methods = λ hdl. (10, adds) ∷ ((11, stops) ∷ []);
  describe = λ hdl. hdl;
  init = λ hdl w. finished _ hdl w;
  on_error = λ e hdl w. reported hdl w;
}

abbrev counter_at : ℕ → ℕ → Rt ℕ ℕ ℕ ℕ (List ℕ)
counter_at n count = record {
  hdl = count;
  inst = record { typ = record { id = 3; id_desc = 0 }; discriminant = n; discriminant_desc = 0 };
  methods = (10, adds) ∷ ((11, stops) ∷ []);
  message_source = none;
  shutdown = false;
}

abbrev adding : MethodId
adding = record { id = 10; id_desc = 1 }

query_as_lem_example :
    query_as counter true
      (λ w. true)
      (λ w w'. true)
      (counter_at 9 0).inst
      (counter_at 5 0).inst
      adding
      7
      (counter_at 4 20 ∷ (counter_at 5 30 ∷ []))
      []
    ≡ (returns (dispatched 37), counter_at 4 20 ∷ (counter_at 5 37 ∷ []), [])
query_as_lem_example =
    query_as_lem counter true (λ w. true) (λ w w'. true) (counter_at 4 20 ∷ []) [] (counter_at 5 30)
      (counter_at 9 0).inst (counter_at 5 0).inst adding 7 adds [] (inl (λ e. omega arith), _) _
      (refl, refl) refl refl refl

abbrev stopping : Request ℕ
stopping = record {
  source = (counter_at 9 0).inst;
  target = instance_ (counter_at 5 0).inst;
  method = record { id = 11; id_desc = 2 };
  arguments = 0;
}

run_loop-shuts_down_example :
    (run_loop counter (background false 0 11 ∷ (metadata ∷ [])) (counter_at 5 30) []
      ≡ (exits (shut counter (counter_at 5 30) 30 (some (counter_at 5 30).inst)) [], metadata ∷ []))
    × (run_loop counter (message false stopping no_verify ∷ (metadata ∷ [])) (counter_at 5 30) []
        ≡ run_loop counter (metadata ∷ []) (shut counter (counter_at 5 30) 30 none) [])
run_loop-shuts_down_example =
    run_loop-shuts_down counter false stopping no_verify (counter_at 5 30) stops 30 [] []
      (metadata ∷ []) refl refl refl (λ source. refl)
