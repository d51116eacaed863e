-- ===== src/CsSquirrel/Server/Session.antt =====
-- A whole transmission to the server, from Tx to Complete
-- (haysel/cs_squirrel/src/server/mech.rs; the order of packets is that of packet/cmd.rs).
use hayselnut.Common.{
  ℕ, ◌+◌, ◌%◌, ◌^◌, ◌≤◌, ◌<◌, ◌≡◌, ◌∙◌, ◌⊎◌, inl, inr, refl, sym, ap, subst, List, [], ◌∷◌, ◌++◌,
  All, Bool, true, false, ◌==◌, length, drop, Option, none, some, Outcome, returns, panics,
  bind_assoc, bind_returns, bind_cong, ◌>>=◌, arith,
}
use hayselnut.Squirrel.Wire.{ByteOrder}
use hayselnut.CsSquirrel.Cursor.{Cursor}
use hayselnut.CsSquirrel.Uid.{Uid, next}
use hayselnut.CsSquirrel.Packet.{Read, tx, confirm, complete, kind}
use hayselnut.CsSquirrel.Packet.Bytes.{cmd_bytes, send_cmd_lem}
use hayselnut.CsSquirrel.Packet.RoundTrip.{cmd_packet}
use hayselnut.CsSquirrel.Server.{
  ConnState, recv, recv_start, recv_done, resting, process, Step, Processed, done, fails, on_tx,
  on_complete, State, send_done,
}
use hayselnut.CsSquirrel.Server.Receiving.{IsNumbered, InTime, process-InTime, confirmed}
use hayselnut.CsSquirrel.Server.Transfer.{
  Sent, state_behind, packets, payload, reads, run, run_step, run-packets, IsPrompt,
}

-- No transaction is under way.
abbrev pub IsIdle : ConnState → Type 0
IsIdle s = (s.state ≡ resting) ⊎ (s.state ≡ recv_done) ⊎ (s.state ≡ send_done)

abbrev pub started : Uid → ℕ → ConnState → ConnState
started u now s = record s {
  state = recv_start;
  responding_to = u;
  trans_time = now;
  last_sent = s.gen.current + 1;
  gen = record { current = s.gen.current + 1 };
}

abbrev pub ended : Uid → ConnState → ConnState
ended u s = record s {
  state = recv_done;
  responding_to = u;
  last_sent = s.last_sent + 1;
  gen = record { current = s.last_sent + 1 };
}

state_behind_some : (xs : List Sent) (state : State) → 1 ≤ length xs → state_behind xs state ≡ recv
state_behind_some [] state h = absurd (omega arith)
state_behind_some (x ∷ xs) state h = refl

abbrev pub completes : Processed → Bool
completes (done r) = r.read_complete
completes (fails e) = false

-- Tx, the frames in answer to the ids that count on from `n + 1`, and Complete.
abbrev pub session : Uid → ℕ → ℕ → List Sent → Uid → ℕ → List (ℕ × Read)
session first start n xs last end =
    (start, cmd_packet first 0 tx)
    ∷ (packets (n + 1) xs ++ ((end, cmd_packet last (n + 1 + length xs) complete) ∷ []))

module _ (order : ByteOrder) where
  pub process_tx :
      (now u r : ℕ) (scratch : List ℕ) (s : ConnState) (c : Option Cursor)
      → IsIdle s
      → s.gen.current + 1 < 2 ^ 32
      → 10 ≤ length scratch
      → process order now (cmd_packet u r tx) scratch s c
        ≡ returns (confirmed order none (s.gen.current + 1) u scratch (started u now s) c)
  unfolding on_tx
  process_tx now u r scratch s c idle fits room =
      let step : (s.gen.current + 1) % 2 ^ 32 ≡ s.gen.current + 1 = omega arith in
      let answers : on_tx order now (cmd_packet u r tx) scratch s c
          ≡ returns (confirmed order none (s.gen.current + 1) u scratch (started u now s) c) =
        unfold on_tx next in
        rw (step, send_cmd_lem order (s.gen.current + 1) u confirm scratch room) refl in
      unfold process kind in
      elim idle [ inl e ↦ rw e answers | inr (inl e) ↦ rw e answers | inr (inr e) ↦ rw e answers ]

  pub process_complete :
      (now u : ℕ) (scratch : List ℕ) (s : ConnState) (c : Option Cursor)
      → s.state ≡ recv
      → IsNumbered 1 s
      → InTime s now
      → 10 ≤ length scratch
      → process order now (cmd_packet u s.last_sent complete) scratch s c
        ≡ returns (record {
          result = done (record {
            written = some (cmd_bytes order (s.last_sent + 1) u confirm ++ drop 10 scratch);
            read = none;
            read_complete = true;
          });
          next_state = ended u s;
          cursor = c;
        })
  process_complete now u scratch s c state numbered early room =
      let same : (s.last_sent == s.last_sent) ≡ true = ground arith in
      let set : (s.last_sent == 0) ≡ false = ground (arith, numbered.not_null) in
      let step : (s.gen.current + 1) % 2 ^ 32 ≡ s.last_sent + 1 =
        omega (arith, numbered.generated, numbered.fits) in
      process-InTime order now _ scratch s c early
      ∙ (unfold kind on_complete next in
          rw (state, same, set, step, send_cmd_lem order (s.last_sent + 1) u confirm scratch room)
            refl)

  -- A run goes on where the one before it ends.
  abbrev go_on :
      List (ℕ × Read) → List ℕ → List Processed × ConnState → Outcome (List Processed × ConnState)
  go_on qs scratch first =
      run order qs scratch first.1 >>= λ second. returns (first.0 ++ second.0, second.1)

  abbrev prepend : Processed → List Processed × ConnState → Outcome (List Processed × ConnState)
  prepend r rest = returns (r ∷ rest.0, rest.1)

  swap :
      (qs : List (ℕ × Read)) (scratch : List ℕ) (r : Processed)
      (o : Outcome (List Processed × ConnState))
      → ((o >>= go_on qs scratch) >>= prepend r) ≡ ((o >>= prepend r) >>= go_on qs scratch)
  swap qs scratch r (returns first) =
      bind_assoc (run order qs scratch first.1) (λ second. returns (first.0 ++ second.0, second.1))
        (prepend r)
  swap qs scratch r panics = refl

  run_append :
      (ps qs : List (ℕ × Read)) (scratch : List ℕ) (s : ConnState)
      → run order (ps ++ qs) scratch s ≡ (run order ps scratch s >>= go_on qs scratch)
  unfolding run
  run_append [] qs scratch s = sym (bind_returns (run order qs scratch s))
  run_append (p ∷ ps) qs scratch s =
      let rest = λ (step : Step). run order ps scratch step.next_state in
      bind_cong (process order p.0 p.1 scratch s none)
        (λ step. run order (ps ++ qs) scratch step.next_state >>= prepend step.result)
        (λ step. (rest step >>= prepend step.result) >>= go_on qs scratch)
        (λ step.
          ap (λ o. o >>= prepend step.result) (run_append ps qs scratch step.next_state)
          ∙ swap qs scratch step.result (rest step))
      ∙ sym (
          bind_assoc (process order p.0 p.1 scratch s none)
            (λ step. rest step >>= prepend step.result) (go_on qs scratch))

  abbrev answered_last : Uid → List ℕ → ConnState → Processed
  answered_last u scratch s = done (record {
    written = some (cmd_bytes order (s.last_sent + 1) u confirm ++ drop 10 scratch);
    read = none;
    read_complete = true;
  })

  run_nothing : (scratch : List ℕ) (s : ConnState) → run order [] scratch s ≡ returns ([], s)
  unfolding run
  run_nothing scratch s = refl

  run_over :
      (end last n : ℕ) (scratch : List ℕ) (s : ConnState)
      → s.state ≡ recv
      → IsNumbered 1 s
      → InTime s end
      → 10 ≤ length scratch
      → s.last_sent ≡ n
      → run order ((end, cmd_packet last n complete) ∷ []) scratch s
        ≡ returns (answered_last last scratch s ∷ [], ended last s)
  run_over end last n scratch s state numbered early room id =
      run_step order end _ [] scratch s _ [] (ended last s)
        (subst
          (λ n.
            process order end (cmd_packet last n complete) scratch s none
            ≡ returns (record {
              result = answered_last last scratch s;
              next_state = ended last s;
              cursor = none;
            }))
          id (process_complete end last scratch s none state numbered early room))
        (run_nothing scratch (ended last s))

  -- Of a whole transmission, Tx, at least one frame and Complete, each frame any number of times and all within the
  -- time of a transaction, to a server that is idle and whose ids do not wrap in it, the server reads the data of each frame once and in their order, and its last answer says that
  -- all is read.
  pub run-session :
      (first : Uid) (start : ℕ) (xs : List Sent) (last : Uid) (end : ℕ) (scratch : List ℕ)
      (s : ConnState)
      → IsIdle s
      → 1 ≤ length xs
      → s.gen.current + length xs + 2 < 2 ^ 32
      → All (IsPrompt (started first start s)) xs
      → InTime (started first start s) end
      → 10 ≤ length scratch
      → (earlier : List Processed) × (final : Processed) × (s' : ConnState) × (run order
            (session first start s.gen.current xs last end)
            scratch
            s
          ≡ returns (earlier ++ (final ∷ []), s'))
        × (reads earlier ≡ payload xs)
        × (completes final ≡ true)
        × (s'.state ≡ recv_done)
  run-session first start xs last end scratch s idle some_frame fits prompt early room =
      let new = started first start s in
      let (middle, s', runs, read, state, count, gen, time, conf, _) =
        run-packets order xs scratch new (inl refl)
          (record { generated = refl; not_null = omega arith; fits = omega arith }) prompt room in
      let behind : s'.state ≡ recv = state ∙ state_behind_some xs recv_start some_frame in
      let id : s'.last_sent ≡ s.gen.current + 1 + length xs = count in
      let over =
        run_over end last (s.gen.current + 1 + length xs) scratch s' behind
          (record { generated = gen; not_null = omega arith; fits = omega arith })
          (rw (time, conf) early) room id in
      (
        (confirmed order none (s.gen.current + 1) first scratch new none).result ∷ middle,
        answered_last last scratch s',
        ended last s',
        run_step order start _ _ scratch s _ _ _
            (process_tx start first 0 scratch s none idle (omega arith) room)
            (rw
              (
                run_append (packets (s.gen.current + 1) xs)
                    ((end, cmd_packet last (s.gen.current + 1 + length xs) complete) ∷ []) scratch
                    new,
                runs,
                ◌>>=◌,
              )
              (rw (over, ◌>>=◌) refl)),
        read,
        refl,
        refl,
      )
