-- ===== src/CsSquirrel/Server/Transfer.antt =====
-- The frames of a transmission to the server, each as often as the client likes
-- (haysel/cs_squirrel/src/server/mech.rs; the order of packets is that of packet/cmd.rs).
use hayselnut.Common.{
  ℕ, ◌+◌, ◌≤◌, ◌<◌, ◌≡◌, ◌∙◌, inl, inr, refl, ap, List, [], ◌∷◌, ◌++◌, All, length, none, some,
  Outcome, returns, ◌>>=◌, arith,
}
use hayselnut.Squirrel.Wire.{ByteOrder}
use hayselnut.CsSquirrel.Uid.{Uid}
use hayselnut.CsSquirrel.Packet.{Read, frame}
use hayselnut.CsSquirrel.Packet.RoundTrip.{frame_packet}
use hayselnut.CsSquirrel.Server.{ConnState, recv, process, Step, Processed, done, fails, State}
use hayselnut.CsSquirrel.Server.Receiving.{
  IsNumbered, IsReceiving, InTime, received, process_frame, process_frame_again,
}

-- The data that a call hands to its caller.
abbrev pub read_of : Processed → List ℕ
read_of (done r) = elim r.read [ some bytes ↦ bytes | none ↦ [] ]
read_of (fails e) = []

abbrev pub reads : List Processed → List ℕ
reads [] = []
reads (r ∷ rs) = read_of r ++ reads rs

-- A frame of the client: its id, its data, when it comes first, and when it comes again.
pub record Sent : Type 0 where
  pub uid : Uid
  pub bytes : List ℕ
  pub at : ℕ
  pub again : List ℕ

abbrev pub payload : List Sent → List ℕ
payload [] = []
payload (x ∷ xs) = x.bytes ++ payload xs

-- The client responds with each frame to the last packet of the server, of which the ids count on from `n`.
abbrev pub copies : ℕ → Sent → List ℕ → List (ℕ × Read)
copies n x [] = []
copies n x (t ∷ ts) = (t, frame (frame_packet x.uid n x.bytes)) ∷ copies n x ts

abbrev pub packets : ℕ → List Sent → List (ℕ × Read)
packets n [] = []
packets n (x ∷ xs) =
    (x.at, frame (frame_packet x.uid n x.bytes)) ∷ (copies n x x.again ++ packets (n + 1) xs)

-- Any frame takes the server from RecvStart to Recv.
abbrev pub state_behind : List Sent → State → State
state_behind [] state = state
state_behind (x ∷ xs) state = recv

-- The state behind the frames.
abbrev pub behind_all : List Sent → ConnState → ConnState
behind_all [] s = s
behind_all (x ∷ xs) s = behind_all xs (received x.uid s)

abbrev pub IsPrompt : ConnState → Sent → Type 0
IsPrompt s x = InTime s x.at × All (InTime s) x.again

module _ (order : ByteOrder) where
  -- Packets that come one after another, each with its time.
  unfoldable pub run : List (ℕ × Read) → List ℕ → ConnState → Outcome (List Processed × ConnState)
  run [] scratch s = returns ([], s)
  run (p ∷ ps) scratch s = do
    step ← process order p.0 p.1 scratch s none
    rest ← run ps scratch step.next_state
    returns (step.result ∷ rest.0, rest.1)

  pub run_step :
      (t : ℕ) (pkt : Read) (ps : List (ℕ × Read)) (scratch : List ℕ) (s : ConnState) (step : Step)
      (results : List Processed) (s' : ConnState)
      → process order t pkt scratch s none ≡ returns step
      → run ps scratch step.next_state ≡ returns (results, s')
      → run ((t, pkt) ∷ ps) scratch s ≡ returns (step.result ∷ results, s')
  unfolding run
  run_step t pkt ps scratch s step results s' now later = rw (now, ◌>>=◌) (rw (later, ◌>>=◌) refl)

  -- Behind copies of the last frame the run goes on from the same state.
  run-copies :
      (n : ℕ) (x : Sent) (ts : List ℕ) (ps : List (ℕ × Read)) (scratch : List ℕ) (s : ConnState)
      (later : List Processed) (s' : ConnState)
      → s.state ≡ recv
      → s.responding_to ≡ x.uid
      → n < s.last_sent
      → All (InTime s) ts
      → 10 ≤ length scratch
      → run ps scratch s ≡ returns (later, s')
      → (results : List Processed) × (run (copies n x ts ++ ps) scratch s ≡ returns (results, s'))
        × (reads results ≡ reads later)
  run-copies n x [] ps scratch s later s' state last old prompt room go = (later, go, refl)
  run-copies n x (t ∷ ts) ps scratch s later s' state last old prompt room go =
      let (results, runs, same) =
        run-copies n x ts ps scratch s later s' state last old prompt.1 room go in
      elim (process_frame_again order t x.uid n x.bytes scratch s none state last old prompt.0
        room) [
          | inl answered ↦ (_, run_step t _ _ scratch s _ results s' answered runs, same)
          | inr (null, ignored) ↦ (_, run_step t _ _ scratch s _ results s' ignored runs, same)
        ]

  behind : (xs : List Sent) → state_behind xs recv ≡ recv
  behind [] = refl
  behind (x ∷ xs) = refl

  -- Of the frames that a client sends, each in time, in answer to the last packet of the server and any number of
  -- times, the server reads the data of each once and in their order, without a panic, and has sent one more id for each.
  pub run-packets :
      (xs : List Sent) (scratch : List ℕ) (s : ConnState)
      → IsReceiving s
      → IsNumbered (length xs) s
      → All (IsPrompt s) xs
      → 10 ≤ length scratch
      → (results : List Processed) × (s' : ConnState) × (run (packets s.last_sent xs) scratch s
          ≡ returns (results, s'))
        × (reads results ≡ payload xs)
        × (s'.state ≡ state_behind xs s.state)
        × (s'.last_sent ≡ s.last_sent + length xs)
        × (s'.gen.current ≡ s'.last_sent)
        × (s'.trans_time ≡ s.trans_time)
        × (s'.conf ≡ s.conf)
        × (s' ≡ behind_all xs s)
  unfolding run
  run-packets [] scratch s receiving numbered prompt room =
      ([], s, refl, refl, refl, omega arith, numbered.generated, refl, refl, refl)
  run-packets (x ∷ xs) scratch s receiving numbered prompt room =
      let new = received x.uid s in
      let (later, s', go, read, ends, count, gen, time, conf, whole) =
        run-packets xs scratch new (inr refl)
          (record {
            generated = refl;
            not_null = omega (arith, numbered.not_null);
            fits = omega (arith, numbered.fits);
          })
          prompt.1 room in
      let (results, runs, same) =
        run-copies s.last_sent x x.again (packets (s.last_sent + 1) xs) scratch new later s' refl
          refl (omega arith) prompt.0.1 room go in
      (
        _,
        s',
        run_step x.at _ _ scratch s _ results s'
            (process_frame order x.at x.uid x.bytes scratch s none receiving
              (record {
                generated = numbered.generated;
                not_null = numbered.not_null;
                fits = omega (arith, numbered.fits);
              })
              prompt.0.0 room)
            runs,
        ap (λ bs. x.bytes ++ bs) (same ∙ read),
        ends ∙ behind xs,
        omega (arith, count),
        gen,
        time,
        conf,
        whole,
      )
