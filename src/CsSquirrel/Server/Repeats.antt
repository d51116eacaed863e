-- ===== src/CsSquirrel/Server/Repeats.antt =====
-- Frames that come more than once against frames that come once (`ConnState::process` of
-- haysel/cs_squirrel/src/server/mech.rs).
use hayselnut.Common.{
  ℕ, suc, ◌≤◌, ◌≡◌, ◌∙◌, refl, sym, ap, subst, List, [], ◌∷◌, ◌++◌, All, length, map, returns,
  arith,
}
use hayselnut.Squirrel.Wire.{ByteOrder}
use hayselnut.CsSquirrel.Server.{ConnState, Processed}
use hayselnut.CsSquirrel.Server.Receiving.{IsNumbered, IsReceiving, received}
use hayselnut.CsSquirrel.Server.Transfer.{
  Sent, packets, payload, reads, run, run-packets, IsPrompt, behind_all,
}

abbrev pub once : Sent → Sent
once x = record x { again = [] }

length-once : (xs : List Sent) → length (map once xs) ≡ length xs
length-once [] = refl
length-once (x ∷ xs) = ap suc (length-once xs)

payload-once : (xs : List Sent) → payload (map once xs) ≡ payload xs
payload-once [] = refl
payload-once (x ∷ xs) = ap (λ bs. x.bytes ++ bs) (payload-once xs)

behind_all-once : (xs : List Sent) (s : ConnState) → behind_all (map once xs) s ≡ behind_all xs s
behind_all-once [] s = refl
behind_all-once (x ∷ xs) s = behind_all-once xs (received x.uid s)

IsPrompt-once :
    (xs : List Sent) (s : ConnState) → All (IsPrompt s) xs → All (IsPrompt s) (map once xs)
IsPrompt-once [] s prompt = _
IsPrompt-once (x ∷ xs) s prompt = ((prompt.0.0, _), IsPrompt-once xs s prompt.1)

-- To a server that receives, whose ids do not wrap meanwhile, and over a scratch buffer of at least ten bytes:
-- frames that respond each to the last packet of the server and come in time, any number of times, leave the
-- connection as they do when each comes once, and the same data is read of them.
pub run-once :
    (order : ByteOrder) (xs : List Sent) (scratch : List ℕ) (s : ConnState)
    → IsReceiving s
    → IsNumbered (length xs) s
    → All (IsPrompt s) xs
    → 10 ≤ length scratch
    → (results single : List Processed) × (s' : ConnState) × (run order
          (packets s.last_sent xs)
          scratch
          s
        ≡ returns (results, s'))
      × (run order (packets s.last_sent (map once xs)) scratch s ≡ returns (single, s'))
      × (reads results ≡ reads single)
run-once order xs scratch s receiving numbered prompt room =
    let (results, s', runs, read, _, _, _, _, _, whole) =
      run-packets order xs scratch s receiving numbered prompt room in
    let (single, t, runs_once, read_once, _, _, _, _, _, whole_once) =
      run-packets order (map once xs) scratch s receiving
        (record {
          generated = numbered.generated;
          not_null = numbered.not_null;
          fits = omega (arith, numbered.fits, length-once xs);
        })
        (IsPrompt-once xs s prompt) room in
    let same : t ≡ s' = whole_once ∙ (behind_all-once xs s ∙ sym whole) in
    (
      results,
      single,
      s',
      runs,
      subst (λ u. run order (packets s.last_sent (map once xs)) scratch s ≡ returns (single, u))
          same runs_once,
      read ∙ (sym (payload-once xs) ∙ sym read_once),
    )
