-- ===== src/Squirrel/Link/Exchange.antt =====
-- One exchange over the lossy link: a request that the server answers, and answers alike when it is
-- repeated, is answered after any losses that leave an attempt, and the server acts on it once.
use hayselnut.Common.{
  ℕ, zero, suc, ◌≤◌, ◌<◌, ◌≡◌, refl, ap, ◌∙◌, List, [], ◌∷◌, ◌++◌, true, Option, none, some,
  returns, arith, All, length, append-nil,
}
use hayselnut.Squirrel.Packet.{Packet, uid, responding_to}
use hayselnut.Squirrel.Wire
use hayselnut.Squirrel.Wire.{ByteOrder, as_bytes, read_packet}
use hayselnut.Squirrel.Wire.RoundTrip.{read_packet-as_bytes}
use hayselnut.Squirrel.Server.{ClientInterface, DispatchEvent, send, received, handle}
use hayselnut.Squirrel.Shared.{
  Arrival, datagram, ExpectedResponse, World, finished, attempt, send_and_wait, is_answer,
}
use hayselnut.Squirrel.Shared.Laws.{
  Fits, is_answer_of_Fits, attempt-lost, attempt-answered, send_and_wait_lem,
}
use hayselnut.Squirrel.Client.{max_attempts}
use hayselnut.Squirrel.Link.{
  Fate, request_lost, reply_lost, delivered, Link, recv_next_packet, sent_back, serve, transmit,
}

abbrev pub link : ClientInterface → List Fate → List DispatchEvent → Link
link c fates log = record { server = c; fates = fates; log = log }

-- The client between two exchanges: nothing waits in its socket.
abbrev pub idle : Link → ℕ → World Link
idle l uid_gen = record { far = l; inbox = []; uid_gen = uid_gen }

abbrev pub InWindow : ℕ → ℕ → ℕ → Type 0
InWindow lo hi t = (lo ≤ t) × (t ≤ hi)

-- An exchange's fates: some attempts are lost, at times in the window, and then one is delivered.
pub record Exchange : Type 0 where
  pub losses : List Fate
  pub at : ℕ

abbrev pub IsLossy : ℕ → ℕ → Fate → Type 0
IsLossy lo hi request_lost = Unit
IsLossy lo hi (reply_lost t) = InWindow lo hi t
IsLossy lo hi (delivered t) = ⊥

pub record IsFair (lo hi : ℕ) (e : Exchange) : Type 0 where
  pub lossy : All (IsLossy lo hi) e.losses
  pub patient : length e.losses < max_attempts
  pub timely : InWindow lo hi e.at

abbrev pub plan : List Exchange → List Fate
plan [] = []
plan (e ∷ es) = e.losses ++ (delivered e.at ∷ plan es)

-- What the server's application is told in an exchange: nothing, or that data has come.
abbrev pub notices : Option (List ℕ) → List DispatchEvent
notices none = []
notices (some bytes) = received bytes ∷ []

abbrev pub logged : List DispatchEvent → Option (List ℕ) → List DispatchEvent
logged log none = log
logged log (some bytes) = log ++ (received bytes ∷ [])

-- In state `c` the server answers `to` by `reply`, and goes over to `c' t` at the time `t` of the
-- call; there it answers a repetition alike, and changes nothing.
pub record Answers (lo hi : ℕ) (to : Packet) (expected : ExpectedResponse) (c : ClientInterface)
    (c' : ℕ → ClientInterface) (notice : Option (List ℕ)) (reply : Packet) : Type 0 where
  pub to_valid : Wire.IsValid to
  pub reply_valid : Wire.IsValid reply
  pub responds : responding_to reply ≡ uid to
  pub fits : Fits expected reply
  pub first :
      (t : ℕ)
      → InWindow lo hi t
      → handle c t to ≡ returns (c' t, notices notice ++ (send reply ∷ []))
  pub again :
      (t u : ℕ)
      → InWindow lo hi t
      → InWindow lo hi u
      → handle (c' t) u to ≡ returns (c' t, send reply ∷ [])

module _ (order : ByteOrder) where
  -- The server reads a datagram and handles it; what it sends back arrives.
  serve_lem :
      (l : Link) (t : ℕ) (bytes buf : List ℕ) (to reply : Packet) (c : ClientInterface)
      (notice : Option (List ℕ))
      → length bytes ≤ 508
      → read_packet order bytes ≡ some to
      → as_bytes order reply ≡ returns buf
      → handle l.server t to ≡ returns (c, notices notice ++ (send reply ∷ []))
      → serve order l t bytes
        ≡ (record l { server = c; log = logged l.log notice }, datagram true buf ∷ [])
  unfolding serve recv_next_packet sent_back
  serve_lem l t bytes buf to reply c none h r s e = ground (arith, append-nil l.log)
  serve_lem l t bytes buf to reply c (some x) h r s e = ground arith

  module _ (c : ClientInterface) (fates : List Fate) (log : List DispatchEvent)
      (bytes : List ℕ) where
    transmit-request_lost :
        transmit order (link c (request_lost ∷ fates) log) bytes ≡ some (link c fates log, [])
    unfolding transmit
    transmit-request_lost = refl

    transmit-reply_lost :
        (t : ℕ) {served : Link × List Arrival}
        → serve order (link c fates log) t bytes ≡ served
        → transmit order (link c (reply_lost t ∷ fates) log) bytes ≡ some (served.0, [])
    unfolding transmit
    transmit-reply_lost t e = ap (λ r. some (r.0, [])) e

    transmit-delivered :
        (t : ℕ) {served : Link × List Arrival}
        → serve order (link c fates log) t bytes ≡ served
        → transmit order (link c (delivered t ∷ fates) log) bytes ≡ some served
    unfolding transmit
    transmit-delivered t e = ap some e

  module _ (lo hi : ℕ) (to : Packet) (expected : ExpectedResponse) (c : ClientInterface)
      (c' : ℕ → ClientInterface) (notice : Option (List ℕ)) (reply : Packet)
      (a : Answers lo hi to expected c c' notice reply) (bytes buf : List ℕ)
      (short : length bytes ≤ 508) (readable : read_packet order bytes ≡ some to)
      (sent : as_bytes order reply ≡ returns buf)
      (readback : read_packet order buf ≡ some reply) where
    served-first :
        (t : ℕ) (fates : List Fate) (log : List DispatchEvent)
        → InWindow lo hi t
        → serve order (link c fates log) t bytes
          ≡ (link (c' t) fates (logged log notice), datagram true buf ∷ [])
    served-first t fates log h =
        serve_lem (link c fates log) t bytes buf to reply (c' t) notice short readable sent
          (a.first t h)

    served-again :
        (t u : ℕ) (fates : List Fate) (log : List DispatchEvent)
        → InWindow lo hi t
        → InWindow lo hi u
        → serve order (link (c' t) fates log) u bytes
          ≡ (link (c' t) fates log, datagram true buf ∷ [])
    served-again t u fates log h k =
        serve_lem (link (c' t) fates log) u bytes buf to reply (c' t) none short readable sent
          (a.again t u h k)

    accepted : is_answer to expected buf reply ≡ true
    accepted = is_answer_of_Fits order to reply expected buf readback a.responds a.fits

    -- The server has acted on the request, and no answer has come yet.
    attempts-again :
        (losses : List Fate) (n at t : ℕ) (rest : List Fate) (log : List DispatchEvent) (g : ℕ)
        → All (IsLossy lo hi) losses
        → length losses < n
        → InWindow lo hi at
        → InWindow lo hi t
        → attempt order
            (transmit order)
            n
            to
            bytes
            expected
            (idle (link (c' t) (losses ++ (delivered at ∷ rest)) log) g)
          ≡ finished reply (idle (link (c' t) rest log) g)
    attempts-again losses zero at t rest log g l h ha ht = absurd (omega arith)
    attempts-again [] (suc n) at t rest log g l h ha ht =
        attempt-answered order (transmit order) n to bytes expected _ (link (c' t) rest log) reply
          buf refl (transmit-delivered (c' t) rest log bytes at (served-again t at rest log ht ha))
          readback accepted
    attempts-again (request_lost ∷ losses) (suc n) at t rest log g l h ha ht =
        attempt-lost order (transmit order) n to bytes expected _
          (link (c' t) (losses ++ (delivered at ∷ rest)) log) refl
          (transmit-request_lost (c' t) (losses ++ (delivered at ∷ rest)) log bytes)
        ∙ attempts-again losses n at t rest log g l.1 (omega arith) ha ht
    attempts-again (reply_lost u ∷ losses) (suc n) at t rest log g l h ha ht =
        attempt-lost order (transmit order) n to bytes expected _
          (link (c' t) (losses ++ (delivered at ∷ rest)) log) refl
          (transmit-reply_lost (c' t) (losses ++ (delivered at ∷ rest)) log bytes u
            (served-again t u (losses ++ (delivered at ∷ rest)) log ht l.0))
        ∙ attempts-again losses n at t rest log g l.1 (omega arith) ha ht
    attempts-again (delivered u ∷ losses) (suc n) at t rest log g l h ha ht = absurd l.0

    -- The server has not seen the request.
    attempts-first :
        (losses : List Fate) (n at : ℕ) (rest : List Fate) (log : List DispatchEvent) (g : ℕ)
        → All (IsLossy lo hi) losses
        → length losses < n
        → InWindow lo hi at
        → (t : ℕ) × InWindow lo hi t
          × (attempt order
                (transmit order)
                n
                to
                bytes
                expected
                (idle (link c (losses ++ (delivered at ∷ rest)) log) g)
              ≡ finished reply (idle (link (c' t) rest (logged log notice)) g))
    attempts-first losses zero at rest log g l h ha = absurd (omega arith)
    attempts-first [] (suc n) at rest log g l h ha = (
      at,
      ha,
      attempt-answered order (transmit order) n to bytes expected _
          (link (c' at) rest (logged log notice)) reply buf refl
          (transmit-delivered c rest log bytes at (served-first at rest log ha)) readback accepted,
    )
    attempts-first (request_lost ∷ losses) (suc n) at rest log g l h ha =
        let (t, ht, e) = attempts-first losses n at rest log g l.1 (omega arith) ha in
        (
          t,
          ht,
          attempt-lost order (transmit order) n to bytes expected _
                (link c (losses ++ (delivered at ∷ rest)) log) refl
                (transmit-request_lost c (losses ++ (delivered at ∷ rest)) log bytes)
              ∙ e,
        )
    attempts-first (reply_lost u ∷ losses) (suc n) at rest log g l h ha = (
      u,
      l.0,
      attempt-lost order (transmit order) n to bytes expected _
            (link (c' u) (losses ++ (delivered at ∷ rest)) (logged log notice)) refl
            (transmit-reply_lost c (losses ++ (delivered at ∷ rest)) log bytes u
              (served-first u (losses ++ (delivered at ∷ rest)) log l.0))
          ∙ attempts-again losses n at u rest (logged log notice) g l.1 (omega arith) ha l.0,
    )
    attempts-first (delivered u ∷ losses) (suc n) at rest log g l h ha = absurd l.0

  -- Over a fair exchange `send_and_wait` returns the server's reply. The server has acted on the
  -- request once, at a time in the window, and has told its application of it once.
  pub send_and_wait-answered :
      (lo hi : ℕ) (to : Packet) (expected : ExpectedResponse) (c : ClientInterface)
      (c' : ℕ → ClientInterface) (notice : Option (List ℕ)) (reply : Packet) (e : Exchange)
      (rest : List Fate) (log : List DispatchEvent) (g : ℕ)
      → Answers lo hi to expected c c' notice reply
      → IsFair lo hi e
      → (t : ℕ) × InWindow lo hi t
        × (send_and_wait order
              (transmit order)
              to
              expected
              max_attempts
              (idle (link c (e.losses ++ (delivered e.at ∷ rest)) log) g)
            ≡ finished reply (idle (link (c' t) rest (logged log notice)) g))
  send_and_wait-answered lo hi to expected c c' notice reply e rest log g a fair =
      let (bytes, written, short, readable) = read_packet-as_bytes order to a.to_valid in
      let (buf, sent, fit, readback) = read_packet-as_bytes order reply a.reply_valid in
      let (t, ht, found) =
        attempts-first lo hi to expected c c' notice reply a bytes buf short readable sent readback
          e.losses max_attempts e.at rest log g fair.lossy fair.patient fair.timely in
      (t, ht, send_and_wait_lem order (transmit order) to bytes expected 4 _ written ∙ found)
