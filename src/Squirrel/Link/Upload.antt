-- ===== src/Squirrel/Link/Upload.antt =====
-- `mvp_send` against `ClientInterface::handle` over the lossy link: data arrives once and whole.
pub mod Rounds
use Rounds.{InTransfer, part_taken-InTransfer, announced, chunk_sent, concluded}
use hayselnut.Common.{
  ℕ, ◌+◌, ◌^◌, ◌≤◌, ◌<◌, ◌≡◌, ◌≢◌, ◌∙◌, inl, inr, refl, sym, ap, List, [], ◌∷◌, ◌++◌, All, length,
  none, some, arith, append-nil, append_assoc,
}
use hayselnut.Squirrel.Packet.{
  tx, confirm, complete, next_uid, next_uid-lt, next_uid-ne, frame_buf_size,
}
use hayselnut.Squirrel.Wire.{ByteOrder}
use hayselnut.Squirrel.Server.{
  ClientInterface, DispatchEvent, received, receiving, theoretically_done_receiving, cmd_packet,
}
use hayselnut.Squirrel.Server.Steps.{part_packet}
use hayselnut.Squirrel.Server.Invariant.{part_packet-IsValid}
use hayselnut.Squirrel.Server.Receiving.{
  IsAtRest, TakesFrames, tx_begun, part_taken, tx_done, handle-tx, handle-tx_again, handle-part,
  handle-part_again, handle-complete, handle-complete_again,
}
use hayselnut.Squirrel.Shared.{command, finished, ◌>>=◌}
use hayselnut.Squirrel.Client.{announce, send_chunk, send_chunks, conclude, mvp_send, chunks}
use hayselnut.Squirrel.Client.Chunks.{joined, chunks-joined, chunks-short}
use hayselnut.Squirrel.Client.Steps.{
  bind-finished, announce_lem, send_chunk_lem, conclude_lem, send_chunks-cons, send_chunks-nil,
  mvp_send_lem,
}
use hayselnut.Squirrel.Link.{Fate, delivered, transmit}
use hayselnut.Squirrel.Link.Exchange.{
  link, idle, InWindow, Exchange, IsFair, plan, Answers, send_and_wait-answered,
}

module _ (order : ByteOrder) (lo hi : ℕ) where
  -- The loop of `mvp_send`: each chunk is appended to what the server has received.
  chunks_sent :
      (parts : List (List ℕ)) (es : List Exchange) (c : ClientInterface) (g : ℕ)
      (rest : List Exchange) (log : List DispatchEvent)
      → length es ≡ length parts
      → All (λ part. length part ≤ frame_buf_size) parts
      → All (IsFair lo hi) es
      → c.state ≡ receiving
      → InTransfer lo hi c g
      → (d : ClientInterface) × (g' : ℕ) × (send_chunks order
            (transmit order)
            parts
            c.last_sent
            (idle (link c (plan (es ++ rest)) log) g)
          ≡ finished d.last_sent (idle (link d (plan rest) log) g'))
        × (d.state ≡ receiving)
        × InTransfer lo hi d g'
        × (d.recev_buf ≡ c.recev_buf ++ joined parts)
        × (d.send_queue ≡ c.send_queue)
  chunks_sent [] [] c g rest log n short fair s v = (
    c,
    g,
    send_chunks-nil order (transmit order) (idle (link c (plan rest) log) g)
        (idle (link c (plan rest) log) g) c.last_sent,
    s,
    v,
    sym (append-nil c.recev_buf),
    refl,
  )
  chunks_sent [] (e ∷ es) c g rest log n short fair s v = absurd (omega arith)
  chunks_sent (part ∷ parts) [] c g rest log n short fair s v = absurd (omega arith)
  chunks_sent (part ∷ parts) (e ∷ es) c g rest log n short fair s v =
      let c' = part_taken c (next_uid g) part in
      let here =
        chunk_sent order lo hi part c g e (plan (es ++ rest)) log short.0 (inr s) v fair.0 in
      let (d, g', run, s', v', buf, q) =
        chunks_sent parts es c' (next_uid g) rest log (omega arith) short.1 fair.1 refl
          (part_taken-InTransfer lo hi c g part v) in
      (
        d,
        g',
        send_chunks-cons order (transmit order) _ _ part parts c.last_sent (next_uid c.uid_gen) here
            ∙ run,
        s',
        v',
        buf ∙ append_assoc c.recev_buf part (joined parts),
        q,
      )

  -- The transfer, once the data is cut into a first chunk and the rest.
  parts_sent :
      (part : List ℕ) (parts : List (List ℕ)) (e f : Exchange) (es : List Exchange)
      (c : ClientInterface) (g : ℕ) (log : List DispatchEvent)
      → length es ≡ length parts
      → All (λ p. length p ≤ frame_buf_size) (part ∷ parts)
      → All (IsFair lo hi) (e ∷ es)
      → IsFair lo hi f
      → TakesFrames c.state
      → InTransfer lo hi c g
      → (d : ClientInterface) × (g' : ℕ) × ((send_chunks order
                (transmit order)
                (part ∷ parts)
                c.last_sent
              >>= conclude order (transmit order))
            (idle (link c (plan (e ∷ (es ++ (f ∷ [])))) log) g)
          ≡ finished tt
              (idle (link d [] (log ++ (received (c.recev_buf ++ joined (part ∷ parts)) ∷ []))) g'))
        × (d.state ≡ theoretically_done_receiving)
        × (d.send_queue ≡ c.send_queue)
  parts_sent part parts e f es c g log n short fair fair_f s v =
      let c' = part_taken c (next_uid g) part in
      let sends = send_chunks order (transmit order) in
      let here = chunk_sent order lo hi part c g e (plan (es ++ (f ∷ []))) log short.0 s v fair.0 in
      let (d, g', run, s', v', buf, q) =
        chunks_sent parts es c' (next_uid g) (f ∷ []) log n short.1 fair.1 refl
          (part_taken-InTransfer lo hi c g part v) in
      let all_sent =
        send_chunks-cons order (transmit order) _ _ part parts c.last_sent _ here ∙ run in
      let ended = concluded order lo hi d g' f [] log s' v' fair_f in
      (
        tx_done d (next_uid g'),
        next_uid g',
        bind-finished (sends (part ∷ parts) c.last_sent) (conclude order (transmit order)) _ _ _
              all_sent
            ∙ (ended
                ∙ ap
                    (λ b. finished tt (
                      idle (link (tx_done d (next_uid g')) [] (log ++ (received b ∷ [])))
                        (next_uid g')))
                    (buf ∙ append_assoc c.recev_buf part (joined parts))),
        refl,
        q,
      )

  middle_sent :
      (parts : List (List ℕ)) (middle : List Exchange) (f : Exchange) (c : ClientInterface) (g : ℕ)
      (log : List DispatchEvent)
      → joined parts ≢ []
      → length middle ≡ length parts
      → All (λ p. length p ≤ frame_buf_size) parts
      → All (IsFair lo hi) middle
      → IsFair lo hi f
      → TakesFrames c.state
      → InTransfer lo hi c g
      → (d : ClientInterface) × (g' : ℕ) × ((send_chunks order (transmit order) parts c.last_sent
              >>= conclude order (transmit order))
            (idle (link c (plan (middle ++ (f ∷ []))) log) g)
          ≡ finished tt
              (idle (link d [] (log ++ (received (c.recev_buf ++ joined parts) ∷ []))) g'))
        × (d.state ≡ theoretically_done_receiving)
        × (d.send_queue ≡ c.send_queue)
  middle_sent [] middle f c g log ne n short fair fair_f s v = absurd (ne refl)
  middle_sent (part ∷ parts) [] f c g log ne n short fair fair_f s v = absurd (omega arith)
  middle_sent (part ∷ parts) (e ∷ es) f c g log ne n short fair fair_f s v =
      parts_sent part parts e f es c g log (omega arith) short fair fair_f s v

  -- Over a link on which every exchange loses at most four attempts, and within the time that a
  -- transaction may take, `mvp_send` of data that is not empty succeeds: the server's application is
  -- told of exactly these bytes, exactly once, and nothing else, and the server is at rest again with
  -- its queue as it was.
  pub mvp_send-delivers :
      (bytes : List ℕ) (c : ClientInterface) (g : ℕ) (first last : Exchange)
      (middle : List Exchange) (log : List DispatchEvent)
      → bytes ≢ []
      → IsAtRest c.state
      → hi ≤ lo + c.max_transaction_time
      → length middle ≡ length (chunks frame_buf_size bytes)
      → All (IsFair lo hi) (first ∷ last ∷ middle)
      → (d : ClientInterface) × (g' : ℕ) × (mvp_send order
            (transmit order)
            bytes
            (idle (link c (plan (first ∷ (middle ++ (last ∷ [])))) log) g)
          ≡ finished tt (idle (link d [] (log ++ (received bytes ∷ []))) g'))
        × (d.state ≡ theoretically_done_receiving)
        × (d.send_queue ≡ c.send_queue)
  mvp_send-delivers bytes c g first last middle log ne s p n fair =
      let (t, ht, begun) =
        announced order lo hi c g first (plan (middle ++ (last ∷ []))) log s fair.0 in
      let begins = mvp_send_lem order (transmit order) _ _ bytes (next_uid c.uid_gen) begun in
      let whole = chunks-joined 495 bytes in
      let c' = tx_begun c (next_uid g) t in
      let (d, g', run, ended, q) =
        middle_sent (chunks frame_buf_size bytes) middle last c' (next_uid g) log
          (λ e. ne (sym whole ∙ e)) n (chunks-short frame_buf_size bytes) fair.1.1 fair.1.0
          (inl refl)
          (record {
            responds = refl;
            last_u32 = next_uid-lt c.uid_gen;
            started = ht.0;
            patient = p;
          }) in
      (
        d,
        g',
        begins
            ∙ (run ∙ ap (λ b. finished tt (idle (link d [] (log ++ (received b ∷ []))) g')) whole),
        ended,
        q,
      )
