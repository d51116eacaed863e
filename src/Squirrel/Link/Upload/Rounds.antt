-- ===== src/Squirrel/Link/Upload/Rounds.antt =====
-- The rounds of `mvp_send` against `ClientInterface::handle`, each over one fair exchange of the
-- lossy link.
use hayselnut.Common.{
  ℕ, ◌+◌, ◌^◌, ◌≤◌, ◌<◌, ◌≡◌, ◌≢◌, ◌∙◌, refl, List, [], ◌∷◌, ◌++◌, length, none, some, arith,
}
use hayselnut.Squirrel.Packet.{
  tx, confirm, complete, next_uid, next_uid-lt, next_uid-ne, frame_buf_size,
}
use hayselnut.Squirrel.Wire.{ByteOrder}
use hayselnut.Squirrel.Server.{ClientInterface, DispatchEvent, received, receiving, cmd_packet}
use hayselnut.Squirrel.Server.Steps.{part_packet}
use hayselnut.Squirrel.Server.Invariant.{part_packet-IsValid}
use hayselnut.Squirrel.Server.Receiving.{
  IsAtRest, TakesFrames, tx_begun, part_taken, tx_done, handle-tx, handle-tx_again, handle-part,
  handle-part_again, handle-complete, handle-complete_again,
}
use hayselnut.Squirrel.Shared.{command, finished}
use hayselnut.Squirrel.Client.{announce, send_chunk, conclude}
use hayselnut.Squirrel.Client.Steps.{announce_lem, send_chunk_lem, conclude_lem}
use hayselnut.Squirrel.Link.{Fate, delivered, transmit}
use hayselnut.Squirrel.Link.Exchange.{
  link, idle, InWindow, Exchange, IsFair, Answers, send_and_wait-answered,
}

-- The server is in a transfer that the client continues: `g` is the uid that the client used last,
-- and the window's times are within the time that a transaction may take.
pub record InTransfer (lo hi : ℕ) (c : ClientInterface) (g : ℕ) : Type 0 where
  pub responds : c.respond_to ≡ g
  pub last_u32 : c.last_sent < 2 ^ 32
  pub started : lo ≤ c.transaction_time
  pub patient : hi ≤ lo + c.max_transaction_time

module _ (lo hi : ℕ) (c : ClientInterface) (g : ℕ) where
  tx-Answers :
      IsAtRest c.state
      → Answers lo hi
          (cmd_packet (next_uid g) 0 tx)
          (command confirm)
          c
          (tx_begun c (next_uid g))
          none
          (cmd_packet (next_uid c.uid_gen) (next_uid g) confirm)
  tx-Answers s = record {
    to_valid = ground (arith, next_uid-lt g);
    reply_valid = ground (arith, next_uid-lt g, next_uid-lt c.uid_gen);
    responds = refl;
    fits = refl;
    first = λ t h. handle-tx c (next_uid g) t s;
    again = λ t u h k. handle-tx_again c (next_uid g) t u;
  }

  new_uid : InTransfer lo hi c g → next_uid g ≢ c.respond_to
  new_uid v e = next_uid-ne g (e ∙ v.responds)

  part-Answers :
      (part : List ℕ)
      → TakesFrames c.state
      → InTransfer lo hi c g
      → length part ≤ frame_buf_size
      → Answers lo hi
          (part_packet (next_uid g) c.last_sent part)
          (command confirm)
          c
          (λ t. part_taken c (next_uid g) part)
          none
          (cmd_packet (next_uid c.uid_gen) (next_uid g) confirm)
  part-Answers part s v h = record {
    to_valid = part_packet-IsValid (next_uid g) c.last_sent part (next_uid-lt g) v.last_u32 h;
    reply_valid = ground (arith, next_uid-lt g, next_uid-lt c.uid_gen);
    responds = refl;
    fits = refl;
    first = λ t k. handle-part c (next_uid g) t part s (new_uid v) (omega arith);
    again = λ t u k l. handle-part_again c (next_uid g) u part (omega arith);
  }

  complete-Answers :
      c.state ≡ receiving
      → InTransfer lo hi c g
      → Answers lo hi
          (cmd_packet (next_uid g) c.last_sent complete)
          (command confirm)
          c
          (λ t. tx_done c (next_uid g))
          (some c.recev_buf)
          (cmd_packet (next_uid c.uid_gen) (next_uid g) confirm)
  complete-Answers s v = record {
    to_valid = ground (arith, next_uid-lt g);
    reply_valid = ground (arith, next_uid-lt g, next_uid-lt c.uid_gen);
    responds = refl;
    fits = refl;
    first = λ t k. handle-complete c (next_uid g) t s (omega arith);
    again = λ t u k l. handle-complete_again c (next_uid g) u;
  }

  pub part_taken-InTransfer :
      (part : List ℕ)
      → InTransfer lo hi c g
      → InTransfer lo hi (part_taken c (next_uid g) part) (next_uid g)
  part_taken-InTransfer part v = record {
    responds = refl;
    last_u32 = next_uid-lt c.uid_gen;
    started = v.started;
    patient = v.patient;
  }

module _ (order : ByteOrder) (lo hi : ℕ) where
  -- One round of the client, over one fair exchange.
  pub announced :
      (c : ClientInterface) (g : ℕ) (e : Exchange) (rest : List Fate) (log : List DispatchEvent)
      → IsAtRest c.state
      → IsFair lo hi e
      → (t : ℕ) × InWindow lo hi t
        × (announce order
              (transmit order)
              (idle (link c (e.losses ++ (delivered e.at ∷ rest)) log) g)
            ≡ finished
                (next_uid c.uid_gen)
                (idle (link (tx_begun c (next_uid g) t) rest log) (next_uid g)))
  announced c g e rest log s fair =
      let (t, ht, answer) =
        send_and_wait-answered order lo hi _ (command confirm) c _ none _ e rest log (next_uid g)
          (tx-Answers lo hi c g s) fair in
      (t, ht, announce_lem order (transmit order) _ _ _ answer)

  pub chunk_sent :
      (part : List ℕ) (c : ClientInterface) (g : ℕ) (e : Exchange) (rest : List Fate)
      (log : List DispatchEvent)
      → length part ≤ frame_buf_size
      → TakesFrames c.state
      → InTransfer lo hi c g
      → IsFair lo hi e
      → send_chunk order
          (transmit order)
          part
          c.last_sent
          (idle (link c (e.losses ++ (delivered e.at ∷ rest)) log) g)
        ≡ finished
            (next_uid c.uid_gen)
            (idle (link (part_taken c (next_uid g) part) rest log) (next_uid g))
  chunk_sent part c g e rest log h s v fair =
      let (t, ht, answer) =
        send_and_wait-answered order lo hi _ (command confirm) c _ none _ e rest log (next_uid g)
          (part-Answers lo hi c g part s v h) fair in
      send_chunk_lem order (transmit order) _ _ part c.last_sent _ answer

  pub concluded :
      (c : ClientInterface) (g : ℕ) (e : Exchange) (rest : List Fate) (log : List DispatchEvent)
      → c.state ≡ receiving
      → InTransfer lo hi c g
      → IsFair lo hi e
      → conclude order
          (transmit order)
          c.last_sent
          (idle (link c (e.losses ++ (delivered e.at ∷ rest)) log) g)
        ≡ finished tt (
            idle
              (link (tx_done c (next_uid g)) rest (log ++ (received c.recev_buf ∷ [])))
              (next_uid g))
  concluded c g e rest log s v fair =
      let (t, ht, answer) =
        send_and_wait-answered order lo hi _ (command confirm) c _ (some c.recev_buf) _ e rest log
          (next_uid g) (complete-Answers lo hi c g s v) fair in
      conclude_lem order (transmit order) _ _ c.last_sent _ answer
