-- ===== src/Squirrel/Link/Empty.antt =====
-- `mvp_send` of no data at all, over the lossy link.
use hayselnut.Common.{
  ℕ, zero, suc, ◌≤◌, ◌≡◌, ◌∙◌, refl, List, [], ◌∷◌, ◌++◌, some, returns, arith, append-nil, length,
}
use hayselnut.Squirrel.Packet.{Packet, confirm, complete, next_uid, next_uid-lt}
use hayselnut.Squirrel.Wire.{ByteOrder, read_packet}
use hayselnut.Squirrel.Wire.RoundTrip.{read_packet-as_bytes}
use hayselnut.Squirrel.Server.{ClientInterface, DispatchEvent, receiving_start, handle, cmd_packet}
use hayselnut.Squirrel.Server.Receiving.{IsAtRest, tx_begun}
use hayselnut.Squirrel.Server.Starting.{handle-complete_early}
use hayselnut.Squirrel.Shared.{ExpectedResponse, command, failed, timed_out, attempt}
use hayselnut.Squirrel.Shared.Laws.{attempt-lost, send_and_wait_lem, attempt-none_left}
use hayselnut.Squirrel.Client.{mvp_send}
use hayselnut.Squirrel.Client.Steps.{mvp_send-nil, conclude-failed}
use hayselnut.Squirrel.Link.{
  Fate, request_lost, reply_lost, delivered, serve, recv_next_packet, sent_back, transmit,
}
use hayselnut.Squirrel.Link.Exchange.{link, idle, Exchange, IsFair}
use hayselnut.Squirrel.Link.Upload.Rounds.{announced}

module _ (order : ByteOrder) where
  serve-ignored :
      (c : ClientInterface) (fates : List Fate) (log : List DispatchEvent) (t : ℕ) (bytes : List ℕ)
      (p : Packet)
      → length bytes ≤ 508
      → read_packet order bytes ≡ some p
      → handle c t p ≡ returns (c, [])
      → serve order (link c fates log) t bytes ≡ (link c fates log, [])
  unfolding serve recv_next_packet sent_back
  serve-ignored c fates log t bytes p h r e = ground (arith, append-nil log)

  -- Whatever becomes of a packet that the server ignores, nothing comes back.
  transmit-ignored :
      (c : ClientInterface) (fates : List Fate) (log : List DispatchEvent) (bytes : List ℕ)
      → ((rest : List Fate) (t : ℕ) → serve order (link c rest log) t bytes ≡ (link c rest log, []))
      → (rest : List Fate) × (transmit order (link c fates log) bytes ≡ some (link c rest log, []))
  unfolding transmit
  transmit-ignored c [] log bytes h = ([], refl)
  transmit-ignored c (request_lost ∷ fates) log bytes h = (fates, refl)
  transmit-ignored c (reply_lost t ∷ fates) log bytes h = (fates, ground (arith, h fates t))
  transmit-ignored c (delivered t ∷ fates) log bytes h = (fates, ground (arith, h fates t))

  attempts-ignored :
      (n : ℕ) (c : ClientInterface) (fates : List Fate) (log : List DispatchEvent) (g : ℕ)
      (to : Packet) (expected : ExpectedResponse) (bytes : List ℕ)
      → ((rest : List Fate) (t : ℕ) → serve order (link c rest log) t bytes ≡ (link c rest log, []))
      → (rest : List Fate) × (attempt order
            (transmit order)
            n
            to
            bytes
            expected
            (idle (link c fates log) g)
          ≡ failed timed_out (idle (link c rest log) g))
  attempts-ignored zero c fates log g to expected bytes h =
      (fates, attempt-none_left order (transmit order) to bytes expected _)
  attempts-ignored (suc n) c fates log g to expected bytes h =
      let (next, e) = transmit-ignored c fates log bytes h in
      let (rest, run) = attempts-ignored n c next log g to expected bytes h in
      (
        rest,
        attempt-lost order (transmit order) n to bytes expected _ (link c next log) refl e ∙ run,
      )

  -- `mvp_send` of no data times out whatever the link does after the first exchange: the server has
  -- begun the transaction, stays there, and tells its application of nothing.
  pub mvp_send-empty :
      (lo hi : ℕ) (c : ClientInterface) (g : ℕ) (first : Exchange) (fates : List Fate)
      (log : List DispatchEvent)
      → IsAtRest c.state
      → IsFair lo hi first
      → (d : ClientInterface) × (g' : ℕ) × (rest : List Fate) × (mvp_send order
            (transmit order)
            []
            (idle (link c (first.losses ++ (delivered first.at ∷ fates)) log) g)
          ≡ failed timed_out (idle (link d rest log) g'))
        × (d.state ≡ receiving_start)
  mvp_send-empty lo hi c g first fates log s fair =
      let (t, ht, begun) = announced order lo hi c g first fates log s fair in
      let c' = tx_begun c (next_uid g) t in
      let id = next_uid (next_uid g) in
      let to = cmd_packet id (next_uid c.uid_gen) complete in
      let (bytes, written, short, readable) = read_packet-as_bytes order to (record {
        packet_u32 = next_uid-lt (next_uid g);
        responding_u32 = next_uid-lt c.uid_gen;
        typed = refl;
        padded = refl;
      }) in
      let (rest, run) = attempts-ignored 5 c' fates log id to (command confirm) bytes (λ rest u.
        serve-ignored c' rest log u bytes to short readable
          (handle-complete_early c' u id (next_uid c.uid_gen) refl)) in
      (
        c',
        id,
        rest,
        mvp_send-nil order (transmit order) _ _ (next_uid c.uid_gen) begun
            ∙ conclude-failed order (transmit order) _ _ (next_uid c.uid_gen) timed_out (
                send_and_wait_lem order (transmit order) to bytes (command confirm) 4 _ written
                ∙ run),
        refl,
      )
