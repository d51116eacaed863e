-- ===== src/Squirrel/Client/Steps.antt =====
-- The rounds of `mvp_send` and `mvp_recv`, where `send_and_wait` returns an answer
-- (haysel/squirrel/src/transport/client.rs).
use hayselnut.Common.{
  ℕ, suc, ◌≡◌, ◌∙◌, refl, List, [], ◌∷◌, ◌++◌, length, replicate, Option, some, arith, take-append,
  length-append, ◌-◌,
}
use hayselnut.Squirrel.Packet.{
  Packet, cmd, Cmd, tx, rx, confirm, complete, next_uid, frame_buf_size,
}
use hayselnut.Squirrel.Wire.{ByteOrder}
use hayselnut.Squirrel.Server.{cmd_packet}
use hayselnut.Squirrel.Server.Steps.{part_packet, padded}
use hayselnut.Squirrel.Shared.{
  Arrival, ExpectedResponse, frame_or_command, command, SendError, World, Action, finished, failed,
  ◌>>=◌, send_and_wait,
}
use hayselnut.Squirrel.Client.Chunks.{chunks-nil}
use hayselnut.Squirrel.Client.{
  max_attempts, announce, send_chunk, send_chunks, conclude, mvp_send, recv_rest, mvp_recv, chunks,
  slice,
}

-- An action that finishes hands its result on.
pub bind-finished :
    {S A B : Type 0} (m : Action S A) (f : A → Action S B) (w w' : World S) (a : A)
    → m w ≡ finished a w'
    → (m >>= f) w ≡ f a w'
bind-finished m f w w' a e = ground arith

module _ (order : ByteOrder) {S : Type 0} (transmit : S → List ℕ → Option (S × List Arrival))
    (w w' : World S) where
  -- The world in which the next request goes out.
  abbrev pub asked : World S
  asked = record w { uid_gen = next_uid w.uid_gen }

  abbrev pub Asks : Packet → ExpectedResponse → Packet → Type 0
  Asks to expected reply =
      send_and_wait order transmit to expected max_attempts asked ≡ finished reply w'

  pub announce_lem :
      (c : Cmd)
      → Asks (cmd_packet (next_uid w.uid_gen) 0 tx) (command confirm) (cmd c)
      → announce order transmit w ≡ finished c.packet w'
  unfolding announce
  announce_lem c e = rw (e, ◌>>=◌)

  pub send_chunk_lem :
      (part : List ℕ) (respond_to : ℕ) (c : Cmd)
      → Asks (part_packet (next_uid w.uid_gen) respond_to part) (command confirm) (cmd c)
      → send_chunk order transmit part respond_to w ≡ finished c.packet w'
  unfolding send_chunk
  send_chunk_lem part respond_to c e = rw (e, ◌>>=◌)

  pub conclude_lem :
      (respond_to : ℕ) (c : Cmd)
      → Asks (cmd_packet (next_uid w.uid_gen) respond_to complete) (command confirm) (cmd c)
      → conclude order transmit respond_to w ≡ finished tt w'
  unfolding conclude
  conclude_lem respond_to c e = rw (e, ◌>>=◌)

  pub send_chunks-cons :
      (part : List ℕ) (parts : List (List ℕ)) (respond_to next : ℕ)
      → send_chunk order transmit part respond_to w ≡ finished next w'
      → send_chunks order transmit (part ∷ parts) respond_to w
        ≡ send_chunks order transmit parts next w'
  unfolding send_chunks
  send_chunks-cons part parts respond_to next e = rw (e, ◌>>=◌)

  pub send_chunks-nil :
      (respond_to : ℕ) → send_chunks order transmit [] respond_to w ≡ finished respond_to w
  unfolding send_chunks
  send_chunks-nil respond_to = refl

  pub mvp_send_lem :
      (bytes : List ℕ) (first : ℕ)
      → announce order transmit w ≡ finished first w'
      → mvp_send order transmit bytes w
        ≡ (send_chunks order transmit (chunks frame_buf_size bytes) first
              >>= conclude order transmit)
            w'
  unfolding mvp_send
  mvp_send_lem bytes first e = rw (e, ◌>>=◌)

  -- The part that a frame holds is read off its buffer.
  slice_padded :
      (part : List ℕ) → slice order transmit (length part) (padded part) w' ≡ finished part w'
  slice_padded part = ground (
    arith,
    take-append (length part) part (replicate {A = ℕ} (frame_buf_size - length part) 0) refl,
    length-append part (replicate {A = ℕ} (frame_buf_size - length part) 0),
  )

  -- `mvp_recv`: the first answer is a frame that holds `part`.
  pub mvp_recv_lem :
      (fuel : ℕ) (id : ℕ) (part : List ℕ)
      → Asks
          (cmd_packet (next_uid w.uid_gen) 0 rx)
          (frame_or_command complete)
          (part_packet id (next_uid w.uid_gen) part)
      → {all : List ℕ} {w'' : World S} → recv_rest order transmit fuel id part w' ≡ finished all w''
      → mvp_recv order transmit fuel w ≡ finished (some all) w''
  unfolding mvp_recv
  mvp_recv_lem fuel id part e r =
      bind-finished (send_and_wait order transmit _ (frame_or_command complete) max_attempts) _
        asked w' _ e
      ∙ (bind-finished (slice order transmit _ (padded part)) _ w' w' part (slice_padded part)
          ∙ bind-finished (recv_rest order transmit fuel id part) _ w' _ _ r)

  -- A round of its loop that reads a frame, and one that reads `Complete`.
  pub recv_rest-part :
      (fuel respond_to id : ℕ) (part buf : List ℕ)
      → Asks
          (cmd_packet (next_uid w.uid_gen) respond_to confirm)
          (frame_or_command complete)
          (part_packet id (next_uid w.uid_gen) part)
      → recv_rest order transmit (suc fuel) respond_to buf w
        ≡ recv_rest order transmit fuel id (buf ++ part) w'
  unfolding recv_rest
  recv_rest-part fuel respond_to id part buf e =
      bind-finished (send_and_wait order transmit _ (frame_or_command complete) max_attempts) _
        asked w' _ e
      ∙ bind-finished (slice order transmit _ (padded part)) _ w' w' part (slice_padded part)

  pub recv_rest-complete :
      (fuel respond_to : ℕ) (buf : List ℕ) (c : Cmd)
      → Asks
          (cmd_packet (next_uid w.uid_gen) respond_to confirm)
          (frame_or_command complete)
          (cmd c)
      → recv_rest order transmit (suc fuel) respond_to buf w ≡ finished buf w'
  unfolding recv_rest
  recv_rest-complete fuel respond_to buf c e = rw (e, ◌>>=◌)

  pub conclude-failed :
      (respond_to : ℕ) (e : SendError)
      → send_and_wait order transmit
          (cmd_packet (next_uid w.uid_gen) respond_to complete)
          (command confirm)
          max_attempts
          asked
        ≡ failed e w'
      → conclude order transmit respond_to w ≡ failed e w'
  unfolding conclude
  conclude-failed respond_to e h = rw (h, ◌>>=◌)

  pub mvp_send-nil :
      (first : ℕ)
      → announce order transmit w ≡ finished first w'
      → mvp_send order transmit [] w ≡ conclude order transmit first w'
  unfolding mvp_send send_chunks
  mvp_send-nil first e = rw (e, chunks-nil frame_buf_size, ◌>>=◌) refl
