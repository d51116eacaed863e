-- ===== src/Squirrel/Client.antt =====
-- The client's transfers: `mvp_send` and `mvp_recv` of haysel/squirrel/src/transport/client.rs. Its
-- `assert!`s on the peer's address say that the socket is connected, as `transmit` takes it to be.
pub mod Chunks
pub mod Steps
use hayselnut.Common.{
  ℕ, zero, suc, ◌-◌, List, [], ◌∷◌, ◌++◌, leb, if◌then◌else◌, length, take, drop, replicate, Option,
  none, some,
}
use hayselnut.Squirrel.Packet.{Packet, cmd, frame, Cmd, tx, rx, confirm, complete, frame_buf_size}
use hayselnut.Squirrel.Wire.{ByteOrder}
use hayselnut.Squirrel.Server.{cmd_packet, frame_packet}
use hayselnut.Squirrel.Shared.{
  Arrival, ExpectedResponse, frame_or_command, command, Action, finished, panicked, out_of_fuel,
  pure, ◌>>=◌, fresh_uid, send_and_wait,
}

abbrev pub max_attempts : ℕ
max_attempts = 5

-- `slice::chunks`, on fuel: the length of the list is enough.
pub chunks_from : ℕ → ℕ → List ℕ → List (List ℕ)
chunks_from size zero xs = []
chunks_from size (suc fuel) [] = []
chunks_from size (suc fuel) (x ∷ xs) =
    take size (x ∷ xs) ∷ chunks_from size fuel (drop size (x ∷ xs))

unfoldable pub chunks : ℕ → List ℕ → List (List ℕ)
unfolding chunks_from
chunks size xs = chunks_from size (length xs) xs

module _ (order : ByteOrder) {S : Type 0} (transmit : S → List ℕ → Option (S × List Arrival)) where
  abbrev ask : Packet → ExpectedResponse → Action S Packet
  ask to expected = send_and_wait order transmit to expected max_attempts

  -- `let Packet::Cmd(c) = … else { unreachable!() }`
  abbrev pub expect_cmd : Packet → Action S Cmd
  expect_cmd (cmd c) w = finished c w
  expect_cmd (frame f) w = panicked

  -- The first exchange of `mvp_send`: `Tx`, answered by `Confirm`.
  pub announce : Action S ℕ
  announce = do
    id ← fresh_uid
    p ← ask (cmd_packet id 0 tx) (command confirm)
    c ← expect_cmd p
    pure c.packet

  -- One round of the loop of `mvp_send`.
  pub send_chunk : List ℕ → ℕ → Action S ℕ
  send_chunk chunk respond_to = do
    id ← fresh_uid
    p ←
        ask
          (frame_packet id respond_to (length chunk)
            (chunk ++ replicate (frame_buf_size - length chunk) 0))
          (command confirm)
    c ← expect_cmd p
    pure c.packet

  pub send_chunks : List (List ℕ) → ℕ → Action S ℕ
  send_chunks [] respond_to = pure respond_to
  send_chunks (chunk ∷ rest) respond_to = do
    next ← send_chunk chunk respond_to
    send_chunks rest next

  -- The last exchange: `Complete`, answered by `Confirm`.
  pub conclude : ℕ → Action S (Unit {0})
  conclude respond_to = do
    id ← fresh_uid
    p ← ask (cmd_packet id respond_to complete) (command confirm)
    c ← expect_cmd p
    pure tt

  pub mvp_send : List ℕ → Action S (Unit {0})
  mvp_send bytes = do
    first ← announce
    last ← send_chunks (chunks frame_buf_size bytes) first
    conclude last

  -- `&f.data[0..f.len]`, which panics when it is out of range.
  abbrev pub slice : ℕ → List ℕ → Action S (List ℕ)
  slice len bytes w = if leb len (length bytes) then finished (take len bytes) w else panicked

  -- The loop of `mvp_recv`, on fuel: each round confirms the last frame and reads the next.
  pub recv_rest : ℕ → ℕ → List ℕ → Action S (List ℕ)
  recv_rest zero respond_to buf = λ w. out_of_fuel
  recv_rest (suc fuel) respond_to buf = do
    id ← fresh_uid
    p ← ask (cmd_packet id respond_to confirm) (frame_or_command complete)
    elim p [
      | cmd c ↦ pure buf
      | frame f ↦ do bytes ← slice f.len f.bytes; recv_rest fuel f.packet (buf ++ bytes)
    ]

  -- `none` is returned where the server answers `Rx` by `Complete`.
  pub mvp_recv : ℕ → Action S (Option (List ℕ))
  mvp_recv fuel = do
    id ← fresh_uid
    p ← ask (cmd_packet id 0 rx) (frame_or_command complete)
    elim p [
      | cmd c ↦ pure none
      | frame f ↦ do
        first ← slice f.len f.bytes
        all ← recv_rest fuel f.packet first
        pure (some all)
    ]
