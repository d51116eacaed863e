-- ===== src/Squirrel/Link.antt =====
-- A client and a server joined by a network that loses packets: each packet that the client sends,
-- and the answer to it, meet a fate. A lost answer makes the client send again, so the server sees
-- repetitions. Datagrams go through `recv_next_packet` of
-- haysel/squirrel/src/transport/server.rs.
pub mod Exchange
pub mod Upload
pub mod Download
pub mod Empty
use hayselnut.Common.{
  ℕ, List, [], ◌∷◌, ◌++◌, true, ltb, if◌then◌else◌, length, Option, none, some, returns, panics,
}
use hayselnut.Squirrel.Packet.{Packet, udp_max_size}
use hayselnut.Squirrel.Wire.{ByteOrder, as_bytes, read_packet}
use hayselnut.Squirrel.Server.{ClientInterface, DispatchEvent, send, timed_out, received, handle}
use hayselnut.Squirrel.Shared.{Arrival, datagram}

-- The packet is lost; or it is handled at a time and the answer is lost; or both arrive.
pub data Fate : Type 0 where
  request_lost : Fate
  reply_lost : ℕ → Fate
  delivered : ℕ → Fate

-- `log` is what the server's application has been told.
pub record Link : Type 0 where
  pub server : ClientInterface
  pub fates : List Fate
  pub log : List DispatchEvent

-- What the application is told of, and what goes back to the client.
abbrev pub told : List DispatchEvent → List DispatchEvent
told [] = []
told (send p ∷ events) = told events
told (timed_out ∷ events) = timed_out ∷ told events
told (received bytes ∷ events) = received bytes ∷ told events

module _ (order : ByteOrder) where
  -- `recv_next_packet`, with the sender left out: `bytes` is what `recv_from` has put in the buffer.
  pub recv_next_packet : List ℕ → Option Packet
  recv_next_packet bytes = if ltb udp_max_size (length bytes) then none else read_packet order bytes

  pub sent_back : List DispatchEvent → List Arrival
  sent_back [] = []
  sent_back (send p ∷ events) = elim (as_bytes order p) [
    | returns bytes ↦ datagram true bytes ∷ sent_back events
    | panics ↦ sent_back events
  ]
  sent_back (timed_out ∷ events) = sent_back events
  sent_back (received bytes ∷ events) = sent_back events

  -- The server handles a datagram. One that it cannot read, or that makes it panic, has no answer.
  pub serve : Link → ℕ → List ℕ → Link × List Arrival
  serve l now bytes = elim (recv_next_packet bytes) [
    | none ↦ (l, [])
    | some p ↦ elim (handle l.server now p) [
      | returns (c, events) ↦
          (record l { server = c; log = l.log ++ told events }, sent_back events)
      | panics ↦ (l, [])
    ]
  ]

  meet : Link → List ℕ → List Fate → Link × List Arrival
  meet l bytes [] = (l, [])
  meet l bytes (request_lost ∷ rest) = (record l { fates = rest }, [])
  meet l bytes (reply_lost now ∷ rest) = ((serve (record l { fates = rest }) now bytes).0, [])
  meet l bytes (delivered now ∷ rest) = serve (record l { fates = rest }) now bytes

  pub transmit : Link → List ℕ → Option (Link × List Arrival)
  unfolding meet
  transmit l bytes = some (meet l bytes l.fates)
