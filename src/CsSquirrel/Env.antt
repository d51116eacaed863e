-- ===== src/CsSquirrel/Env.antt =====
-- The network parameters of a connection (haysel/cs_squirrel/src/env.rs).
use hayselnut.Common.{ℕ}

abbrev pub udp_max_packet_size : ℕ
udp_max_packet_size = 508

pub record Env : Type 0 where
  -- The size of the largest valid packet for the transport below.
  pub max_packet_size : ℕ

abbrev pub for_udp : Env
for_udp = record { max_packet_size = udp_max_packet_size }
