-- ===== src/CsSquirrel/Uid.antt =====
-- Packet ids and their generator (haysel/cs_squirrel/src/packet/uid.rs).
use hayselnut.Common.{ℕ, ◌+◌, ◌%◌, ◌^◌}

-- The number that the four bytes hold: two ids are equal if their numbers are.
abbrev pub Uid : Type 0
Uid = ℕ

abbrev pub null : Uid
null = 0

pub record Seq : Type 0 where
  pub current : ℕ

abbrev pub new : Seq
new = record { current = 0 }

unfoldable pub next : Seq → Uid × Seq
next g = let current = (g.current + 1) % 2 ^ 32 in (current, record { current = current })
