-- ===== src/Squirrel/Packet.antt =====
-- The packets of haysel/squirrel/src/transport.rs. A field of w bits is a number below 2 ^ w, and a
-- byte array is a list of numbers; `Packet.IsValid` states these ranges.
use hayselnut.Common.{arith, ◌≢◌, ℕ, ◌+◌, ◌-◌, ◌%◌, ◌^◌, ◌<◌, List}

-- UDP_MAX_SIZE
abbrev pub udp_max_size : ℕ
udp_max_size = 508

abbrev pub packet_type_frame : ℕ
packet_type_frame = 0xAA

abbrev pub packet_type_command : ℕ
packet_type_command = 0xBB

-- FRAME_NON_DATA_SIZE
abbrev pub frame_non_data_size : ℕ
frame_non_data_size = 4 + 4 + 1 + 1 + 2

-- FRAME_BUF_SIZE
abbrev pub frame_buf_size : ℕ
frame_buf_size = udp_max_size - frame_non_data_size

pub record Frame : Type 0 where
  pub packet : ℕ
  pub responding_to : ℕ
  pub packet_ty : ℕ
  pub pad : ℕ
  pub len : ℕ
  pub bytes : List ℕ

pub record Cmd : Type 0 where
  pub packet : ℕ
  pub responding_to : ℕ
  pub packet_ty : ℕ
  pub command : ℕ
  pub padding : List ℕ

pub data CmdKind : Type 0 where
  tx rx confirm complete : CmdKind

-- `kind as u8`: the discriminants of `CmdKind`.
abbrev pub to_u8 : CmdKind → ℕ
to_u8 tx = 0
to_u8 rx = 1
to_u8 confirm = 2
to_u8 complete = 3

pub data Packet : Type 0 where
  cmd : Cmd → Packet
  frame : Frame → Packet

abbrev pub uid : Packet → ℕ
uid (cmd c) = c.packet
uid (frame f) = f.packet

abbrev pub responding_to : Packet → ℕ
responding_to (cmd c) = c.responding_to
responding_to (frame f) = f.responding_to

-- `UidGenerator::next`: `wrapping_add(1)` on the u32 inside; the new value is the uid.
pub next_uid : ℕ → ℕ
next_uid n = (n + 1) % 2 ^ 32

pub next_uid-lt : (n : ℕ) → next_uid n < 2 ^ 32
unfolding next_uid
next_uid-lt n = omega arith

-- Two uids in a row differ, where the generator wraps as well.
pub next_uid-ne : (n : ℕ) → next_uid n ≢ n
unfolding next_uid
next_uid-ne n e = omega arith
