-- ===== src/Squirrel/Wire.antt =====
-- Packets as bytes (haysel/squirrel/src/transport.rs): `as_bytes`, `as_bytes_compact`,
-- `from_bytes_compact` and `read_packet`. A packet is a `repr(C)` struct that zerocopy views as bytes,
-- so the bytes of an integer are those of the machine: `ByteOrder` is what the code relies on.
pub mod RoundTrip
use mathlib.Core.Option
use hayselnut.Common.{
  ℕ, ◌+◌, ◌-◌, ◌^◌, ◌≤◌, ◌<◌, ◌≡◌, List, ◌∷◌, ◌++◌, ◌||◌, ◌==◌, ltb, leb, if◌then◌else◌, length,
  replicate, take, drop, get_elem?, get_or, Option, none, some, Outcome, returns, panics,
}
use hayselnut.Squirrel.Packet.{
  Packet, cmd, frame, Cmd, Frame, udp_max_size, frame_non_data_size, frame_buf_size,
  packet_type_frame, packet_type_command,
}

-- The bytes of a u32 and of a u16 in memory: as many as the width says, and no information lost.
pub record ByteOrder : Type 0 where
  pub u32_bytes : ℕ → List ℕ
  pub u32_read : List ℕ → ℕ
  pub u16_bytes : ℕ → List ℕ
  pub u16_read : List ℕ → ℕ
  pub u32_length : (n : ℕ) → length (u32_bytes n) ≡ 4
  pub u16_length : (n : ℕ) → length (u16_bytes n) ≡ 2
  pub u32_exact : (n : ℕ) → n < 2 ^ 32 → u32_read (u32_bytes n) ≡ n
  pub u16_exact : (n : ℕ) → n < 2 ^ 16 → u16_read (u16_bytes n) ≡ n

-- `extract_packet_type`
unfoldable pub extract_packet_type : List ℕ → Option ℕ
extract_packet_type bytes = get_elem? bytes 8

module _ (order : ByteOrder) where
  open order use {u32_bytes, u32_read, u16_bytes, u16_read}

  -- `Frame::as_bytes`: the fields in the order of their declaration, with no padding between.
  unfoldable pub frame_bytes : Frame → List ℕ
  frame_bytes f =
      u32_bytes f.packet
      ++ (u32_bytes f.responding_to ++ (f.packet_ty ∷ f.pad ∷ (u16_bytes f.len ++ f.bytes)))

  -- `Frame::read_from` at a buffer of the frame's size.
  unfoldable pub frame_read : List ℕ → Frame
  frame_read bytes =
      let after_packet = drop 4 bytes in
      let after_uids = drop 4 after_packet in
      let after_pad = drop 2 after_uids in
      record {
        packet = u32_read (take 4 bytes);
        responding_to = u32_read (take 4 after_packet);
        packet_ty = get_or after_uids 0 0;
        pad = get_or after_uids 1 0;
        len = u16_read (take 2 after_pad);
        bytes = drop 2 after_pad;
      }

  unfoldable pub cmd_bytes : Cmd → List ℕ
  cmd_bytes c =
      u32_bytes c.packet ++ (u32_bytes c.responding_to ++ (c.packet_ty ∷ c.command ∷ c.padding))

  -- `Cmd::read_from`: the buffer must have exactly the size of a command.
  unfoldable pub cmd_read_from : List ℕ → Option Cmd
  cmd_read_from bytes =
      let after_packet = drop 4 bytes in
      let after_uids = drop 4 after_packet in
      if length bytes == 12
      then some (record {
        packet = u32_read (take 4 bytes);
        responding_to = u32_read (take 4 after_packet);
        packet_ty = get_or after_uids 0 0;
        command = get_or after_uids 1 0;
        padding = drop 2 after_uids;
      })
      else none

  unfoldable pub from_bytes_compact : List ℕ → Option Frame
  from_bytes_compact bytes =
      if ltb (length bytes) frame_non_data_size || ltb udp_max_size (length bytes)
      then none
      else some (frame_read (bytes ++ replicate (udp_max_size - length bytes) 0))

  -- The slice `[0..FRAME_NON_DATA_SIZE + len]` panics when it is out of range.
  unfoldable pub as_bytes_compact : Frame → Outcome (List ℕ)
  as_bytes_compact f =
      if leb (frame_non_data_size + f.len) (length (frame_bytes f))
      then returns (take (frame_non_data_size + f.len) (frame_bytes f))
      else panics

  -- `Packet::as_bytes`
  unfoldable pub as_bytes : Packet → Outcome (List ℕ)
  unfolding as_bytes_compact cmd_bytes
  as_bytes (cmd c) = returns (cmd_bytes c)
  as_bytes (frame f) = as_bytes_compact f

  read_as : List ℕ → Option ℕ → Option Packet
  read_as bytes none = none
  read_as bytes (some ty) =
      if ty == packet_type_frame
      then Option.map frame (from_bytes_compact bytes)
      else if ty == packet_type_command
      then Option.map cmd (cmd_read_from bytes)
      else none

  unfoldable pub read_packet : List ℕ → Option Packet
  unfolding read_as
  read_packet bytes = read_as bytes (extract_packet_type bytes)

-- The fields have their widths, the type byte is that of the variant, a frame's length fits its
-- buffer, and the buffer is zero behind its length.
pub record CmdIsValid (c : Cmd) : Type 0 where
  pub packet_u32 : c.packet < 2 ^ 32
  pub responding_u32 : c.responding_to < 2 ^ 32
  pub typed : c.packet_ty ≡ packet_type_command
  pub padded : length c.padding ≡ 2

pub record FrameIsValid (f : Frame) : Type 0 where
  pub packet_u32 : f.packet < 2 ^ 32
  pub responding_u32 : f.responding_to < 2 ^ 32
  pub typed : f.packet_ty ≡ packet_type_frame
  pub len_fits : f.len ≤ frame_buf_size
  pub sized : length f.bytes ≡ frame_buf_size
  pub zeroed : drop f.len f.bytes ≡ replicate (frame_buf_size - f.len) 0

abbrev pub IsValid : Packet → Type 0
IsValid (cmd c) = CmdIsValid c
IsValid (frame f) = FrameIsValid f
