-- ===== src/CsSquirrel/Packet.antt =====
-- Packets and the bytes that they are (haysel/cs_squirrel/src/packet.rs, packet/cmd.rs,
-- packet/frame.rs). The structs are `repr(C, align(1))`, so their fields follow one another without
-- padding; the bytes of a number are zerocopy's network_endian, of which `ByteOrder` is what the code
-- relies on.
pub mod Written
pub mod Answers
pub mod Bytes
pub mod Reading
pub mod RoundTrip
use hayselnut.Common.{
  ℕ, ◌+◌, ◌^◌, List, [], ◌∷◌, ◌++◌, ◌==◌, ltb, leb, if◌then◌else◌, length, take, drop, get_elem?,
  get_or, Option, none, some, Outcome, returns, panics,
}
use hayselnut.Squirrel.Wire.{ByteOrder}
use hayselnut.CsSquirrel.Uid.{Uid}

pub data Error : Type 0 where
  too_small_write too_small_read_header too_small_read_data bad_type bad_command : Error

pub data Result (A : Type 0) : Type 0 where
  ok : A → Result A
  err : Error → Result A

abbrev pub unwrap : {A : Type 0} → Result A → Outcome A
unwrap (ok a) = returns a
unwrap (err e) = panics

-- `Type`
pub data PacketType : Type 0 where
  frame_type command_type : PacketType

abbrev pub type_byte : PacketType → ℕ
type_byte frame_type = 0xAA
type_byte command_type = 0xBB

abbrev pub type_of : ℕ → Result PacketType
type_of raw =
    if raw == 0xAA then ok frame_type else if raw == 0xBB then ok command_type else err bad_type

unfoldable pub extract : List ℕ → Result PacketType
extract from = elim (get_elem? from 8) [ some raw ↦ type_of raw | none ↦ err too_small_read_header ]

pub record Head : Type 0 where
  pub packet : Uid
  pub responding_to : Uid
  pub packet_ty : ℕ

unfoldable pub ty : Head → Result PacketType
ty head = type_of head.packet_ty

pub record Cmd : Type 0 where
  pub head : Head
  pub command : ℕ

pub data CmdKind : Type 0 where
  tx rx confirm complete : CmdKind

abbrev pub kind_byte : CmdKind → ℕ
kind_byte tx = 0
kind_byte rx = 1
kind_byte confirm = 2
kind_byte complete = 3

unfoldable pub kind : Cmd → Result CmdKind
kind cmd =
    if cmd.command == 0
    then ok tx
    else if cmd.command == 1
    then ok rx
    else if cmd.command == 2
    then ok confirm
    else if cmd.command == 3
    then ok complete
    else err bad_command

pub record Frame : Type 0 where
  pub head : Head
  pub len : ℕ
  pub data_bytes : List ℕ

-- `Frame::data`
unfoldable pub data_of : Frame → Result (List ℕ)
data_of f =
    if leb f.len (length f.data_bytes)
    then ok (take f.len f.data_bytes)
    else err too_small_read_data

pub data Read : Type 0 where
  cmd : Cmd → Read
  frame : Frame → Read

abbrev pub head_of : Read → Head
head_of (cmd c) = c.head
head_of (frame f) = f.head

-- The size of a head, of a command, and of the part of a frame before its data.
abbrev pub size_of_head : ℕ
size_of_head = 9

abbrev pub size_of_cmd : ℕ
size_of_cmd = 10

abbrev pub size_of_header : ℕ
size_of_header = 11

-- A store of bytes at an offset of a buffer that has room for them.
unfoldable pub write_at : ℕ → List ℕ → List ℕ → List ℕ
write_at i bytes buf = take i buf ++ (bytes ++ drop (i + length bytes) buf)

module _ (order : ByteOrder) where
  open order use {u32_bytes, u32_read, u16_bytes, u16_read}

  abbrev pub head_at : List ℕ → Head
  head_at buf = record {
    packet = u32_read (take 4 buf);
    responding_to = u32_read (take 4 (drop 4 buf));
    packet_ty = get_or buf 8 0;
  }

  -- `Cmd::ref_from_prefix`
  unfoldable pub cmd_from_prefix : List ℕ → Option Cmd
  cmd_from_prefix buf =
      if leb size_of_cmd (length buf)
      then some (record { head = head_at buf; command = get_or buf 9 0 })
      else none

  -- `Frame::ref_buf`
  unfoldable pub ref_buf : List ℕ → Result Frame
  ref_buf buf =
      if ltb (length buf) size_of_header
      then err too_small_read_header
      else ok (record {
        head = head_at buf;
        len = u16_read (take 2 (drop 9 buf));
        data_bytes = drop size_of_header buf;
      })

  unfoldable pub try_read : List ℕ → Result Read
  try_read buf = elim (extract buf) [
    | err e ↦ err e
    | ok frame_type ↦ elim (ref_buf buf) [ ok f ↦ ok (frame f) | err e ↦ err e ]
    | ok command_type ↦ elim (cmd_from_prefix buf) [
      | some c ↦ ok (cmd c)
      | none ↦ err too_small_read_header
    ]
  ]

  -- A `Write` is the buffer that it borrows.
  unfoldable pub new : List ℕ → Option (List ℕ)
  new buf = if ltb (length buf) size_of_head then none else some buf

  unfoldable pub with_packet : Uid → List ℕ → Outcome (List ℕ)
  with_packet id inner =
      if leb size_of_head (length inner) then returns (write_at 0 (u32_bytes id) inner) else panics

  unfoldable pub with_responding_to : Uid → List ℕ → Outcome (List ℕ)
  with_responding_to id inner =
      if leb size_of_head (length inner) then returns (write_at 4 (u32_bytes id) inner) else panics

  -- `Frame::new`: the conversion of the length to a u16 panics where it does not fit.
  unfoldable pub frame_new : List ℕ → List ℕ → Outcome (Result (List ℕ))
  frame_new buf bytes =
      if ltb (length buf) (size_of_header + length bytes)
      then returns (err too_small_write)
      else if ltb (length bytes) (2 ^ 16)
      then returns (ok (write_at 9 (u16_bytes (length bytes) ++ bytes) buf))
      else panics

  unfoldable pub write_frame_with : List ℕ → List ℕ → Outcome (Result (List ℕ))
  write_frame_with bytes inner = elim (frame_new inner bytes) [
    | returns (ok buf) ↦ returns (ok (write_at 8 (0xAA ∷ []) buf))
    | returns (err e) ↦ returns (err e)
    | panics ↦ panics
  ]

  unfoldable pub write_cmd : CmdKind → List ℕ → Result (List ℕ)
  write_cmd k inner =
      if leb size_of_cmd (length inner)
      then ok (write_at 9 (kind_byte k ∷ []) (write_at 8 (0xBB ∷ []) inner))
      else err too_small_read_header

  unfoldable pub portion_to_send : List ℕ → Outcome (List ℕ)
  portion_to_send inner = elim (extract inner) [
    | err e ↦ panics
    | ok command_type ↦
        if leb size_of_cmd (length inner) then returns (take size_of_cmd inner) else panics
    | ok frame_type ↦ elim (ref_buf inner) [
      | err e ↦ panics
      | ok f ↦ elim (data_of f) [
        | err e ↦ panics
        | ok bytes ↦ returns (take (size_of_header + length bytes) inner)
      ]
    ]
  ]
