-- ===== src/Protocol.antt =====
-- include/protocol.h and src/protocol.c: the binary frames between the gateway and its devices,
-- and the byte image of a frame that `send_frame_raw` of src/gateway.c puts on the wire.
pub mod Checksum
pub mod Wire
pub mod RoundTrip
pub mod Prefix
pub mod Reprint
pub mod Corruption
pub mod Tests
use Prim.Native.Nat.{bit_xor}
use linux_file_manager.Prelude.{
  ℕ, ◌+◌, ◌-◌, ◌*◌, ◌/◌, ◌%◌, Bool, ◌&&◌, Option, none, some, List, [], ◌∷◌, ◌++◌, ltb, ◌==◌,
  if◌then◌else◌, length, get_or, take, drop, memcpy,
}

abbrev pub proto_magic_1 : ℕ
proto_magic_1 = 0xaa

abbrev pub proto_magic_2 : ℕ
proto_magic_2 = 0x55

abbrev pub proto_header_size : ℕ
proto_header_size = 8

abbrev pub proto_checksum_size : ℕ
proto_checksum_size = 1

abbrev pub proto_max_payload : ℕ
proto_max_payload = 512

abbrev pub proto_frame_max : ℕ
proto_frame_max = proto_header_size + proto_max_payload + proto_checksum_size

-- The packed header; `seq` and `payload_len` are 16-bit.
pub record ProtoHeader : Type 0 where
  pub magic1 : ℕ
  pub magic2 : ℕ
  pub cmd : ℕ
  pub flags : ℕ
  pub seq : ℕ
  pub payload_len : ℕ

-- `payload` is the whole 512-byte array, whose bytes past `payload_len` keep what they held.
pub record ProtoFrame : Type 0 where
  pub header : ProtoHeader
  pub payload : List ℕ
  pub checksum : ℕ
  pub total_len : ℕ

-- `payload` is the `payload_len` bytes at the source's pointer into the receive buffer.
pub record ProtoMessage : Type 0 where
  pub cmd : ℕ
  pub flags : ℕ
  pub seq : ℕ
  pub payload : List ℕ
  pub payload_len : ℕ

-- The bytes of a packed header on a little-endian host (`memcpy` out of the struct).
unfoldable pub header_bytes : ProtoHeader → List ℕ
header_bytes h =
    h.magic1
    ∷ h.magic2
    ∷ h.cmd
    ∷ h.flags
    ∷ h.seq % 256
    ∷ h.seq / 256
    ∷ h.payload_len % 256
    ∷ h.payload_len / 256
    ∷ []

-- `memcpy` of eight bytes into a header struct.
unfoldable pub read_header : List ℕ → ProtoHeader
read_header raw = record {
  magic1 = get_or raw 0 0;
  magic2 = get_or raw 1 0;
  cmd = get_or raw 2 0;
  flags = get_or raw 3 0;
  seq = get_or raw 4 0 + 256 * get_or raw 5 0;
  payload_len = get_or raw 6 0 + 256 * get_or raw 7 0;
}

unfoldable pub checksum_from : ℕ → List ℕ → ℕ
checksum_from cs [] = cs
checksum_from cs (b ∷ bs) = checksum_from (bit_xor cs b) bs

unfoldable pub proto_checksum : List ℕ → ℕ → ℕ
unfolding checksum_from
proto_checksum bytes len = checksum_from 0 (take len bytes)

unfoldable pub proto_verify_magic : List ℕ → Bool
proto_verify_magic raw = get_or raw 0 0 == proto_magic_1 && get_or raw 1 0 == proto_magic_2

pub proto_frame_len : ProtoFrame → ℕ
proto_frame_len f = proto_header_size + f.header.payload_len + proto_checksum_size

-- `if (payload && payload_len > 0) memcpy(dst + off, payload, payload_len)`
unfoldable pub copy_payload : List ℕ → ℕ → Option (List ℕ) → ℕ → List ℕ
copy_payload dst off none len = dst
copy_payload dst off (some p) len = if ltb 0 len then memcpy dst off p len else dst

-- The filled frame; `temp` is what the local `temp_buf` holds before it is written.
unfoldable pub fill_frame : List ℕ → ProtoFrame → ℕ → ℕ → ℕ → Option (List ℕ) → ℕ → ProtoFrame
fill_frame temp frame cmd flags seq payload payload_len = record {
  header = hdr;
  payload = copy_payload frame.payload 0 payload payload_len;
  checksum =
      proto_checksum
        (copy_payload (memcpy temp 0 (header_bytes hdr) proto_header_size) proto_header_size payload
          payload_len)
        (proto_header_size + payload_len);
  total_len = proto_header_size + payload_len + proto_checksum_size;
}
  where
    hdr : ProtoHeader
    hdr = record {
      magic1 = proto_magic_1;
      magic2 = proto_magic_2;
      cmd = cmd;
      flags = flags;
      seq = seq;
      payload_len = payload_len;
    }

-- `none` for the result -1, which leaves `*frame` as it was. The result is `total_len`.
unfoldable pub proto_build_frame :
    List ℕ → Option ProtoFrame → ℕ → ℕ → ℕ → Option (List ℕ) → ℕ → Option ProtoFrame
proto_build_frame temp none cmd flags seq payload payload_len = none
proto_build_frame temp (some frame) cmd flags seq payload payload_len =
    if ltb proto_max_payload payload_len
    then none
    else some (fill_frame temp frame cmd flags seq payload payload_len)

-- What `send_frame_raw` hands to `send`: the first `frame_len` bytes of its buffer.
unfoldable pub frame_bytes : ProtoFrame → List ℕ
frame_bytes f = header_bytes f.header ++ (take f.header.payload_len f.payload ++ f.checksum ∷ [])

-- The result 0, the result -1, and a frame length with the message that is filled in.
pub data ParseResult : Type 0 where
  incomplete : ParseResult
  invalid : ParseResult
  parsed : ℕ → ProtoMessage → ParseResult

unfoldable pub message_of : List ℕ → ProtoMessage
message_of raw = record {
  cmd = hdr.cmd;
  flags = hdr.flags;
  seq = hdr.seq;
  payload = take hdr.payload_len (drop proto_header_size raw);
  payload_len = hdr.payload_len;
}
  where
    hdr : ProtoHeader
    hdr = read_header raw

-- From `frame_len` on: the length check, the checksum, the message.
unfoldable pub parse_sized : List ℕ → ℕ → ParseResult
parse_sized raw frame_len =
    if ltb (length raw) frame_len
    then incomplete
    else if proto_checksum raw (frame_len - proto_checksum_size)
        == get_or raw (frame_len - proto_checksum_size) 0
    then parsed frame_len (message_of raw)
    else invalid

unfoldable pub parse_raw : List ℕ → ParseResult
parse_raw raw =
    if ltb (length raw) proto_header_size
    then incomplete
    else if proto_verify_magic raw
    then parse_sized raw (proto_header_size + (read_header raw).payload_len + proto_checksum_size)
    else invalid

-- `raw` is the `raw_len` bytes at the pointer, `none` for NULL.
unfoldable pub proto_parse_frame : Option (List ℕ) → ParseResult
proto_parse_frame none = incomplete
proto_parse_frame (some raw) = parse_raw raw
