-- ===== src/Protocol/Prefix.antt =====
-- `proto_parse_frame` of src/protocol.c on a growing receive buffer: its bounds, and what more
-- bytes behind the frame change.
use linux_file_manager.Prelude.{
  List, [], arith, drop, drop-append_le, get_or, get_or-append_lt, length, length-append,
  length-drop, length-take, ltb-false, lt→ltb, refl, take, take-append_le, true, ℕ, ◌++◌, ◌+◌, ◌-◌,
  ◌<◌, ◌∷◌, ◌≡◌, ◌≢◌, ◌≤◌,
}
use linux_file_manager.Protocol.{
  ProtoMessage, incomplete, invalid, message_of, parse_raw, parse_sized, parsed, proto_checksum,
  proto_magic_1, proto_verify_magic, read_header,
}

module _ (raw more : List ℕ) where
  read_header-append : 8 ≤ length raw → read_header (raw ++ more) ≡ read_header raw
  unfolding read_header
  read_header-append h = rw (
    get_or-append_lt raw more 0 0 (omega arith),
    get_or-append_lt raw more 1 0 (omega arith),
    get_or-append_lt raw more 2 0 (omega arith),
    get_or-append_lt raw more 3 0 (omega arith),
    get_or-append_lt raw more 4 0 (omega arith),
    get_or-append_lt raw more 5 0 (omega arith),
    get_or-append_lt raw more 6 0 (omega arith),
    get_or-append_lt raw more 7 0 (omega arith),
  )

  proto_verify_magic-append :
      8 ≤ length raw → proto_verify_magic (raw ++ more) ≡ proto_verify_magic raw
  unfolding proto_verify_magic
  proto_verify_magic-append h =
      rw (get_or-append_lt raw more 0 0 (omega arith), get_or-append_lt raw more 1 0 (omega arith))

  message_of-append :
      8 + (read_header raw).payload_len ≤ length raw → message_of (raw ++ more) ≡ message_of raw
  unfolding message_of
  message_of-append h = rw (
    read_header-append (omega arith),
    drop-append_le 8 raw more (omega arith),
    take-append_le (read_header raw).payload_len (drop 8 raw) more
        (omega (arith, length-drop 8 raw)),
  )

  parse_sized-append :
      (len : ℕ)
      → len ≡ 8 + (read_header raw).payload_len + 1
      → len ≤ length raw
      → parse_sized (raw ++ more) len ≡ parse_sized raw len
  unfolding parse_sized proto_checksum
  parse_sized-append len e h = rw (
    ltb-false (length (raw ++ more)) len (omega (arith, length-append raw more)),
    ltb-false (length raw) len h,
    take-append_le (len - 1) raw more (omega arith),
    get_or-append_lt raw more (len - 1) 0 (omega arith),
    message_of-append (omega arith),
  )

parse_sized_short : (raw : List ℕ) (len : ℕ) → length raw < len → parse_sized raw len ≡ incomplete
unfolding parse_sized
parse_sized_short raw len h = rw (lt→ltb (length raw) len h)

-- A frame that parses on a buffer is settled: more bytes behind it change nothing, and neither do
-- they turn an invalid start into a valid one.
pub parse_raw-append :
    (raw more : List ℕ) → parse_raw raw ≢ incomplete → parse_raw (raw ++ more) ≡ parse_raw raw
unfolding parse_raw
parse_raw-append raw more h = ground (
  arith,
  length-append raw more,
  read_header-append raw more,
  proto_verify_magic-append raw more,
  parse_sized-append raw more (8 + (read_header raw).payload_len + 1),
  parse_sized_short raw (8 + (read_header raw).payload_len + 1),
)

-- What holds of a buffer whose start parses as a frame of `n` bytes.
pub record Accepts (raw : List ℕ) (n : ℕ) (m : ProtoMessage) : Type 0 where
  pub size : n ≡ 8 + (read_header raw).payload_len + 1
  pub within : n ≤ length raw
  pub magic : proto_verify_magic raw ≡ true
  pub sum : proto_checksum raw (n - 1) ≡ get_or raw (n - 1) 0
  pub message : m ≡ message_of raw

pub parse_raw-Accepts :
    (raw : List ℕ) (n : ℕ) (m : ProtoMessage) → parse_raw raw ≡ parsed n m → Accepts raw n m
unfolding parse_raw parse_sized
parse_raw-Accepts raw n m e = ground arith

-- A parsed frame lies inside the received bytes: its length is the header, the payload and the
-- checksum, and the message's payload is the `payload_len` bytes behind the header.
pub parse_raw_bounds :
    (raw : List ℕ) (n : ℕ) (m : ProtoMessage)
    → parse_raw raw ≡ parsed n m
    → (n ≡ 8 + m.payload_len + 1)
      × (n ≤ length raw)
      × (m.payload ≡ take m.payload_len (drop 8 raw))
      × (length m.payload ≡ m.payload_len)
unfolding parse_raw parse_sized message_of
parse_raw_bounds raw n m e =
    ground (arith, length-take (read_header raw).payload_len (drop 8 raw), length-drop 8 raw)

pub parse_raw_nil : parse_raw [] ≡ incomplete
unfolding parse_raw
parse_raw_nil = refl

-- An invalid start takes at least a header to see.
pub parse_raw_invalid : (raw : List ℕ) → parse_raw raw ≡ invalid → 8 ≤ length raw
unfolding parse_raw
parse_raw_invalid raw e = ground arith

-- A byte that is not the first magic byte is no start of a frame.
pub parse_raw_noise :
    (b : ℕ) (bs : List ℕ) → b ≢ proto_magic_1 → 7 ≤ length bs → parse_raw (b ∷ bs) ≡ invalid
unfolding parse_raw proto_verify_magic
parse_raw_noise b bs ne h = ground arith
