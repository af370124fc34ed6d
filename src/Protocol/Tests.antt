-- ===== src/Protocol/Tests.antt =====
-- The frame format of src/protocol.c at concrete frames.
use mathlib.Core.Option
use linux_file_manager.Prelude.{
  All, IsByte, List, [], arith, none, refl, set, some, take, ℕ, ◌++◌, ◌+◌, ◌<◌, ◌∷◌, ◌≡◌, ◌≤◌, ◌⊎◌,
}
use linux_file_manager.Protocol.{
  ProtoFrame, ProtoMessage, copy_payload, fill_frame, frame_bytes, header_bytes, incomplete,
  invalid, message_of, parse_raw, parse_sized, parsed, proto_build_frame, proto_checksum,
  proto_frame_len, proto_parse_frame, proto_verify_magic, read_header,
}
use linux_file_manager.Protocol.RoundTrip.{parse-build_frame, proto_build_frame_cases}
use linux_file_manager.Protocol.Reprint.{parse_raw-reprint}
use linux_file_manager.Protocol.Corruption.{parse_raw-set}

abbrev old_frame : ProtoFrame
old_frame = record {
  header = record { magic1 = 9; magic2 = 9; cmd = 9; flags = 9; seq = 9; payload_len = 9 };
  payload = 9 ∷ 9 ∷ 9 ∷ [];
  checksum = 9;
  total_len = 9;
}

abbrev ping_bytes : List ℕ
ping_bytes = 0xaa ∷ 0x55 ∷ 1 ∷ 2 ∷ 7 ∷ 0 ∷ 0 ∷ 0 ∷ 0xfb ∷ []

abbrev ping_message : ProtoMessage
ping_message = record { cmd = 1; flags = 2; seq = 7; payload = []; payload_len = 0 }

build_ping :
    Option.map frame_bytes (proto_build_frame (5 ∷ []) (some old_frame) 1 2 7 none 0)
    ≡ some ping_bytes
unfolding proto_build_frame fill_frame frame_bytes header_bytes proto_checksum copy_payload
build_ping = refl

parse_ping : parse_raw ping_bytes ≡ parsed 9 ping_message
unfolding parse_raw parse_sized message_of read_header proto_verify_magic proto_checksum
parse_ping = refl

parse_short : parse_raw (0xaa ∷ 0x55 ∷ 1 ∷ 2 ∷ 7 ∷ 0 ∷ 3 ∷ 0 ∷ 1 ∷ []) ≡ incomplete
unfolding parse_raw parse_sized read_header proto_verify_magic
parse_short = refl

parse-build_frame_example :
    (f : ProtoFrame) × (proto_build_frame [] (some old_frame) 0x20 0 258 (some (7 ∷ 1 ∷ 5 ∷ [])) 2
      ≡ some f)
    × (proto_parse_frame (some (frame_bytes f ++ 0xaa ∷ []))
        ≡ parsed f.total_len
            (record { cmd = 0x20; flags = 0; seq = 258; payload = 7 ∷ 1 ∷ []; payload_len = 2 }))
parse-build_frame_example =
    parse-build_frame [] old_frame 0x20 0 258 (some (7 ∷ 1 ∷ 5 ∷ [])) 2 (0xaa ∷ []) (omega arith)
      (omega arith)

proto_build_frame_cases_example :
    ((proto_build_frame [] (some old_frame) 1 2 7 none 600 ≡ none)
      × ((some old_frame ≡ none) ⊎ (512 < 600)))
    ⊎ ((f : ProtoFrame) × (proto_build_frame [] (some old_frame) 1 2 7 none 600 ≡ some f)
        × (f.total_len ≡ 600 + 9)
        × (proto_frame_len f ≡ f.total_len)
        × (f.total_len ≤ 521)
        × (600 ≤ 512))
proto_build_frame_cases_example = proto_build_frame_cases [] (some old_frame) 1 2 7 none 600

ping_bytes-IsByte : All IsByte ping_bytes
ping_bytes-IsByte = omega arith

parse_raw-reprint_example :
    (f : ProtoFrame) × (proto_build_frame [] (some old_frame) 1 2 7 (some []) 0 ≡ some f)
    × (frame_bytes f ≡ take 9 ping_bytes)
parse_raw-reprint_example =
    parse_raw-reprint ping_bytes 9 ping_message [] old_frame ping_bytes-IsByte parse_ping
      (omega arith)

parse_raw-set_example : parse_raw (set ping_bytes 4 8) ≡ invalid
parse_raw-set_example =
    parse_raw-set ping_bytes 9 ping_message 4 8 parse_ping ping_bytes-IsByte (omega arith)
      (omega arith) (λ e. absurd (omega arith)) (λ e. absurd (omega arith))
      (λ e. absurd (omega arith))
