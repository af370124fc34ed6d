-- ===== src/Protocol/Reprint.antt =====
-- What `proto_parse_frame` of src/protocol.c accepts, against the frames that can be built.
use linux_file_manager.Prelude.{
  All, IsByte, List, [], ap, append_assoc, ap₂, arith, drop, get_or, length, subst, suc, sym, take,
  take-add, take-length, ltb-false, refl, some, take-suc-get_or, ℕ, ◌++◌, ◌+◌, ◌-◌, ◌∙◌, ◌∷◌, ◌≡◌,
  ◌≤◌,
}
use linux_file_manager.Protocol.{
  ProtoFrame, fill_frame, frame_bytes, proto_build_frame, proto_max_payload, ProtoMessage,
  checksum_from, header_bytes, message_of, parse_raw, parsed, proto_checksum, read_header,
}
use linux_file_manager.Protocol.Prefix.{Accepts, parse_raw_bounds, parse_raw-Accepts}
use linux_file_manager.Protocol.Wire.{
  frame_bytes-fill_frame, sent_header, verify_magic-read_header, wire,
}

-- The eight bytes that a header is read from are the header's bytes.
header_bytes-read_header :
    (raw : List ℕ) → All IsByte raw → 8 ≤ length raw → header_bytes (read_header raw) ≡ take 8 raw
unfolding header_bytes read_header
header_bytes-read_header (a ∷ b ∷ c ∷ d ∷ e ∷ f ∷ g ∷ h ∷ rest) bytes le = ground arith
header_bytes-read_header _ bytes le = absurd (omega arith)

-- The bytes of an accepted frame, in the buffer's own terms.
take-accepted :
    (raw : List ℕ) (n : ℕ) (m : ProtoMessage)
    → All IsByte raw
    → Accepts raw n m
    → take n raw ≡ wire (read_header raw) (take (read_header raw).payload_len (drop 8 raw))
unfolding wire proto_checksum
take-accepted raw n m bytes a =
    let k : ℕ = 8 + (read_header raw).payload_len in
    let p : List ℕ = take (read_header raw).payload_len (drop 8 raw) in
    let hb : header_bytes (read_header raw) ≡ take 8 raw =
      header_bytes-read_header raw bytes (omega (arith, a.size, a.within)) in
    let body : take k raw ≡ header_bytes (read_header raw) ++ p =
      take-add 8 (read_header raw).payload_len raw ∙ ap (λ x. x ++ p) (sym hb) in
    let e1 : n ≡ suc k = omega (arith, a.size) in
    let e2 : n - 1 ≡ k = omega (arith, a.size) in
    let sum : checksum_from 0 (take k raw) ≡ get_or raw k 0 =
      subst (λ j. checksum_from 0 (take j raw) ≡ get_or raw j 0) e2 a.sum in
    ap (λ j. take j raw) e1
    ∙ take-suc-get_or k raw 0 (omega (arith, a.size, a.within))
    ∙ ap₂ (λ x c. x ++ c ∷ []) body (sym sum ∙ ap (checksum_from 0) body)
    ∙ append_assoc (header_bytes (read_header raw)) p _

-- The bytes of a frame that parses are the magic bytes, the message's header fields, its payload, and
-- the checksum over these, whatever the payload's length.
accepted_wire :
    (raw : List ℕ) (n : ℕ) (m : ProtoMessage)
    → All IsByte raw
    → parse_raw raw ≡ parsed n m
    → take n raw ≡ wire (sent_header m.cmd m.flags m.seq m.payload_len) m.payload
unfolding message_of
accepted_wire raw n m bytes e =
    let a = parse_raw-Accepts raw n m e in
    rw a.message (
      take-accepted raw n m bytes a
      ∙ ap (λ h. wire h (take (read_header raw).payload_len (drop 8 raw))) header)
  where
    header :
        read_header raw
        ≡ sent_header
            (read_header raw).cmd
            (read_header raw).flags
            (read_header raw).seq
            (read_header raw).payload_len
    header =
        let a = parse_raw-Accepts raw n m e in ground (arith, a.magic, verify_magic-read_header raw)

-- When received bytes parse as a frame with at most 512 bytes of payload, `proto_build_frame` of the
-- message's fields succeeds, whatever the frame struct and the scratch buffer held before, and the frame
-- has exactly the bytes that were received. (A longer payload is parsed too, but never built.)
pub parse_raw-reprint :
    (raw : List ℕ) (n : ℕ) (m : ProtoMessage) (temp : List ℕ) (frame : ProtoFrame)
    → All IsByte raw
    → parse_raw raw ≡ parsed n m
    → m.payload_len ≤ proto_max_payload
    → (f : ProtoFrame) × (proto_build_frame temp
          (some frame)
          m.cmd
          m.flags
          m.seq
          (some m.payload)
          m.payload_len
        ≡ some f)
      × (frame_bytes f ≡ take n raw)
unfolding proto_build_frame
parse_raw-reprint raw n m temp frame bytes e small =
    let (size, within, from, taken) = parse_raw_bounds raw n m e in
    (
      fill_frame temp frame m.cmd m.flags m.seq (some m.payload) m.payload_len,
      rw (ltb-false proto_max_payload m.payload_len small) refl,
      frame_bytes-fill_frame temp frame m.cmd m.flags m.seq (some m.payload) m.payload_len
            (omega (arith, taken))
          ∙ ap (wire (sent_header m.cmd m.flags m.seq m.payload_len))
              (take-length m.payload_len m.payload (omega (arith, taken)))
          ∙ sym (accepted_wire raw n m bytes e),
    )
