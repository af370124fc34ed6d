-- ===== src/Protocol/RoundTrip.antt =====
-- `proto_build_frame` of src/protocol.c, and `proto_parse_frame` on what it builds.
use linux_file_manager.Prelude.{
  Bool-cases, List, Option, arith, inl, inr, length, ltb, ltb-false, ltb-false→le, ltb→lt, none,
  refl, some, sym, ℕ, ◌++◌, ◌+◌, ◌<◌, ◌∙◌, ◌≡◌, ◌≤◌, ◌⊎◌,
}
use linux_file_manager.Protocol.{
  ProtoFrame, fill_frame, frame_bytes, parsed, proto_build_frame, proto_frame_len, proto_frame_max,
  proto_max_payload, proto_parse_frame,
}
use linux_file_manager.Protocol.Wire.{
  HasBytes, frame_bytes-fill_frame, length-payload_bytes, message, parse_raw-wire, payload_bytes,
  sent_header,
}

-- What one side sends is what the other reads: for at most 512 payload bytes, whatever the frame
-- struct and the scratch buffer held before, the bytes of a built frame parse as one frame of the
-- length that `proto_build_frame` returned, with the same command, flags, sequence number and
-- payload, whatever bytes follow. The payload may be NULL when its length is 0.
pub parse-build_frame :
    (temp : List ℕ) (frame : ProtoFrame) (cmd flags seq : ℕ) (payload : Option (List ℕ)) (n : ℕ)
    (rest : List ℕ)
    → n ≤ proto_max_payload
    → HasBytes payload n
    → (f : ProtoFrame) × (proto_build_frame temp (some frame) cmd flags seq payload n ≡ some f)
      × (proto_parse_frame (some (frame_bytes f ++ rest))
          ≡ parsed f.total_len (record {
            cmd = cmd;
            flags = flags;
            seq = seq;
            payload = payload_bytes payload n;
            payload_len = n;
          }))
unfolding proto_build_frame proto_parse_frame fill_frame
parse-build_frame temp frame cmd flags seq payload n rest small fits = (
  fill_frame temp frame cmd flags seq payload n,
  rw (ltb-false proto_max_payload n small),
  rw (frame_bytes-fill_frame temp frame cmd flags seq payload n fits) (
      parse_raw-wire (sent_header cmd flags seq n) (payload_bytes payload n) rest refl refl
        (sym taken)
      ∙ sized),
)
  where
    taken : length (payload_bytes payload n) ≡ n
    taken = length-payload_bytes payload n fits

    sized :
        parsed
          (8 + length (payload_bytes payload n) + 1)
          (message (sent_header cmd flags seq n) (payload_bytes payload n))
        ≡ parsed (8 + n + 1) (record {
          cmd = cmd;
          flags = flags;
          seq = seq;
          payload = payload_bytes payload n;
          payload_len = n;
        })
    sized = rw taken

-- A frame is refused exactly when there is no frame struct or the payload is over 512 bytes; else
-- its length is the payload's and nine more, and at most `PROTO_FRAME_MAX`.
pub proto_build_frame_cases :
    (temp : List ℕ) (frame : Option ProtoFrame) (cmd flags seq : ℕ) (payload : Option (List ℕ))
    (n : ℕ)
    → ((proto_build_frame temp frame cmd flags seq payload n ≡ none)
        × ((frame ≡ none) ⊎ (proto_max_payload < n)))
      ⊎ ((f : ProtoFrame) × (proto_build_frame temp frame cmd flags seq payload n ≡ some f)
          × (f.total_len ≡ n + 9)
          × (proto_frame_len f ≡ f.total_len)
          × (f.total_len ≤ proto_frame_max)
          × (n ≤ proto_max_payload))
unfolding proto_build_frame proto_frame_len fill_frame
proto_build_frame_cases temp none cmd flags seq payload n = inl (refl, inl refl)
proto_build_frame_cases temp (some frame) cmd flags seq payload n =
    elim (Bool-cases (ltb proto_max_payload n)) [
      | inl large ↦ inl (rw large, inr (ltb→lt proto_max_payload n large))
      | inr small ↦
          let le : n ≤ 512 = ltb-false→le proto_max_payload n small in
          inr (
            fill_frame temp frame cmd flags seq payload n,
            rw small,
            omega arith,
            omega arith,
            omega arith,
            le,
          )
    ]
