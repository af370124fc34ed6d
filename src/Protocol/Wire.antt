-- ===== src/Protocol/Wire.antt =====
-- The byte image of a frame, as src/protocol.c lays it out and reads it.
use linux_file_manager.Prelude.{
  ==-refl, List, Option, [], append-nil, append_assoc, ap₂, arith, drop, drop-append,
  get_or-append_at, if◌then◌else◌, length, length-append, length-take, ltb-false, lt→ltb, none,
  refl, some, subst, suc, sym, take, take-append, true, zero, ℕ, ◌&&◌, ◌++◌, ◌+◌, ◌-◌, ◌==◌, ◌∙◌,
  ◌∷◌, ◌≡◌, ◌≤◌,
}
use linux_file_manager.Protocol.{
  ProtoFrame, ProtoHeader, ProtoMessage, checksum_from, copy_payload, fill_frame, frame_bytes,
  header_bytes, invalid, message_of, parse_raw, parse_sized, parsed, proto_checksum, proto_magic_1,
  proto_magic_2, proto_verify_magic, read_header,
}

-- The bytes of a whole frame: header, payload, checksum.
unfoldable pub wire : ProtoHeader → List ℕ → List ℕ
wire h p = header_bytes h ++ (p ++ checksum_from 0 (header_bytes h ++ p) ∷ [])

-- The header that `proto_build_frame` fills in.
abbrev pub sent_header : ℕ → ℕ → ℕ → ℕ → ProtoHeader
sent_header cmd flags seq payload_len = record {
  magic1 = proto_magic_1;
  magic2 = proto_magic_2;
  cmd = cmd;
  flags = flags;
  seq = seq;
  payload_len = payload_len;
}

length-header_bytes : (h : ProtoHeader) → length (header_bytes h) ≡ 8
unfolding header_bytes
length-header_bytes h = refl

-- The bytes that a payload argument stands for, and that it has as many as it claims (NULL has none).
abbrev pub payload_bytes : Option (List ℕ) → ℕ → List ℕ
payload_bytes none n = []
payload_bytes (some p) n = take n p

abbrev pub HasBytes : Option (List ℕ) → ℕ → Type 0
HasBytes none n = n ≡ 0
HasBytes (some p) n = n ≤ length p

pub length-payload_bytes :
    (payload : Option (List ℕ)) (n : ℕ) → HasBytes payload n → length (payload_bytes payload n) ≡ n
length-payload_bytes none n h = sym h
length-payload_bytes (some p) n h = omega (arith, length-take n p)

take-copy_some :
    (pre dst p : List ℕ) (n : ℕ)
    → n ≤ length p
    → take (length pre + n) (copy_payload (pre ++ dst) (length pre) (some p) n) ≡ pre ++ take n p
unfolding copy_payload
take-copy_some pre dst p zero h =
    take-append (length pre + 0) pre dst (omega arith) ∙ sym (append-nil pre)
take-copy_some pre dst p (suc n) h =
    rw
      (
        lt→ltb 0 (suc n) (omega arith),
        take-append (length pre) pre dst refl,
        ← append_assoc pre (take (suc n) p) (drop (length pre + suc n) (pre ++ dst)),
      )
      (take-append (length pre + suc n) (pre ++ take (suc n) p)
        (drop (length pre + suc n) (pre ++ dst))
        (omega (arith, length-append pre (take (suc n) p), length-take (suc n) p)))

take-copy_payload :
    (pre dst : List ℕ) (payload : Option (List ℕ)) (n : ℕ)
    → HasBytes payload n
    → take (length pre + n) (copy_payload (pre ++ dst) (length pre) payload n)
      ≡ pre ++ payload_bytes payload n
take-copy_payload pre dst none n h =
    unfold copy_payload in take-append (length pre + n) pre dst (omega arith) ∙ sym (append-nil pre)
take-copy_payload pre dst (some p) n h = take-copy_some pre dst p n h

module _ (temp : List ℕ) (frame : ProtoFrame) (cmd flags seq : ℕ) (payload : Option (List ℕ))
    (n : ℕ) where
  -- The bytes sent do not depend on what the frame and the scratch buffer held.
  pub frame_bytes-fill_frame :
      HasBytes payload n
      → frame_bytes (fill_frame temp frame cmd flags seq payload n)
        ≡ wire (sent_header cmd flags seq n) (payload_bytes payload n)
  unfolding frame_bytes fill_frame wire proto_checksum header_bytes
  frame_bytes-fill_frame h =
      let hb : List ℕ = header_bytes (sent_header cmd flags seq n) in
      let z : 0 + n ≡ n = omega arith in
      let e : take n (copy_payload frame.payload 0 payload n) ≡ payload_bytes payload n =
        subst (λ k. take k (copy_payload frame.payload 0 payload n) ≡ payload_bytes payload n) z
          (take-copy_payload [] frame.payload payload n h) in
      let c : take (8 + n) (copy_payload (hb ++ drop 8 temp) 8 payload n)
          ≡ hb ++ payload_bytes payload n =
        take-copy_payload hb (drop 8 temp) payload n h in
      ap₂ (λ q k. hb ++ (q ++ checksum_from 0 k ∷ [])) e c

-- The parse of a frame whose checksum byte is `c`, with `rest` behind it.
parse_sized-frame :
    (pre rest : List ℕ) (c : ℕ)
    → parse_sized (pre ++ c ∷ rest) (length pre + 1) ≡ (
        if checksum_from 0 pre == c
        then parsed (length pre + 1) (message_of (pre ++ c ∷ rest))
        else invalid)
unfolding parse_sized proto_checksum
parse_sized-frame pre rest c =
    let e : length pre + 1 - 1 ≡ length pre = omega arith in
    rw (
      ltb-false (length (pre ++ c ∷ rest)) (length pre + 1)
          (omega (arith, length-append pre (c ∷ rest))),
      e,
      take-append (length pre) pre (c ∷ rest) refl,
      get_or-append_at pre (c ∷ rest) (length pre) 0 refl,
    )

pub verify_magic-read_header :
    (raw : List ℕ)
    → proto_verify_magic raw
      ≡ ((read_header raw).magic1 == proto_magic_1 && (read_header raw).magic2 == proto_magic_2)
unfolding proto_verify_magic read_header
verify_magic-read_header raw = refl

-- `read_header` reads back what `header_bytes` wrote.
read_header-header_bytes : (h : ProtoHeader) (xs : List ℕ) → read_header (header_bytes h ++ xs) ≡ h
unfolding read_header header_bytes
read_header-header_bytes h xs = ground arith

abbrev pub message : ProtoHeader → List ℕ → ProtoMessage
message h p = record {
  cmd = h.cmd;
  flags = h.flags;
  seq = h.seq;
  payload = p;
  payload_len = length p;
}

pub wire-append :
    (h : ProtoHeader) (p rest : List ℕ)
    → wire h p ++ rest ≡ (header_bytes h ++ p) ++ checksum_from 0 (header_bytes h ++ p) ∷ rest
unfolding wire header_bytes
wire-append h p rest = simp append_assoc

module _ (h : ProtoHeader) (p rest : List ℕ) (c : ℕ) (len : h.payload_len ≡ length p) where
  message_of-frame : message_of ((header_bytes h ++ p) ++ c ∷ rest) ≡ message h p
  unfolding message_of
  message_of-frame = rw (
    append_assoc (header_bytes h) p (c ∷ rest),
    read_header-header_bytes h (p ++ c ∷ rest),
    drop-append 8 (header_bytes h) (p ++ c ∷ rest) (sym (length-header_bytes h)),
    len,
    take-append (length p) p (c ∷ rest) refl,
  )

  length-frame : length (header_bytes h ++ p) + 1 ≡ 8 + length p + 1
  length-frame = omega (arith, length-append (header_bytes h) p, length-header_bytes h)

  -- A buffer that starts with a header for `p`, `p`, and the byte `c`.
  pub parse_raw-frame :
      h.magic1 ≡ proto_magic_1
      → h.magic2 ≡ proto_magic_2
      → parse_raw ((header_bytes h ++ p) ++ c ∷ rest) ≡ (
          if checksum_from 0 (header_bytes h ++ p) == c
          then parsed (8 + length p + 1) (message h p)
          else invalid)
  unfolding parse_raw
  parse_raw-frame e1 e2 =
      let raw : List ℕ = (header_bytes h ++ p) ++ c ∷ rest in
      let r : read_header raw ≡ h =
        rw (append_assoc (header_bytes h) p (c ∷ rest)) (read_header-header_bytes h _) in
      let v : proto_verify_magic raw ≡ true = verify_magic-read_header raw ∙ rw r (ground arith) in
      let size : 8 + (read_header raw).payload_len + 1 ≡ length (header_bytes h ++ p) + 1 =
        rw r (omega (arith, length-frame)) in
      rw (
        ltb-false (length raw) 8
            (omega (arith, length-append (header_bytes h ++ p) (c ∷ rest), length-frame)),
        v,
        size,
        parse_sized-frame (header_bytes h ++ p) rest c,
        message_of-frame,
        length-frame,
      )

pub parse_raw-wire :
    (h : ProtoHeader) (p rest : List ℕ)
    → h.magic1 ≡ proto_magic_1
    → h.magic2 ≡ proto_magic_2
    → h.payload_len ≡ length p
    → parse_raw (wire h p ++ rest) ≡ parsed (8 + length p + 1) (message h p)
parse_raw-wire h p rest e1 e2 e3 =
    let c : ℕ = checksum_from 0 (header_bytes h ++ p) in
    rw (wire-append h p rest, parse_raw-frame h p rest c e3 e1 e2, ==-refl c)

pub length-wire : (h : ProtoHeader) (p : List ℕ) → length (wire h p) ≡ 8 + length p + 1
unfolding wire header_bytes
length-wire h p = omega (arith, length-append p (checksum_from 0 (header_bytes h ++ p) ∷ []))
