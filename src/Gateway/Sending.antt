-- ===== src/Gateway/Sending.antt =====
-- `send_frame_raw` of src/gateway.c: the bytes that reach `send`.
use linux_file_manager.Prelude.{
  Bool-cases, List, Option, [], ap, append_assoc, arith, drop, if◌then◌else◌, inl, inr, leb, length,
  length-append, length-drop, length-take, ltb, ltb-false→le, none, refl, set, some, suc, sym, take,
  take-set_end, true, ℕ, ◌++◌, ◌+◌, ◌-◌, ◌<◌, ◌∙◌, ◌∷◌, ◌≡◌, ◌≤◌,
}
use linux_file_manager.Protocol.{
  ProtoFrame, copy_payload, fill_frame, frame_bytes, header_bytes, proto_build_frame,
  proto_frame_max, proto_max_payload,
}
use linux_file_manager.Protocol.Wire.{
  HasBytes, frame_bytes-fill_frame, payload_bytes, sent_header, wire,
}
use linux_file_manager.Gateway.{Env, GatewayCtx, emit, send, send_buffer, send_frame_raw}

-- The buffer that `send_frame_raw` fills is as long as the longest frame.
abbrev pub HasBuffer : Env → Type 0
HasBuffer env = length env.stack_buf ≡ proto_frame_max

-- What `take` finds behind a filled prefix and the checksum.
filled :
    (hb p rest : List ℕ) (cs k : ℕ)
    → k ≡ length hb + length p
    → 0 < length rest
    → take (suc k) (set (hb ++ (p ++ rest)) k cs) ≡ hb ++ (p ++ cs ∷ [])
filled hb p rest cs k e h =
    rw (← append_assoc hb p rest, ← append_assoc hb p (cs ∷ []))
      (take-set_end (hb ++ p) rest k cs (omega (arith, length-append hb p)) h)

send_buffer_lem :
    (buf : List ℕ) (f : ProtoFrame) (k : ℕ)
    → length buf ≡ proto_frame_max
    → f.header.payload_len ≤ length f.payload
    → f.header.payload_len ≤ proto_max_payload
    → k ≡ 8 + f.header.payload_len
    → send_buffer buf f (suc k) ≡ frame_bytes f
unfolding send_buffer frame_bytes header_bytes
send_buffer_lem buf f k full fits small e =
    let n : ℕ = f.header.payload_len in
    let hb : List ℕ = header_bytes f.header in
    let one : suc k - 1 ≡ k = omega arith in
    elim (Bool-cases (ltb 0 n)) [
      | inl some_bytes ↦
          rw (some_bytes, one)
            (filled hb (take n f.payload) (drop (8 + n) (hb ++ drop 8 buf)) f.checksum k
              (omega (arith, length-take n f.payload, e))
              (omega (arith, length-drop (8 + n) (hb ++ drop 8 buf), length-drop 8 buf)))
      | inr no_bytes ↦
          let z : n ≡ 0 = omega (arith, ltb-false→le 0 n no_bytes) in
          rw (no_bytes, one)
            (filled hb [] (drop 8 buf) f.checksum k (omega (arith, e, z))
                (omega (arith, length-drop 8 buf))
              ∙ ap (λ j. hb ++ (take j f.payload ++ f.checksum ∷ [])) (sym z))
    ]

length-copy_payload :
    (dst : List ℕ) (payload : Option (List ℕ)) (n : ℕ)
    → HasBytes payload n
    → n ≤ length dst
    → n ≤ length (copy_payload dst 0 payload n)
unfolding copy_payload
length-copy_payload dst none n h le = le
length-copy_payload dst (some p) n h le =
    ground (arith, length-append (take n p) (drop (0 + n) dst), length-take n p)

abbrev pub sent_bytes : ℕ → ℕ → ℕ → Option (List ℕ) → ℕ → List ℕ
sent_bytes cmd flags seq payload n = wire (sent_header cmd flags seq n) (payload_bytes payload n)

-- `send_frame_raw` makes one call of `send` with exactly the frame of its arguments, whatever was on
-- the stack, and returns what that call returns; with more than 512 bytes of payload it returns -1 and
-- sends nothing.
pub send_frame_raw_lem :
    (env : Env) (c : GatewayCtx) (fd cmd flags seq : ℕ) (payload : Option (List ℕ)) (n : ℕ)
    → HasBuffer env
    → length env.stack_frame.payload ≡ proto_max_payload
    → HasBytes payload n
    → send_frame_raw env c fd cmd flags seq payload n ≡ (
        if leb n proto_max_payload
        then (
          env.send_result fd (sent_bytes cmd flags seq payload n),
          emit c (send fd (sent_bytes cmd flags seq payload n) ∷ []),
        )
        else (none, c))
unfolding send_frame_raw proto_build_frame fill_frame
send_frame_raw_lem env c fd cmd flags seq payload n full frame fits =
    let f : ProtoFrame = fill_frame env.stack_temp env.stack_frame cmd flags seq payload n in
    let one : 8 + n + 1 ≡ suc (8 + n) = omega arith in
    elim (Bool-cases (ltb proto_max_payload n)) [
      | inl large ↦ ground (arith, large)
      | inr small ↦
          let le : n ≤ 512 = ltb-false→le proto_max_payload n small in
          let bytes : send_buffer env.stack_buf f (suc (8 + n))
              ≡ sent_bytes cmd flags seq payload n =
            send_buffer_lem env.stack_buf f (8 + n) full
              (omega (arith, length-copy_payload env.stack_frame.payload payload n)) le refl
            ∙ frame_bytes-fill_frame env.stack_temp env.stack_frame cmd flags seq payload n fits in
          let yes_le : leb n 512 ≡ true = ground arith in rw (small, yes_le, one, bytes)
    ]
