-- ===== src/Protocol/Corruption.antt =====
-- What `proto_parse_frame` of src/protocol.c detects: one byte of a frame that changes on the way.
use linux_file_manager.Prelude.{
  ==_iff, All, All-take, Bool-cases, IsByte, List, ap, arith, false, get_or, get_or-set_ne,
  get_or-set_self, get_or-take, inl, inr, length, length-set, length-take, ltb, ltb→lt, set, set-ge,
  sym, take, take-set, true, ℕ, ◌-◌, ◌<◌, ◌==◌, ◌∙◌, ◌≡◌, ◌≢◌, ◌≤◌,
}
use linux_file_manager.Protocol.{
  ProtoMessage, checksum_from, invalid, parse_raw, parse_sized, parsed, proto_checksum,
  proto_verify_magic, read_header,
}
use linux_file_manager.Protocol.Prefix.{parse_raw-Accepts}
use linux_file_manager.Protocol.Checksum.{checksum_from-set}

module _ (raw : List ℕ) (i v : ℕ) where
  payload_len-set :
      i ≢ 6 → i ≢ 7 → (read_header (set raw i v)).payload_len ≡ (read_header raw).payload_len
  unfolding read_header
  payload_len-set h6 h7 = rw (get_or-set_ne raw i 6 v 0 h6, get_or-set_ne raw i 7 v 0 h7)

  verify_magic-set : i ≢ 0 → i ≢ 1 → proto_verify_magic (set raw i v) ≡ proto_verify_magic raw
  unfolding proto_verify_magic
  verify_magic-set h0 h1 = rw (get_or-set_ne raw i 0 v 0 h0, get_or-set_ne raw i 1 v 0 h1)

  verify_magic-set_start :
      proto_verify_magic raw ≡ true
      → i < 2
      → i < length raw
      → get_or raw i 0 ≢ v
      → proto_verify_magic (set raw i v) ≡ false
  unfolding proto_verify_magic
  verify_magic-set_start good h lt ne = elim (Bool-cases (i == 0)) [
    | inl e ↦ ground (arith, get_or-set_self raw 0 v 0)
    | inr e ↦ ground (arith, get_or-set_self raw 1 v 0)
  ]

  -- The comparison of the checksum with the byte behind the first `k` ones fails after the change.
  checksum-set :
      (k : ℕ)
      → All IsByte raw
      → IsByte v
      → k < length raw
      → i ≤ k
      → get_or raw i 0 ≢ v
      → proto_checksum raw k ≡ get_or raw k 0
      → proto_checksum (set raw i v) k ≢ get_or (set raw i v) k 0
  unfolding proto_checksum
  checksum-set k bytes byte lt le ne good bad = elim (Bool-cases (i == k)) [
    | inl same ↦
        let e : i ≡ k = (==_iff i k).0 same in
        let whole : take k (set raw i v) ≡ take k raw =
          take-set k raw i v ∙ set-ge (take k raw) i v (omega (arith, length-take k raw)) in
        ne (
          ap (λ j. get_or raw j 0) e
          ∙ sym good
          ∙ ap (checksum_from 0) (sym whole)
          ∙ bad
          ∙ ap (λ j. get_or (set raw i v) j 0) (sym e)
          ∙ get_or-set_self raw i v 0 (omega arith))
    | inr other ↦
        checksum_from-set 0 (take k raw) i v (omega arith) (All-take IsByte k raw bytes) byte
          (ground (arith, length-take k raw))
          (λ e. ne (sym (get_or-take k raw i 0 (ground arith)) ∙ e))
          (ap (checksum_from 0) (sym (take-set k raw i v))
            ∙ bad
            ∙ get_or-set_ne raw i k v 0 (ground arith)
            ∙ sym good)
  ]

  sized-set :
      (len : ℕ)
      → All IsByte raw
      → IsByte v
      → 0 < len
      → len ≤ length raw
      → i < len
      → get_or raw i 0 ≢ v
      → proto_checksum raw (len - 1) ≡ get_or raw (len - 1) 0
      → parse_sized (set raw i v) len ≡ invalid
  unfolding parse_sized
  sized-set len bytes byte pos le lt ne good = ground (
    arith,
    length-set raw i v,
    checksum-set (len - 1) bytes byte (omega arith) (omega arith) ne good,
  )

-- Of a received frame that parses, change any one byte but the two of the payload length: at its
-- place the parser then reports an invalid frame, whatever follows.
pub parse_raw-set :
    (raw : List ℕ) (n : ℕ) (m : ProtoMessage) (i v : ℕ)
    → parse_raw raw ≡ parsed n m
    → All IsByte raw
    → IsByte v
    → i < n
    → i ≢ 6
    → i ≢ 7
    → get_or raw i 0 ≢ v
    → parse_raw (set raw i v) ≡ invalid
unfolding parse_raw
parse_raw-set raw n m i v e bytes byte lt h6 h7 ne =
    let ok = parse_raw-Accepts raw n m e in
    elim (Bool-cases (ltb i 2)) [
      | inl start ↦ ground (
        arith,
        length-set raw i v,
        verify_magic-set_start raw i v ok.magic (ltb→lt i 2 start) (omega arith) ne,
      )
      | inr after ↦ ground (
        arith,
        length-set raw i v,
        ok.size,
        ok.magic,
        verify_magic-set raw i v,
        payload_len-set raw i v h6 h7,
        sized-set raw i v n bytes byte (omega arith) ok.within lt ne ok.sum,
      )
    ]
