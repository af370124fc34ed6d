-- ===== src/Protocol/Checksum.antt =====
-- The checksum of include/protocol.h and src/protocol.c: its range, and what one byte changes.
use Prim.Native.Nat.{bit_xor}
use linux_file_manager.Prelude.{
  All, IsByte, List, [], arith, bit_xor-IsByte, bit_xor_cancel_left, bit_xor_cancel_right, get_or,
  length, set, suc, sym, zero, ℕ, ◌<◌, ◌∷◌, ◌≡◌, ◌≢◌,
}
use linux_file_manager.Protocol.{checksum_from}

pub checksum_from-IsByte :
    (cs : ℕ) (bs : List ℕ) → IsByte cs → All IsByte bs → IsByte (checksum_from cs bs)
unfolding checksum_from
checksum_from-IsByte cs [] hc hb = hc
checksum_from-IsByte cs (b ∷ bs) hc hb =
    checksum_from-IsByte (bit_xor cs b) bs (bit_xor-IsByte cs b hc hb.0) hb.1

-- The rest of a checksum is injective in the checksum so far.
pub checksum_from_injective :
    (x y : ℕ) (bs : List ℕ)
    → IsByte x
    → IsByte y
    → All IsByte bs
    → checksum_from x bs ≡ checksum_from y bs
    → x ≡ y
unfolding checksum_from
checksum_from_injective x y [] hx hy hb e = e
checksum_from_injective x y (b ∷ bs) hx hy hb e = bit_xor_cancel_right x y b hx hy hb.0 (
    checksum_from_injective (bit_xor x b) (bit_xor y b) bs (bit_xor-IsByte x b hx hb.0)
      (bit_xor-IsByte y b hy hb.0) hb.1 e)

-- One byte that differs changes the checksum.
pub checksum_from-set :
    (cs : ℕ) (bs : List ℕ) (i v : ℕ)
    → IsByte cs
    → All IsByte bs
    → IsByte v
    → i < length bs
    → get_or bs i 0 ≢ v
    → checksum_from cs (set bs i v) ≢ checksum_from cs bs
unfolding checksum_from
checksum_from-set cs [] i v hc hb hv lt ne e = absurd (omega arith)
checksum_from-set cs (b ∷ bs) zero v hc hb hv lt ne e = ne (
    bit_xor_cancel_left b v cs hb.0 hv hc (
      sym (
        checksum_from_injective (bit_xor cs v) (bit_xor cs b) bs (bit_xor-IsByte cs v hc hv)
          (bit_xor-IsByte cs b hc hb.0) hb.1 e)))
checksum_from-set cs (b ∷ bs) (suc i) v hc hb hv lt ne e =
    checksum_from-set (bit_xor cs b) bs i v (bit_xor-IsByte cs b hc hb.0) hb.1 hv (omega arith) ne e
