-- ===== src/Prelude/Bytes.antt =====
-- Bytes as numbers below 256: exclusive or at that width, and memory blocks as lists of bytes.
use Prim.Native.Nat.{ℕ, zero, suc, ◌+◌, ◌<◌, bit_xor}
use mathlib.Core.Path.{◌≡◌, refl, ap, sym, ◌∙◌}
use mathlib.Core.Logic.{inl, inr}
use mathlib.Core.Bool.{Bool, true, ◌&&◌}
use mathlib.Core.List.{List, ◌++◌}
use native.Mathlib.Omega.{arith}
use linux_file_manager.Prelude.Tests.{◌==◌, Bool-cases, ltb, ==_iff}
use linux_file_manager.Prelude.Lists.{take, drop}

abbrev pub IsByte : ℕ → Type 0
IsByte b = b < 256

-- `memcpy(dst + off, src, n)`
abbrev pub memcpy : List ℕ → ℕ → List ℕ → ℕ → List ℕ
memcpy dst off src n = take off dst ++ (take n src ++ drop (off + n) dst)

-- A test at every number below a bound.
holds_to : (ℕ → Bool) → ℕ → Bool
holds_to test zero = true
holds_to test (suc top) = holds_to test top && test top

holds_at : (test : ℕ → Bool) (top k : ℕ) → k < top → holds_to test top ≡ true → test k ≡ true
unfolding holds_to
holds_at test zero k below ok = absurd (omega (arith, below))
holds_at test (suc top) k below ok = elim (Bool-cases (k == top)) [
  | inl last ↦ ground (arith, last, ok)
  | inr earlier ↦ holds_at test top k (ground (arith, earlier, below)) (ground (arith, ok))
]

-- The same for pairs of bytes.
all_pairs : (ℕ → ℕ → Bool) → Bool
unfolding holds_to
all_pairs test = holds_to (λ a. holds_to (test a) 256) 256

at_pair :
    (test : ℕ → ℕ → Bool) (a b : ℕ) → IsByte a → IsByte b → all_pairs test ≡ true → test a b ≡ true
unfolding all_pairs
at_pair test a b ha hb ok =
    holds_at (test a) 256 b hb (holds_at (λ x. holds_to (test x) 256) 256 a ha ok)

abbrev undoes : ℕ → ℕ → Bool
undoes a b = (bit_xor (bit_xor a b) b == a) && ltb (bit_xor a b) 256

abbrev commutes : ℕ → ℕ → Bool
commutes a b = bit_xor a b == bit_xor b a

undoes_table : all_pairs undoes ≡ true
unfolding all_pairs
undoes_table = refl

commutes_table : all_pairs commutes ≡ true
unfolding all_pairs
commutes_table = refl

pub bit_xor-IsByte : (a b : ℕ) → IsByte a → IsByte b → IsByte (bit_xor a b)
bit_xor-IsByte a b ha hb = ground (arith, at_pair undoes a b ha hb undoes_table)

pub bit_xor-bit_xor : (a b : ℕ) → IsByte a → IsByte b → bit_xor (bit_xor a b) b ≡ a
bit_xor-bit_xor a b ha hb = ground (arith, at_pair undoes a b ha hb undoes_table)

pub bit_xor_comm : (a b : ℕ) → IsByte a → IsByte b → bit_xor a b ≡ bit_xor b a
bit_xor_comm a b ha hb = (==_iff _ _).0 (at_pair commutes a b ha hb commutes_table)

pub bit_xor_cancel_right :
    (a b c : ℕ) → IsByte a → IsByte b → IsByte c → bit_xor a c ≡ bit_xor b c → a ≡ b
bit_xor_cancel_right a b c ha hb hc e =
    sym (bit_xor-bit_xor a c ha hc) ∙ ap (λ x. bit_xor x c) e ∙ bit_xor-bit_xor b c hb hc

pub bit_xor_cancel_left :
    (a b c : ℕ) → IsByte a → IsByte b → IsByte c → bit_xor c a ≡ bit_xor c b → a ≡ b
bit_xor_cancel_left a b c ha hb hc e =
    bit_xor_cancel_right a b c ha hb hc (bit_xor_comm a c ha hc ∙ e ∙ bit_xor_comm c b hc hb)
