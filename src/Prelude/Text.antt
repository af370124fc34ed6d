-- ===== src/Prelude/Text.antt =====
-- Texts: a literal as its bytes, and the C library's `%d` of a number that is not negative.
use Prim.Native.Nat.{ℕ, zero, suc, ◌+◌, ◌-◌, ◌*◌, ◌/◌, ◌%◌, ◌≤◌, ◌<◌}
use mathlib.Core.Path.{◌≡◌, refl, ap, ◌∙◌}
use mathlib.Core.Bool.{true, false, ◌&&◌}
use Prim.Native.Char.{code}
use Prim.Native.String.{String}
use mathlib.Core.List.{List, [], ◌∷◌, ◌++◌}
use mathlib.Core.Logic.{inl, inr}
use native.Mathlib.Omega.{arith}
use linux_file_manager.Prelude.Tests.{Bool-cases, if◌then◌else◌, leb, ltb, ltb-false→le, ltb→lt}
use linux_file_manager.Prelude.Lists.{All, All-append}

-- The bytes of an ASCII literal.
abbrev pub text : String → List ℕ
text String.[] = []
text (String.◌∷◌ c s) = code c ∷ text s

unfoldable pub decimal_from : ℕ → ℕ → List ℕ
decimal_from zero n = []
decimal_from (suc fuel) n =
    let rest = decimal_from fuel (n / 10) in
    if ltb n 10 then (b'0' + n) ∷ [] else rest ++ (b'0' + n % 10) ∷ []

unfoldable pub decimal : ℕ → List ℕ
unfolding decimal_from
decimal n = decimal_from (suc n) n

abbrev pub IsDigit : ℕ → Type 0
IsDigit b = (b'0' ≤ b) × (b ≤ b'9')

decimal_from-IsDigit : (fuel n : ℕ) → All IsDigit (decimal_from fuel n)
unfolding decimal_from
decimal_from-IsDigit zero n = tt
decimal_from-IsDigit (suc fuel) n = elim (Bool-cases (ltb n 10)) [
  | inl small ↦ rw small ((omega arith, omega (arith, ltb→lt n 10 small)), tt)
  | inr large ↦ rw large (
      All-append IsDigit (decimal_from fuel (n / 10)) ((b'0' + n % 10) ∷ [])
        (decimal_from-IsDigit fuel (n / 10)) ((omega arith, omega arith), tt))
]

-- A number is written with digits.
pub decimal-IsDigit : (n : ℕ) → All IsDigit (decimal n)
unfolding decimal
decimal-IsDigit n = decimal_from-IsDigit (suc n) n

-- The digits at the front as a number, with what was read of it before, and what is behind them.
pub read_number : ℕ → List ℕ → ℕ × List ℕ
read_number n [] = (n, [])
read_number n (b ∷ bs) =
    let more = read_number (n * 10 + (b - b'0')) bs in
    if leb b'0' b && leb b b'9' then more else (n, b ∷ bs)

value_of : ℕ → List ℕ → ℕ
value_of n [] = n
value_of n (b ∷ bs) = value_of (n * 10 + (b - b'0')) bs

value_of-append :
    (n : ℕ) (xs : List ℕ) (b : ℕ) → value_of n (xs ++ b ∷ []) ≡ value_of n xs * 10 + (b - b'0')
unfolding value_of
value_of-append n [] b = refl
value_of-append n (x ∷ xs) b = value_of-append (n * 10 + (x - b'0')) xs b

value_of-decimal_from : (fuel n : ℕ) → n < fuel → value_of 0 (decimal_from fuel n) ≡ n
unfolding decimal_from value_of
value_of-decimal_from zero n h = absurd (omega (arith, h))
value_of-decimal_from (suc fuel) n h = elim (Bool-cases (ltb n 10)) [
  | inl small ↦ rw small (omega arith)
  | inr large ↦
      rw
        (
          large,
          value_of-append 0 (decimal_from fuel (n / 10)) (b'0' + n % 10),
          value_of-decimal_from fuel (n / 10) (omega (arith, h, ltb-false→le n 10 large)),
        )
        (omega arith)
]

digit_seen : (b : ℕ) → IsDigit b → (leb b'0' b && leb b b'9') ≡ true
digit_seen b h = ground (arith, h.0, h.1)

read_number-value_of :
    (n : ℕ) (xs : List ℕ) (b : ℕ) (rest : List ℕ)
    → All IsDigit xs
    → (leb b'0' b && leb b b'9') ≡ false
    → read_number n (xs ++ b ∷ rest) ≡ (value_of n xs, b ∷ rest)
unfolding read_number value_of
read_number-value_of n [] b rest h stop = rw stop refl
read_number-value_of n (x ∷ xs) b rest h stop =
    rw (digit_seen x h.0) (read_number-value_of (n * 10 + (x - b'0')) xs b rest h.1 stop)

-- What was written as a number is read as it, before a byte that is no digit.
pub read_number-decimal :
    (n b : ℕ) (rest : List ℕ)
    → (leb b'0' b && leb b b'9') ≡ false
    → read_number 0 (decimal n ++ b ∷ rest) ≡ (n, b ∷ rest)
unfolding decimal
read_number-decimal n b rest stop =
    read_number-value_of 0 (decimal_from (suc n) n) b rest (decimal_from-IsDigit (suc n) n) stop
    ∙ ap (λ k. (k, b ∷ rest)) (value_of-decimal_from (suc n) n (omega arith))
