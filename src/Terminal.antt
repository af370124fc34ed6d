-- ===== src/Terminal.antt =====
-- src/common.c: reading lines and waiting at the terminal. The input is the bytes that are still to
-- come; what is printed is a list of outputs.
pub mod Consuming
pub mod Lines
use linux_file_manager.Prelude.{
  Bool, List, Option, String, [], drop, if◌then◌else◌, leb, negsuc, none, pos, some, suc, zero, ℕ,
  ℤ, ◌&&◌, ◌*◌, ◌+◌, ◌-◌, ◌==◌, ◌||◌, ◌∷◌,
}
use linux_file_manager.Os.{Errno}

-- `printf` of a literal, of a string or of a number, the three `print_` functions, and `perror`.
pub data Output : Type 0 where
  printed : String → Output
  printed_bytes : List ℕ → Output
  printed_number : ℕ → Output
  success : String → Output
  failure : String → Output
  system_error : String → Errno → Output

-- `print_line()`
abbrev pub line_output : Output
line_output = printed "===========================================\n"

-- The string that starts at these bytes, which `%s` prints.
unfoldable pub up_to_zero : List ℕ → List ℕ
up_to_zero [] = []
up_to_zero (b ∷ bs) = if b == 0 then [] else b ∷ up_to_zero bs

-- `getchar` up to a newline or the end of the input.
pub clear_input_buffer : List ℕ → List ℕ
clear_input_buffer [] = []
clear_input_buffer (b ∷ bs) = if b == b'\n' then bs else clear_input_buffer bs

-- The bytes that `fgets` takes with room for `n`: up to a newline, which it takes too. And what is
-- left.
unfoldable pub take_line : ℕ → List ℕ → List ℕ × List ℕ
take_line zero input = ([], input)
take_line (suc n) [] = ([], [])
take_line (suc n) (b ∷ bs) =
    let (line, left) = take_line n bs in if b == b'\n' then (b ∷ [], bs) else (b ∷ line, left)

-- `fgets(buffer, size, stdin)`: at the end of the input it leaves the buffer as it is.
unfoldable pub fgets : ℕ → List ℕ → List ℕ → List ℕ × List ℕ
unfolding take_line
fgets size buffer [] = (buffer, [])
fgets size buffer (b ∷ bs) = take_line (size - 1) (b ∷ bs)

-- `buffer[strcspn(buffer, "\n")] = 0`: the string before the first newline or 0.
pub cut_newline : List ℕ → List ℕ
cut_newline [] = []
cut_newline (b ∷ bs) = if b == b'\n' || b == 0 then [] else b ∷ cut_newline bs

pub get_string : ℕ → List ℕ → List ℕ → List ℕ × List ℕ
unfolding fgets cut_newline
get_string size buffer input =
    let (line, left) = fgets size buffer input in (cut_newline line, left)

-- The two calls of `getchar`.
pub wait_enter : List ℕ → List ℕ
wait_enter input = drop 2 input

-- `scanf("%d", …)`: blanks are skipped, then a sign and digits are read. `none` when there are no
-- digits, or the input ends.
is_blank : ℕ → Bool
is_blank b = b == b' ' || leb 9 b && leb b 13

is_digit : ℕ → Bool
is_digit b = leb b'0' b && leb b b'9'

pub scan_digits : ℕ → List ℕ → ℕ × List ℕ
unfolding is_digit
scan_digits n [] = (n, [])
scan_digits n (b ∷ bs) =
    let more = scan_digits (n * 10 + (b - b'0')) bs in if is_digit b then more else (n, b ∷ bs)

negated : ℕ → ℤ
negated zero = pos 0
negated (suc n) = negsuc n

scan_after : (ℕ → ℤ) → List ℕ → Option ℤ × List ℕ
unfolding scan_digits is_digit
scan_after sign [] = (none, [])
scan_after sign (b ∷ bs) =
    let (n, left) = scan_digits 0 (b ∷ bs) in
    if is_digit b then (some (sign n), left) else (none, b ∷ bs)

pub scan_int : List ℕ → Option ℤ × List ℕ
unfolding scan_after is_blank negated
scan_int [] = (none, [])
scan_int (b ∷ bs) =
    let skipped = scan_int bs in
    if is_blank b
    then skipped
    else if b == b'-'
    then scan_after negated bs
    else if b == b'+'
    then scan_after pos bs
    else scan_after pos (b ∷ bs)
