-- ===== src/Terminal/Lines.antt =====
-- A typed line reaches the program of src/common.c unchanged.
use linux_file_manager.Prelude.{
  ==-false, All, List, [], ap, arith, length, pos, refl, some, suc, zero, ℕ, ◌++◌, ◌+◌, ◌-◌, ◌<◌,
  ◌∙◌, ◌∷◌, ◌≡◌, ◌≢◌,
}
use linux_file_manager.Terminal.{
  clear_input_buffer, cut_newline, fgets, get_string, scan_int, take_line, wait_enter,
}

-- The bytes of a typed line: neither a newline nor 0.
abbrev pub IsLine : List ℕ → Type 0
IsLine line = All (λ b. (b ≢ b'\n') × (b ≢ 0)) line

pub take_line-typed :
    (line input : List ℕ) (n : ℕ)
    → IsLine line
    → length line < n
    → take_line n (line ++ b'\n' ∷ input) ≡ (line ++ b'\n' ∷ [], input)
unfolding take_line
take_line-typed [] input zero h fits = absurd (omega (arith, fits))
take_line-typed [] input (suc n) h fits = refl
take_line-typed (b ∷ line) input zero h fits = absurd (omega (arith, fits))
take_line-typed (b ∷ line) input (suc n) h fits =
    rw (==-false b b'\n' h.0.0, take_line-typed line input n h.1 (omega (arith, fits))) refl

pub cut_newline-line : (line : List ℕ) → IsLine line → cut_newline (line ++ b'\n' ∷ []) ≡ line
unfolding cut_newline
cut_newline-line [] h = refl
cut_newline-line (b ∷ line) h =
    rw (==-false b b'\n' h.0.0, ==-false b 0 h.0.1, cut_newline-line line h.1) refl

pub cut_newline-plain : (line : List ℕ) → IsLine line → cut_newline line ≡ line
unfolding cut_newline
cut_newline-plain [] h = refl
cut_newline-plain (b ∷ line) h =
    rw (==-false b b'\n' h.0.0, ==-false b 0 h.0.1, cut_newline-plain line h.1) refl

pub fgets-typed :
    (size : ℕ) (buffer line input : List ℕ)
    → fgets size buffer (line ++ b'\n' ∷ input) ≡ take_line (size - 1) (line ++ b'\n' ∷ input)
unfolding fgets
fgets-typed size buffer [] input = refl
fgets-typed size buffer (b ∷ line) input = refl

-- A line of at most `size - 2` bytes without a newline or a 0: `get_string` gives the line, whatever
-- the buffer held, and takes it and its newline from the input. At the end of the input it leaves
-- what was there.
pub get_string_lem :
    (size : ℕ) (buffer line input : List ℕ)
    → IsLine line
    → length line + 1 < size
    → (get_string size buffer (line ++ b'\n' ∷ input) ≡ (line, input))
      × (get_string size line [] ≡ (line, []))
unfolding get_string fgets
get_string_lem size buffer line input h fits =
    let typed : fgets size buffer (line ++ b'\n' ∷ input) ≡ (line ++ b'\n' ∷ [], input) =
      fgets-typed size buffer line input
      ∙ take_line-typed line input (size - 1) h (omega (arith, fits)) in
    (
      ap (λ r. (cut_newline r.0, r.1)) typed ∙ ap (λ l. (l, input)) (cut_newline-line line h),
      ap (λ l. (l, [])) (cut_newline-plain line h),
    )

-- A digit and a newline are read as the number, up to behind the newline.
pub scan_int-clear_input_buffer :
    (input : List ℕ)
    → ((scan_int (b'3' ∷ b'\n' ∷ input)).0 ≡ some (pos 3))
      × (clear_input_buffer (scan_int (b'3' ∷ b'\n' ∷ input)).1 ≡ input)
unfolding scan_int clear_input_buffer
scan_int-clear_input_buffer input = (refl, refl)

pub wait_enter_typed : (b c : ℕ) (input : List ℕ) → wait_enter (b ∷ c ∷ input) ≡ input
unfolding wait_enter
wait_enter_typed b c input = refl

pub scan_int_zero :
    (input : List ℕ)
    → ((scan_int (b'0' ∷ b'\n' ∷ input)).0 ≡ some (pos 0))
      × (clear_input_buffer (scan_int (b'0' ∷ b'\n' ∷ input)).1 ≡ input)
unfolding scan_int clear_input_buffer
scan_int_zero input = (refl, refl)

pub scan_int_eleven :
    (input : List ℕ)
    → ((scan_int (b'1' ∷ b'1' ∷ b'\n' ∷ input)).0 ≡ some (pos 11))
      × (clear_input_buffer (scan_int (b'1' ∷ b'1' ∷ b'\n' ∷ input)).1 ≡ input)
unfolding scan_int clear_input_buffer
scan_int_eleven input = (refl, refl)
