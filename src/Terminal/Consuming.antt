-- ===== src/Terminal/Consuming.antt =====
-- The reads of src/common.c never give input back, and at its end they give nothing.
use linux_file_manager.Prelude.{
  List, [], arith, drop, length, none, refl, suc, zero, ℕ, ◌-◌, ◌<◌, ◌∷◌, ◌≡◌, ◌≤◌,
}
use linux_file_manager.Terminal.{
  clear_input_buffer, fgets, get_string, scan_int, take_line, wait_enter,
}

length-drop-≤ : (k : ℕ) (xs : List ℕ) → length (drop k xs) ≤ length xs
length-drop-≤ zero xs = omega arith
length-drop-≤ (suc k) [] = omega arith
length-drop-≤ (suc k) (x ∷ xs) = let ih = length-drop-≤ k xs in omega (arith, ih)

take_line_shortens : (n : ℕ) (input : List ℕ) → length (take_line n input).1 ≤ length input
unfolding take_line
take_line_shortens zero input = omega arith
take_line_shortens (suc n) [] = omega arith
take_line_shortens (suc n) (b ∷ bs) = let ih = take_line_shortens n bs in ground (arith, ih)

pub get_string_shortens :
    (size : ℕ) (buffer input : List ℕ) → length (get_string size buffer input).1 ≤ length input
unfolding get_string fgets
get_string_shortens size buffer [] = omega arith
get_string_shortens size buffer (b ∷ bs) = take_line_shortens (size - 1) (b ∷ bs)

pub wait_enter_shortens : (input : List ℕ) → length (wait_enter input) ≤ length input
unfolding wait_enter
wait_enter_shortens input = length-drop-≤ 2 input

pub scan_int-clear_input_buffer_end : (scan_int [] ≡ (none, [])) × (clear_input_buffer [] ≡ [])
unfolding scan_int clear_input_buffer
scan_int-clear_input_buffer_end = (refl, refl)

-- With room for a byte, `fgets` takes one where there is one.
pub fgets_takes :
    (n b : ℕ) (bs : List ℕ) → length (fgets (suc (suc n)) [] (b ∷ bs)).1 < length (b ∷ bs)
unfolding fgets take_line
fgets_takes n b bs = ground (arith, take_line_shortens n bs)
