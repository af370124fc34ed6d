-- ===== src/Slots.antt =====
-- The arrays of src/gateway.c and src/gpio.c that hold their entries up to a count: the loops that
-- take one entry out by moving the later ones down, as they run over the array's indices.
pub mod Removal
pub mod Tests
use linux_file_manager.Prelude.{
  Bool, List, [], get_or, if◌then◌else◌, set, suc, zero, ℕ, ◌+◌, ◌-◌, ◌==◌,
}
use linux_file_manager.Gateway.{GatewayDevice, new_device}

module _ {A : Type 0} (other : A) where
  -- `for (j = i; j < count - 1; j++) xs[j] = xs[j + 1];` with `n` turns left. `other` stands for
  -- what is read behind the array, which does not happen.
  pub move_down : ℕ → ℕ → List A → List A
  move_down zero j xs = xs
  move_down (suc n) j xs = move_down n (j + 1) (set xs j (get_or xs (j + 1) other))

  -- `for (i = 0; i < count; i++) if (xs[i] is it) { …; count--; break; }` from index `i` with `n` turns
  -- left.
  pub take_out : (A → Bool) → ℕ → ℕ → List A → ℕ → List A × ℕ
  unfolding move_down
  take_out is_it zero i xs count = (xs, count)
  take_out is_it (suc n) i xs count =
      let rest = take_out is_it n (i + 1) xs count in
      if is_it (get_or xs i other) then (move_down n i xs, count - 1) else rest

-- `ctx->devices` of 32 records, and `ctx->device_count`.
pub remove_device_slots : ℕ → List GatewayDevice → ℕ → List GatewayDevice × ℕ
unfolding take_out
remove_device_slots fd devices count =
    take_out (new_device 0 [] 0 0) (λ d. d.fd == fd) count 0 devices count

-- `gpio_initialized` of 16 numbers, and `gpio_init_count`.
pub remove_pin_slots : ℕ → List ℕ → ℕ → List ℕ × ℕ
unfolding take_out
remove_pin_slots pin pins count = take_out 0 (λ p. p == pin) count 0 pins count
