-- ===== src/Slots/Removal.antt =====
-- The removal loops of src/gateway.c and src/gpio.c do to an array what the models do to a list.
use linux_file_manager.Prelude.{
  Bool, Bool-cases, List, [], ap, append-nil, append_assoc, arith, get_or, get_or-append_at,
  if◌then◌else◌, inl, inr, length, length-append, refl, set, subst, suc, sym, take, take-append,
  zero, ℕ, ◌++◌, ◌+◌, ◌-◌, ◌==◌, ◌∙◌, ◌∷◌, ◌≡◌, ◌≤◌,
}
use linux_file_manager.Gpio.{remove_pin}
use linux_file_manager.Gateway.{
  GatewayCtx, GatewayDevice, device_count, new_device, remove_device, remove_fd,
}
use linux_file_manager.Slots.{move_down, remove_device_slots, remove_pin_slots, take_out}

-- The reference: the first entry that is the one, left out.
abbrev leave_out : {A : Type 0} → (A → Bool) → List A → List A
leave_out is_it [] = []
leave_out is_it (x ∷ xs) = if is_it x then xs else x ∷ leave_out is_it xs

module _ {A : Type 0} (other : A) where
  set-append :
      (pre rest : List A) (x v : A) → set (pre ++ x ∷ rest) (length pre) v ≡ pre ++ v ∷ rest
  set-append [] rest x v = refl
  set-append (p ∷ pre) rest x v = ap (◌∷◌ p) (set-append pre rest x v)

  get_or-after :
      (pre rest : List A) (x y : A) → get_or (pre ++ x ∷ y ∷ rest) (length pre + 1) other ≡ y
  get_or-after [] rest x y = refl
  get_or-after (p ∷ pre) rest x y =
      let e : suc (length pre) + 1 ≡ suc (length pre + 1) = omega arith in
      rw e (get_or-after pre rest x y)

  move_down_lem :
      (n : ℕ) (pre : List A) (x : A) (rest : List A)
      → n ≤ length rest
      → take (length pre + n) (move_down other n (length pre) (pre ++ x ∷ rest))
        ≡ pre ++ take n rest
  unfolding move_down
  move_down_lem zero pre x rest h =
      take-append (length pre + 0) pre (x ∷ rest) (omega arith) ∙ sym (append-nil pre)
  move_down_lem (suc n) pre x [] h = absurd (omega (arith, h))
  move_down_lem (suc n) pre x (y ∷ rest) h =
      let old : List A = pre ++ x ∷ y ∷ rest in
      let kept : List A = pre ++ y ∷ [] in
      let len : length kept ≡ length pre + 1 = length-append pre (y ∷ []) in
      let sum : length pre + suc n ≡ length kept + n = omega (arith, len) in
      let moved : set old (length pre) (get_or old (length pre + 1) other) ≡ kept ++ y ∷ rest =
        ap (set old (length pre)) (get_or-after pre rest x y)
        ∙ set-append pre (y ∷ rest) x y
        ∙ sym (append_assoc pre (y ∷ []) (y ∷ rest)) in
      rw (moved, sum, ← len)
        (move_down_lem n kept y rest (omega (arith, h)) ∙ append_assoc pre (y ∷ []) (take n rest))

  -- From any index: what was passed, and the reference on what is left.
  take_out_lem :
      (is_it : A → Bool) (n : ℕ) (pre rest : List A)
      → n ≤ length rest
      → let (xs, count) = take_out other is_it n (length pre) (pre ++ rest) (length pre + n) in
        take count xs ≡ pre ++ leave_out is_it (take n rest)
  unfolding take_out
  take_out_lem is_it zero pre rest h =
      take-append (length pre + 0) pre rest (omega arith) ∙ sym (append-nil pre)
  take_out_lem is_it (suc n) pre [] h = absurd (omega (arith, h))
  take_out_lem is_it (suc n) pre (x ∷ rest) h =
      let at : get_or (pre ++ x ∷ rest) (length pre) other ≡ x =
        get_or-append_at pre (x ∷ rest) (length pre) other refl in
      elim (Bool-cases (is_it x)) [
        | inl found ↦
            let less : length pre + suc n - 1 ≡ length pre + n = omega arith in
            rw (at, found, less) (move_down_lem n pre x rest (omega (arith, h)))
        | inr passed ↦
            let seen : List A = pre ++ x ∷ [] in
            let len : length seen ≡ length pre + 1 = length-append pre (x ∷ []) in
            let sum : length pre + suc n ≡ length seen + n = omega (arith, len) in
            let whole : pre ++ x ∷ rest ≡ seen ++ rest = sym (append_assoc pre (x ∷ []) rest) in
            rw (at, passed, sum, ← len, whole)
              (take_out_lem is_it n seen rest (omega (arith, h))
                ∙ append_assoc pre (x ∷ []) (leave_out is_it (take n rest)))
      ]

  take_out_all :
      (is_it : A → Bool) (xs : List A) (count : ℕ)
      → count ≤ length xs
      → let (ys, left) = take_out other is_it count 0 xs count in
        take left ys ≡ leave_out is_it (take count xs)
  take_out_all is_it xs count h =
      let e : 0 + count ≡ count = omega arith in
      subst
        (λ c.
          let (ys, left) = take_out other is_it count 0 xs c in
          take left ys ≡ leave_out is_it (take count xs))
        e (take_out_lem is_it count [] xs h)

remove_fd_eq : (fd : ℕ) (ds : List GatewayDevice) → leave_out (λ d. d.fd == fd) ds ≡ remove_fd fd ds
unfolding remove_fd
remove_fd_eq fd [] = refl
remove_fd_eq fd (d ∷ ds) = ap (λ r. if d.fd == fd then ds else d ∷ r) (remove_fd_eq fd ds)

remove_pin_eq : (pin : ℕ) (ps : List ℕ) → leave_out (λ p. p == pin) ps ≡ remove_pin pin ps
unfolding remove_pin
remove_pin_eq pin [] = refl
remove_pin_eq pin (p ∷ ps) = ap (λ r. if p == pin then ps else p ∷ r) (remove_pin_eq pin ps)

-- The loops of `remove_device` and `gpio_uninit` over the indices of their arrays, where the count is
-- at most the array's length: up to the new count, the array holds what the list models give, the
-- entries up to the old count without the first one that is asked for, in their order.
pub removal_loops :
    (c : GatewayCtx) (fd : ℕ) (devices : List GatewayDevice) (pin : ℕ) (pins : List ℕ) (count : ℕ)
    → device_count c ≤ length devices
    → c.devices ≡ take (device_count c) devices
    → count ≤ length pins
    → (take
          (remove_device_slots fd devices (device_count c)).1
          (remove_device_slots fd devices (device_count c)).0
        ≡ (remove_device c fd).devices)
      × (take (remove_pin_slots pin pins count).1 (remove_pin_slots pin pins count).0
          ≡ remove_pin pin (take count pins))
unfolding remove_device_slots remove_pin_slots remove_device
removal_loops c fd devices pin pins count fits held low = (
  take_out_all (new_device 0 [] 0 0) (λ d. d.fd == fd) devices (device_count c) fits
      ∙ remove_fd_eq fd (take (device_count c) devices)
      ∙ ap (remove_fd fd) (sym held),
  take_out_all 0 (λ p. p == pin) pins count low ∙ remove_pin_eq pin (take count pins),
)
