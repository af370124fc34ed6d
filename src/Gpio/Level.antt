-- ===== src/Gpio/Level.antt =====
-- What the value file of a pin reads after the operations of src/gpio.c.
use linux_file_manager.Prelude.{
  ==_iff, Bool, List, [], arith, false, if◌then◌else◌, not, refl, some, subst, sym, true, ℕ, ◌==◌,
  ◌||◌, ◌∙◌, ◌∷◌, ◌≡◌,
}
use linux_file_manager.Gpio.{
  Gpio, Sysfs, WriteResult, busy, direction_node, direction_text, drive, export_node, failed,
  gpio_dir_out, gpio_init, gpio_set, gpio_to_sysfs, has_pin, init_directed, init_driven,
  init_exported, level_of, level_text, num_str, put_text, record_pin, rewrite, set_checked,
  sysfs_read, target_of, value_node, wrote,
}

-- The check looks at the first byte that was read.
level_of-sysfs_read :
    (bytes buf : List ℕ) → level_of (sysfs_read (some bytes) buf 8).1 ≡ level_of bytes
unfolding level_of sysfs_read
level_of-sysfs_read [] [] = refl
level_of-sysfs_read [] (x ∷ buf) = refl
level_of-sysfs_read (b ∷ bytes) buf = refl

module _ {W : Type 0} (sys : Sysfs W) (stack : List ℕ) where
  -- A world whose value file passes the check.
  Shows : ℕ → ℕ → W → Type 0
  Shows pin target w =
      (bytes : List ℕ) → sys.read w (value_node pin) ≡ some bytes → level_of bytes ≡ target

  checked :
      (w : W) (pin target : ℕ) (buf : List ℕ)
      → (level_of (sysfs_read (sys.read w (value_node pin)) buf 8).1 == target) ≡ true
      → Shows pin target w
  unfolding Shows
  checked w pin target buf ok bytes seen =
      let level : level_of (sysfs_read (sys.read w (value_node pin)) buf 8).1 ≡ level_of bytes =
        rw seen (level_of-sysfs_read bytes buf) in
      sym level ∙ (==_iff _ _).0 ok

  -- Either way through a test ends in a world of that kind.
  either_way :
      (pin target : ℕ) (b : Bool) (w : W) (r : Bool × W)
      → (b ≡ true → Shows pin target w)
      → (r.0 ≡ true → Shows pin target r.1)
      → (if b then (true, w) else r).0 ≡ true
      → Shows pin target (if b then (true, w) else r).1
  either_way pin target true w r f g ok = f refl
  either_way pin target false w r f g ok = g ok

  drive-Shows :
      (w : W) (pin target : ℕ)
      → (drive sys stack w pin target).0 ≡ true
      → Shows pin target (drive sys stack w pin target).1
  unfolding drive rewrite
  drive-Shows w pin target = either_way pin target _ _ _ (checked _ pin target stack) (
      checked _ pin target
        (sysfs_read
          (sys.read
            (put_text sys stack (put_text sys stack w (value_node pin) (b'0' ∷ b'\n' ∷ []))
              (value_node pin) (level_text target))
            (value_node pin))
          stack 8).1)

  record_world : (g : Gpio W) (pin : ℕ) → (record_pin sys stack g pin).world ≡ g.world
  unfolding record_pin
  record_world g pin = ground arith

  driven-Shows :
      (g : Gpio W) (pin target : ℕ) (r : Bool × W)
      → (r.0 ≡ true → Shows pin target r.1)
      → (init_driven sys stack g pin r).0 ≡ true
      → Shows pin target (init_driven sys stack g pin r).1.world
  unfolding init_driven
  driven-Shows g pin target (true, w) h ok =
      subst (Shows pin target) (sym (record_world (record g { world = w }) pin)) (h refl)
  driven-Shows g pin target (false, w) h ok = absurd (ground (arith, ok))

  directed-Shows :
      (g : Gpio W) (pin value : ℕ) (r : WriteResult)
      → (init_directed sys stack g pin gpio_dir_out value r).0 ≡ true
      → Shows pin (target_of value) (init_directed sys stack g pin gpio_dir_out value r).1.world
  unfolding init_directed gpio_to_sysfs
  directed-Shows g pin value failed ok = absurd (ground (arith, ok))
  directed-Shows g pin value busy ok = absurd (ground (arith, ok))
  directed-Shows g pin value wrote ok =
      driven-Shows g pin (target_of value) _ (drive-Shows g.world pin (target_of value)) ok

  exported-Shows :
      (g : Gpio W) (pin value : ℕ) (r : WriteResult)
      → (init_exported sys stack g pin gpio_dir_out value r).0 ≡ true
      → Shows pin (target_of value) (init_exported sys stack g pin gpio_dir_out value r).1.world
  unfolding init_exported gpio_to_sysfs
  exported-Shows g pin value failed ok = absurd (ground (arith, ok))
  exported-Shows g pin value busy ok =
      directed-Shows
        (record g {
          world = (sys.write g.world (direction_node pin) (direction_text gpio_dir_out)).1;
        })
        pin value _ ok
  exported-Shows g pin value wrote ok =
      directed-Shows
        (record g {
          world = (sys.write g.world (direction_node pin) (direction_text gpio_dir_out)).1;
        })
        pin value _ ok

  if_new :
      (pin target : ℕ) (g : Gpio W) (known : Bool) (r : Bool × Gpio W)
      → (r.0 ≡ true → Shows pin target r.1.world)
      → (if known then (false, g) else r).0 ≡ true
      → Shows pin target (if known then (false, g) else r).1.world
  if_new pin target g true r h ok = absurd (ground (arith, ok))
  if_new pin target g false r h ok = h ok

  init-Shows :
      (g : Gpio W) (pin value : ℕ)
      → (gpio_init sys stack g pin gpio_dir_out value).0 ≡ true
      → Shows pin (target_of value) (gpio_init sys stack g pin gpio_dir_out value).1.world
  unfolding gpio_init gpio_to_sysfs
  init-Shows g pin value = if_new pin (target_of value) g (has_pin pin g.initialized) _ (
      exported-Shows (record g { world = (sys.write g.world export_node (num_str pin)).1 }) pin
        value _)

  -- When `gpio_init` makes a pin an output and returns 0, the pin's value file, if it can be read,
  -- shows the level that was asked for: 1 for GPIO_HIGH, 0 for any other number.
  gpio_init_level :
      (g : Gpio W) (pin value : ℕ) (bytes : List ℕ)
      → (gpio_init sys stack g pin gpio_dir_out value).0 ≡ true
      → sys.read (gpio_init sys stack g pin gpio_dir_out value).1.world (value_node pin)
        ≡ some bytes
      → level_of bytes ≡ target_of value
  unfolding gpio_init gpio_to_sysfs Shows
  gpio_init_level g pin value bytes ok seen = init-Shows g pin value ok bytes seen

  set-Shows :
      (pin value : ℕ) (w : W) (r : WriteResult)
      → set_checked sys stack pin value w r ≡ true
      → Shows pin (target_of value) w
  unfolding set_checked Shows sysfs_read
  set-Shows pin value w wrote ok bytes seen =
      sym (level_of-sysfs_read bytes stack)
      ∙ (==_iff _ _).0 (
          subst
            (λ x.
              (not (sysfs_read x stack 8).0 || level_of (sysfs_read x stack 8).1 == target_of value)
              ≡ true)
            seen ok)
  set-Shows pin value w busy ok bytes seen = absurd (ground (arith, ok))
  set-Shows pin value w failed ok bytes seen = absurd (ground (arith, ok))

  -- When `gpio_set` returns 0, the pin's value file, if it can be read, shows the level that was
  -- asked for.
  pub gpio_set_level :
      (g : Gpio W) (pin value : ℕ) (bytes : List ℕ)
      → (gpio_set sys stack g pin value).0 ≡ true
      → sys.read (gpio_set sys stack g pin value).1.world (value_node pin) ≡ some bytes
      → level_of bytes ≡ target_of value
  unfolding gpio_set gpio_to_sysfs Shows
  gpio_set_level g pin value bytes ok seen = set-Shows pin value _ _ ok bytes seen
