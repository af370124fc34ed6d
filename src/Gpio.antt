-- ===== src/Gpio.antt =====
-- src/gpio.c: the pins behind the sysfs files under /sys/class/gpio. The kernel's files are
-- arguments; prints and delays are left out.
pub mod Level
pub mod Pins
pub mod Tests
use linux_file_manager.Prelude.{
  Bool, List, Option, [], decimal, false, get_or, if◌then◌else◌, length, ltb, memcpy, none, not,
  set, some, suc, take, text, true, zero, ℕ, ◌++◌, ◌-◌, ◌==◌, ◌||◌, ◌∷◌,
}

abbrev pub gpio_dir_out : ℕ
gpio_dir_out = 1

abbrev pub gpio_high : ℕ
gpio_high = 1

abbrev pub gpio_low : ℕ
gpio_low = 0

abbrev pub gpio_pc9 : ℕ
gpio_pc9 = 73

abbrev pub gpio_max_pins : ℕ
gpio_max_pins = 16

-- The files that the code opens, by their paths.
pub data Node : Type 0 where
  export_node unexport_node : Node
  direction_node value_node : ℕ → Node

-- `write` fails with `errno` EBUSY or with another error.
pub data WriteResult : Type 0 where
  wrote busy failed : WriteResult

-- The kernel: what `open`, `write` and `close` do to it, and the bytes that `open` and `read` give,
-- `none` when one of them fails.
pub record Sysfs (W : Type 0) : Type 0 where
  pub write : W → Node → List ℕ → WriteResult × W
  pub read : W → Node → Option (List ℕ)

-- `gpio_initialized` up to `gpio_init_count`, and the kernel's state.
pub record Gpio (W : Type 0) : Type 0 where
  pub initialized : List ℕ
  pub world : W

-- `snprintf(num_str, sizeof(num_str), "%d", sysfs_pin)` into 8 bytes.
pub num_str : ℕ → List ℕ
unfolding decimal
num_str pin = take 7 (decimal pin)

pub gpio_to_sysfs : ℕ → ℕ
gpio_to_sysfs pin = pin

pub has_pin : ℕ → List ℕ → Bool
has_pin pin [] = false
has_pin pin (p ∷ ps) = p == pin || has_pin pin ps

-- The first entry goes, and the later ones move up by one.
unfoldable pub remove_pin : ℕ → List ℕ → List ℕ
remove_pin pin [] = []
remove_pin pin (p ∷ ps) = if p == pin then ps else p ∷ remove_pin pin ps

-- `sysfs_read` into a buffer of `size` bytes: whether it gives 0, and the buffer.
pub sysfs_read : Option (List ℕ) → List ℕ → ℕ → Bool × List ℕ
sysfs_read none buf size = (false, buf)
sysfs_read (some bytes) buf size =
    let got = take (size - 1) bytes in (true, set (memcpy buf 0 got (length got)) (length got) 0)

-- `(buf[0] == '1') ? 1 : 0`
pub level_of : List ℕ → ℕ
level_of buf = if get_or buf 0 0 == b'1' then gpio_high else gpio_low

-- `(value == GPIO_HIGH) ? 1 : 0`, and its text with the newline.
pub target_of : ℕ → ℕ
target_of value = if value == gpio_high then 1 else 0

pub level_text : ℕ → List ℕ
unfolding decimal
level_text target = decimal target ++ b'\n' ∷ []

-- `direction == GPIO_DIR_OUT ? "out\n" : "in\n"`
pub direction_text : ℕ → List ℕ
direction_text direction =
    if direction == gpio_dir_out then b'o' ∷ b'u' ∷ b't' ∷ b'\n' ∷ [] else b'i' ∷ b'n' ∷ b'\n' ∷ []

-- `stack` is what an uninitialised buffer of 8 bytes holds.
module _ {W : Type 0} (sys : Sysfs W) (stack : List ℕ) where
  -- Only a negative result of `sysfs_write` matters where this is used.
  pub put_text : W → Node → List ℕ → W
  put_text w node text = (sys.write w node text).1

  -- The second round, when the first check failed.
  pub rewrite : W → ℕ → ℕ → List ℕ → Bool × W
  unfolding put_text sysfs_read level_of level_text
  rewrite w pin target verify =
      let w' = put_text w (value_node pin) (level_text target) in
      (level_of (sysfs_read (sys.read w' (value_node pin)) verify 8).1 == target, w')

  -- The value of an output pin: first 0, then the target, with one or two checks.
  pub drive : W → ℕ → ℕ → Bool × W
  unfolding put_text sysfs_read level_of level_text rewrite
  drive w pin target =
      let w1 = put_text w (value_node pin) (b'0' ∷ b'\n' ∷ []) in
      let w2 = put_text w1 (value_node pin) (level_text target) in
      let verify = (sysfs_read (sys.read w2 (value_node pin)) stack 8).1 in
      let again = rewrite w2 pin target verify in
      if level_of verify == target then (true, w2) else again

  -- The result is 0 (`true`) or -1 (`false`).
  pub record_pin : Gpio W → ℕ → Gpio W
  record_pin g pin =
      if ltb (length g.initialized) gpio_max_pins
      then record g { initialized = g.initialized ++ pin ∷ [] }
      else g

  pub init_driven : Gpio W → ℕ → Bool × W → Bool × Gpio W
  unfolding record_pin
  init_driven g pin (ok, w) =
      if ok
      then (true, record_pin (record g { world = w }) pin)
      else (false, record g { world = w })

  -- From the result of setting the direction on.
  pub init_directed : Gpio W → ℕ → ℕ → ℕ → WriteResult → Bool × Gpio W
  unfolding drive target_of gpio_to_sysfs init_driven
  init_directed g pin direction initial_value failed = (false, g)
  init_directed g pin direction initial_value busy = (false, g)
  init_directed g pin direction initial_value wrote =
      if direction == gpio_dir_out
      then init_driven g pin (drive g.world (gpio_to_sysfs pin) (target_of initial_value))
      else init_driven g pin (true, g.world)

  -- From the result of the export on: a busy pin may have been exported before.
  pub init_exported : Gpio W → ℕ → ℕ → ℕ → WriteResult → Bool × Gpio W
  unfolding init_directed direction_text gpio_to_sysfs
  init_exported g pin direction initial_value failed = (false, g)
  init_exported g pin direction initial_value _ =
      let (r, w) =
        sys.write g.world (direction_node (gpio_to_sysfs pin)) (direction_text direction) in
      init_directed (record g { world = w }) pin direction initial_value r

  pub gpio_init : Gpio W → ℕ → ℕ → ℕ → Bool × Gpio W
  unfolding has_pin num_str gpio_to_sysfs init_exported
  gpio_init g pin direction initial_value =
      let (r, w) = sys.write g.world export_node (num_str (gpio_to_sysfs pin)) in
      if has_pin pin g.initialized
      then (false, g)
      else init_exported (record g { world = w }) pin direction initial_value r

  pub set_checked : ℕ → ℕ → W → WriteResult → Bool
  unfolding sysfs_read level_of target_of
  set_checked pin value w busy = false
  set_checked pin value w failed = false
  set_checked pin value w wrote =
      let (ok, verify) = sysfs_read (sys.read w (value_node pin)) stack 8 in
      not ok || level_of verify == target_of value

  pub gpio_set : Gpio W → ℕ → ℕ → Bool × Gpio W
  unfolding level_text target_of gpio_to_sysfs set_checked
  gpio_set g pin value =
      let (r, w) =
        sys.write g.world (value_node (gpio_to_sysfs pin)) (level_text (target_of value)) in
      (set_checked (gpio_to_sysfs pin) value w r, record g { world = w })

  -- `none` for the result -1.
  pub gpio_get : Gpio W → ℕ → Option ℕ
  unfolding sysfs_read level_of gpio_to_sysfs
  gpio_get g pin =
      let (ok, buf) = sysfs_read (sys.read g.world (value_node (gpio_to_sysfs pin))) stack 8 in
      if ok then some (level_of buf) else none

  pub gpio_toggle : Gpio W → ℕ → Bool × Gpio W
  unfolding gpio_get gpio_set
  gpio_toggle g pin = elim (gpio_get g pin) [
    | none ↦ (false, g)
    | some current ↦ gpio_set g pin (if current == 0 then 1 else 0)
  ]

  pub gpio_uninit : Gpio W → ℕ → WriteResult × Gpio W
  unfolding put_text remove_pin num_str gpio_to_sysfs
  gpio_uninit g pin =
      let w = put_text g.world (value_node (gpio_to_sysfs pin)) (b'0' ∷ []) in
      let (r, w') = sys.write w unexport_node (num_str (gpio_to_sysfs pin)) in
      (r, record { initialized = remove_pin pin g.initialized; world = w' })

  pub gpio_boot_indicator_init : Gpio W → Bool × Gpio W
  unfolding gpio_init
  gpio_boot_indicator_init g = gpio_init g gpio_pc9 gpio_dir_out gpio_high

  -- `for` from the last entry to the first. A call removes one entry, so each index is in use.
  pub cleanup_from : ℕ → Gpio W → Gpio W
  unfolding gpio_uninit
  cleanup_from zero g = g
  cleanup_from (suc i) g = cleanup_from i (gpio_uninit g (get_or g.initialized i 0)).1

  unfoldable pub gpio_cleanup : Gpio W → Gpio W
  unfolding cleanup_from
  gpio_cleanup g = record (cleanup_from (length g.initialized) g) { initialized = [] }
