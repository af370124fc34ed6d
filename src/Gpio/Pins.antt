-- ===== src/Gpio/Pins.antt =====
-- The table of pins of src/gpio.c, and what `gpio_cleanup` gives back.
use linux_file_manager.Prelude.{
  ==-refl, Bool, Bool-cases, List, [], ap, arith, false, get_or, if◌then◌else◌, inl, inr, length,
  length-append, ltb, ltb→lt, refl, subst, suc, take, take-length, true, zero, ℕ, ◌++◌, ◌<◌, ◌==◌,
  ◌||◌, ◌∷◌, ◌≡◌, ◌≤◌,
}
use linux_file_manager.Gpio.{
  Gpio, Sysfs, WriteResult, busy, cleanup_from, direction_node, direction_text, export_node, failed,
  gpio_cleanup, gpio_dir_out, gpio_init, gpio_max_pins, gpio_to_sysfs, gpio_uninit, has_pin,
  init_directed, init_driven, init_exported, num_str, put_text, record_pin, remove_pin,
  unexport_node, value_node, wrote,
}

abbrev pub Distinct : List ℕ → Type 0
Distinct [] = Unit
Distinct (p ∷ ps) = (has_pin p ps ≡ false) × Distinct ps

-- No pin is entered twice, and the table is in its array.
abbrev pub IsValid : {W : Type 0} → Gpio W → Type 0
IsValid g = Distinct g.initialized × (length g.initialized ≤ gpio_max_pins)

has_pin-append : (q p : ℕ) (ps : List ℕ) → has_pin q (ps ++ p ∷ []) ≡ (has_pin q ps || p == q)
unfolding has_pin
has_pin-append q p [] = ground arith
has_pin-append q p (x ∷ ps) = ground (arith, has_pin-append q p ps)

Distinct-append :
    (p : ℕ) (ps : List ℕ) → has_pin p ps ≡ false → Distinct ps → Distinct (ps ++ p ∷ [])
unfolding has_pin
Distinct-append p [] new d = ground arith
Distinct-append p (x ∷ ps) new d = (
  ground (arith, has_pin-append x p ps, new, d.0),
  Distinct-append p ps (ground (arith, new)) d.1,
)

has_pin-remove_pin :
    (q p : ℕ) (ps : List ℕ) → has_pin q ps ≡ false → has_pin q (remove_pin p ps) ≡ false
unfolding has_pin remove_pin
has_pin-remove_pin q p [] h = refl
has_pin-remove_pin q p (x ∷ ps) h = ground (arith, has_pin-remove_pin q p ps, h)

Distinct-remove_pin : (p : ℕ) (ps : List ℕ) → Distinct ps → Distinct (remove_pin p ps)
unfolding remove_pin
Distinct-remove_pin p [] d = tt
Distinct-remove_pin p (x ∷ ps) d = elim (Bool-cases (x == p)) [
  | inl same ↦ rw same (d.1)
  | inr other ↦ rw other (has_pin-remove_pin x p ps d.0, Distinct-remove_pin p ps d.1)
]

length-remove_pin : (p : ℕ) (ps : List ℕ) → length (remove_pin p ps) ≤ length ps
unfolding remove_pin
length-remove_pin p [] = omega arith
length-remove_pin p (x ∷ ps) = ground (arith, length-remove_pin p ps)

has_pin-get_or :
    (x : ℕ) (ps : List ℕ) (i : ℕ)
    → has_pin x ps ≡ false
    → i < length ps
    → (x == get_or ps i 0) ≡ false
unfolding has_pin
has_pin-get_or x [] i h lt = absurd (omega (arith, lt))
has_pin-get_or x (p ∷ ps) zero h lt = ground (arith, h)
has_pin-get_or x (p ∷ ps) (suc i) h lt =
    has_pin-get_or x ps i (ground (arith, h)) (omega (arith, lt))

-- Of distinct pins, removing the last one leaves the others.
remove_pin-last :
    (ps : List ℕ) (i : ℕ)
    → Distinct ps
    → i < length ps
    → remove_pin (get_or ps i 0) (take (suc i) ps) ≡ take i ps
unfolding remove_pin
remove_pin-last [] i d lt = absurd (omega (arith, lt))
remove_pin-last (p ∷ ps) zero d lt = rw (==-refl p) refl
remove_pin-last (p ∷ ps) (suc i) d lt =
    rw (has_pin-get_or p ps i d.0 (omega (arith, lt)), remove_pin-last ps i d.1 (omega (arith, lt)))
      refl

get_or-take_last :
    (ps : List ℕ) (i : ℕ) → i < length ps → get_or (take (suc i) ps) i 0 ≡ get_or ps i 0
get_or-take_last [] i lt = absurd (omega (arith, lt))
get_or-take_last (p ∷ ps) zero lt = refl
get_or-take_last (p ∷ ps) (suc i) lt = get_or-take_last ps i (omega (arith, lt))

module _ {W : Type 0} (sys : Sysfs W) (stack : List ℕ) where
  -- What is done to one pin: its output goes low, and it is unexported.
  abbrev pub release : W → ℕ → W
  release w pin =
      (sys.write (sys.write w (value_node pin) (b'0' ∷ [])).1 unexport_node (num_str pin)).1

  -- The first `n` pins, the last of them first.
  abbrev pub release_upto : ℕ → List ℕ → W → W
  release_upto zero ps w = w
  release_upto (suc i) ps w = release_upto i ps (release w (get_or ps i 0))

  cleanup_from_lem :
      (i : ℕ) (ps : List ℕ) (w : W)
      → Distinct ps
      → i ≤ length ps
      → cleanup_from sys stack i (record { initialized = take i ps; world = w })
        ≡ record { initialized = []; world = release_upto i ps w }
  unfolding cleanup_from gpio_uninit gpio_to_sysfs put_text
  cleanup_from_lem zero ps w d le = refl
  cleanup_from_lem (suc i) ps w d le =
      rw (get_or-take_last ps i (omega (arith, le)), remove_pin-last ps i d (omega (arith, le)))
        (cleanup_from_lem i ps (release w (get_or ps i 0)) d (omega (arith, le)))

  -- With distinct pins in the table, `gpio_cleanup` drives each one low and unexports it, once, in the
  -- reverse order of their initialisation, and leaves the table empty.
  pub gpio_cleanup_lem :
      (g : Gpio W)
      → IsValid g
      → gpio_cleanup sys stack g ≡ record {
        initialized = [];
        world = release_upto (length g.initialized) g.initialized g.world;
      }
  unfolding gpio_cleanup
  gpio_cleanup_lem g v =
      let ps : List ℕ = g.initialized in
      let n : ℕ = length ps in
      let whole : take n ps ≡ ps = take-length n ps (omega arith) in
      ap (λ (h : Gpio W). record h { initialized = [] })
        (subst
          (λ qs.
            cleanup_from sys stack n (record { initialized = qs; world = g.world })
            ≡ record { initialized = []; world = release_upto n ps g.world })
          whole (cleanup_from_lem n ps g.world v.0 (omega arith)))

  driven_table :
      (g : Gpio W) (pin : ℕ) (r : Bool × W)
      → has_pin pin g.initialized ≡ false
      → IsValid g
      → IsValid (init_driven sys stack g pin r).1
  unfolding init_driven record_pin
  driven_table g pin (false, w) new v = v
  driven_table g pin (true, w) new v = elim (Bool-cases (ltb (length g.initialized) 16)) [
    | inl room ↦ rw room (
      Distinct-append pin g.initialized new v.0,
      omega (arith, length-append g.initialized (pin ∷ []), ltb→lt _ _ room),
    )
    | inr full ↦ rw full v
  ]

  directed_table :
      (g : Gpio W) (pin direction value : ℕ) (r : WriteResult)
      → has_pin pin g.initialized ≡ false
      → IsValid g
      → IsValid (init_directed sys stack g pin direction value r).1
  unfolding init_directed
  directed_table g pin direction value failed new v = v
  directed_table g pin direction value busy new v = v
  directed_table g pin direction value wrote new v = elim (Bool-cases (direction == gpio_dir_out)) [
    | inl out ↦ rw out (driven_table g pin _ new v)
    | inr in_ ↦ rw in_ (driven_table g pin (true, g.world) new v)
  ]

  exported_table :
      (g : Gpio W) (pin direction value : ℕ) (r : WriteResult)
      → has_pin pin g.initialized ≡ false
      → IsValid g
      → IsValid (init_exported sys stack g pin direction value r).1
  unfolding init_exported
  exported_table g pin direction value failed new v = v
  exported_table g pin direction value busy new v =
      directed_table
        (record g {
          world =
              (sys.write g.world (direction_node (gpio_to_sysfs pin)) (direction_text direction)).1;
        })
        pin direction value _ new v
  exported_table g pin direction value wrote new v =
      directed_table
        (record g {
          world =
              (sys.write g.world (direction_node (gpio_to_sysfs pin)) (direction_text direction)).1;
        })
        pin direction value _ new v

  refused_or :
      (g : Gpio W) (known : Bool) (r : Bool × Gpio W)
      → IsValid g
      → (known ≡ false → IsValid r.1)
      → IsValid (if known then (false, g) else r).1
  refused_or g true r v h = v
  refused_or g false r v h = h refl

  -- `gpio_init`, whatever the kernel answers, and `gpio_uninit` keep the table free of double entries
  -- and within its array.
  pub gpio_table :
      (g : Gpio W) (pin direction value : ℕ)
      → IsValid g
      → IsValid (gpio_init sys stack g pin direction value).1
        × IsValid (gpio_uninit sys stack g pin).1
  unfolding gpio_init gpio_uninit
  gpio_table g pin direction value v =
      let exported : Gpio W = record g {
        world = (sys.write g.world export_node (num_str (gpio_to_sysfs pin))).1;
      } in
      (
        refused_or g (has_pin pin g.initialized) _ v
            (λ new. exported_table exported pin direction value _ new v),
        (
          Distinct-remove_pin pin g.initialized v.0,
          omega (arith, length-remove_pin pin g.initialized, v.1),
        ),
      )
