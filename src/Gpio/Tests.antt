-- ===== src/Gpio/Tests.antt =====
-- src/gpio.c over a small kernel: its state is the text of each value file.
use linux_file_manager.Prelude.{List, [], arith, refl, some, text, ℕ, ◌∷◌, ◌≡◌}
use linux_file_manager.Gpio.{
  Gpio, Node, Sysfs, WriteResult, direction_node, export_node, gpio_cleanup, has_pin, unexport_node,
  value_node, wrote,
}
use linux_file_manager.Gpio.Pins.{IsValid, gpio_cleanup_lem, release_upto}

-- The level of every pin is one text, which a write to a value file replaces.
write_text : List ℕ → Node → List ℕ → WriteResult × List ℕ
write_text w (value_node pin) text = (wrote, text)
write_text w (direction_node pin) text = (wrote, w)
write_text w export_node text = (wrote, w)
write_text w unexport_node text = (wrote, w)

abbrev one_text : Sysfs (List ℕ)
one_text = record { write = write_text; read = λ w node. some w }

abbrev start : Gpio (List ℕ)
start = record { initialized = 7 ∷ 70 ∷ []; world = [] }

start-IsValid : IsValid start
unfolding has_pin
start-IsValid = ((refl, (refl, tt)), omega arith)

gpio_cleanup_lem_example :
    gpio_cleanup one_text [] start
    ≡ record { initialized = []; world = release_upto one_text [] 2 (7 ∷ 70 ∷ []) [] }
gpio_cleanup_lem_example = gpio_cleanup_lem one_text [] start start-IsValid
