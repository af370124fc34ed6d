-- ===== src/Slots/Tests.antt =====
-- The arrays of src/gateway.c and src/gpio.c with a few entries.
use linux_file_manager.Prelude.{List, [], arith, refl, take, ℕ, ◌∷◌, ◌≡◌}
use linux_file_manager.Gateway.{GatewayDevice, remove_device}
use linux_file_manager.Gateway.Tests.{lamp, sample_ctx, sensor}
use linux_file_manager.Gpio.{remove_pin}
use linux_file_manager.Slots.{remove_device_slots, remove_pin_slots}
use linux_file_manager.Slots.Removal.{removal_loops}

-- Behind the two devices and the two pins stands what an earlier removal left.
abbrev old_devices : List GatewayDevice
old_devices = sensor ∷ lamp ∷ lamp ∷ []

abbrev old_pins : List ℕ
old_pins = 7 ∷ 70 ∷ 70 ∷ []

removal_loops_example :
    (take (remove_device_slots 5 old_devices 2).1 (remove_device_slots 5 old_devices 2).0
      ≡ (remove_device sample_ctx 5).devices)
    × (take (remove_pin_slots 7 old_pins 2).1 (remove_pin_slots 7 old_pins 2).0
        ≡ remove_pin 7 (take 2 old_pins))
removal_loops_example =
    removal_loops sample_ctx 5 old_devices 7 old_pins 2 (omega arith) refl (omega arith)
