-- ===== src/Evdev/Devices/Probe/Tests.antt =====
-- A probe of a machine with one keyboard and one mouse.
use toothkey.Base.{◌≡◌, refl, true, Option, some, none, List, [], ◌∷◌, length, All}
use toothkey.Evdev.Keys.{key_a, key_z, key_space, key_enter, Key-discrete}
use toothkey.Evdev.Devices.{Device, discover_keyboards, is_text_keyboard}
use toothkey.Evdev.Grabber.Owned.{closed}
use toothkey.Evdev.Devices.Probe.{describe_input_devices, probe_loop}
use toothkey.Evdev.Devices.Probe.Agrees.{IsExplained, Same, describe_input_devices-agrees}

abbrev keyboard : Device
keyboard = record {
  fd = 7;
  path = 3;
  capabilities =
      some
        (record { ev_key = key_a ∷ key_z ∷ key_space ∷ key_enter ∷ []; ev_rel = []; ev_abs = [] });
  grabbable = true;
}

abbrev mouse : Device
mouse = record {
  fd = 8;
  path = 4;
  capabilities = some (record { ev_key = []; ev_rel = 0 ∷ []; ev_abs = [] });
  grabbable = true;
}

abbrev nodes : List (Option Device)
nodes = none ∷ some keyboard ∷ some mouse ∷ []

one_is_eligible : (describe_input_devices (some nodes) closed).0 ≡ 1
unfolding describe_input_devices is_text_keyboard Key-discrete
one_is_eligible = refl

describe_input_devices-agrees_example :
    ((describe_input_devices (some nodes) closed).0
      ≡ length ((discover_keyboards (some nodes) closed).0))
    × (All IsExplained ((probe_loop nodes closed).lines)
        × Same closed ((describe_input_devices (some nodes) closed).1))
describe_input_devices-agrees_example =
    describe_input_devices-agrees nodes closed closed (λ f free. refl) (refl, (refl, tt))
