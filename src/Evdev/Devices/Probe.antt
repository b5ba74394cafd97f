-- ===== src/Evdev/Devices/Probe.antt =====
-- describe_input_devices: the probe of the input devices at the start of the worker.
pub mod Agrees
mod Tests
use toothkey.Base.{
  ℕ, ◌+◌, Bool, true, false, Option, none, some, List, [], ◌∷◌, if◌then◌else◌, length,
}
use toothkey.Evdev.Devices.{
  Device, Kernel, open_device, close_device, is_text_keyboard, ineligible_reason, Reason,
}

-- what is logged of a node
pub data Line : Type 0 where
  cannot_open : Line
  will_grab : Device → Line
  skip : Device → Reason → Line

unfoldable pub probe_line : Device → Line
probe_line dev = if is_text_keyboard dev then will_grab dev else skip dev (ineligible_reason dev)

-- what the loop over the nodes gathers: the devices that qualify, the lines, and the kernel's table
pub record Probe : Type 0 where
  pub eligible : List Device
  pub lines : List Line
  pub kernel : Kernel

-- a node that was opened is closed again, whatever it is
unfoldable pub probe_loop : List (Option Device) → Kernel → Probe
unfolding probe_line
probe_loop [] k = record { eligible = []; lines = []; kernel = k }
probe_loop (none ∷ nodes) k =
    let rest = probe_loop nodes k in record rest { lines = cannot_open ∷ rest.lines }
probe_loop (some dev ∷ nodes) k =
    let rest = probe_loop nodes (close_device dev (open_device dev k)) in
    record {
      eligible = if is_text_keyboard dev then dev ∷ rest.eligible else rest.eligible;
      lines = probe_line dev ∷ rest.lines;
      kernel = rest.kernel;
    }

-- `describe_input_devices`: what it returns; `none` where listing /dev/input raises OSError
unfoldable pub describe_input_devices : Option (List (Option Device)) → Kernel → ℕ × Kernel
unfolding probe_loop
describe_input_devices none k = (0, k)
describe_input_devices (some nodes) k =
    (length ((probe_loop nodes k).eligible), (probe_loop nodes k).kernel)
