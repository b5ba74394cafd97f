-- ===== src/Evdev/Grabber.antt =====
-- KeyboardGrabber's lifecycle: taking the grabs, releasing them, hotplug, and the reader thread's
-- loop. Every call that could raise OSError on a close or an ungrab is one whose failure the code
-- ignores, and the descriptor is closed all the same.
pub mod Adopt
pub mod Owned
pub mod Dropped
pub mod Loop
mod Tests
use toothkey.Base.{
  ℕ, Bool, true, false, not, ◌&&◌, Option, none, some, List, [], ◌∷◌, ◌++◌, map, if◌then◌else◌,
  ◌==◌, any, is_empty,
}
use toothkey.Evdev.Keys.{Key}
use toothkey.Evdev.Report.{Held}
use toothkey.Evdev.Events.{Reader, Effect, emit, on_key_event}
use toothkey.Evdev.Devices.{
  Device, Kernel, close_device, grab_device, ungrab_device, discover_keyboards,
}

-- `_devices` in insertion order, `_thread` (`some` of whether it is alive), and the reader's fields
pub record Grabber : Type 0 where
  pub devices : List Device
  pub thread : Option Bool
  pub reader : Reader

abbrev pub no_keys : Held
no_keys = record { mods = []; keys = [] }

abbrev pub clear_keys : Grabber → Grabber
clear_keys g = record g { reader = record (g.reader) { held = no_keys } }

-- the loop of `start` that grabs each device found, and closes those that refuse
unfoldable pub grab_loop : List Device → Kernel → List Device × Kernel
grab_loop [] k = ([], k)
grab_loop (dev ∷ devices) k =
    let rest = grab_loop devices (grab_device dev k) in
    let refused = grab_loop devices (close_device dev k) in
    if dev.grabbable then (dev ∷ rest.0, rest.1) else refused

-- `is_running`
unfoldable pub is_running : Grabber → Bool
is_running g = elim g.thread [ none ↦ false | some alive ↦ alive ]

-- `start`, with what the scan of /dev/input finds
unfoldable pub start : Option (List (Option Device)) → Grabber → Kernel → Bool × Grabber × Kernel
start nodes g k =
    let reader : Reader = record {
      held = no_keys;
      suppress_forwarding = g.reader.suppress_forwarding;
      stop = false;
    } in
    let cleared = record g { reader = reader } in
    let (devices, k1) = discover_keyboards nodes k in
    let (grabbed, k2) = grab_loop devices k1 in
    if is_running g
    then (true, g, k)
    else if is_empty devices
    then (false, cleared, k1)
    else if is_empty grabbed
    then (false, cleared, k2)
    else (true, record cleared { devices = grabbed; thread = some true }, k2)

-- `dev.ungrab()` and `dev.close()` for each device
unfoldable pub release_loop : List Device → Kernel → Kernel
release_loop [] k = k
release_loop (dev ∷ devices) k = release_loop devices (close_device dev (ungrab_device dev k))

-- `_release_all`
unfoldable pub release_all : Grabber → Kernel → Grabber × Kernel × List Effect
release_all g k =
    let idle = record g { devices = []; thread = none } in
    if is_empty g.devices
    then (idle, k, [])
    else (clear_keys idle, release_loop g.devices k, emit no_keys)

-- `stop`: the join waits for the reader at most two seconds, and decides nothing
unfoldable pub stop : Grabber → Kernel → Grabber × Kernel × List Effect
stop g k = release_all (record g { reader = record (g.reader) { stop = true } }) k

abbrev pub is_known : List ℕ → Device → Bool
is_known known dev = any (λ p. p == dev.path) known

-- the loop of `_rescan` over the keyboards found; a new descriptor is a new key of the dict
unfoldable pub rescan_loop : List ℕ → List Device → List Device → Kernel → List Device × Kernel
rescan_loop known [] devices k = (devices, k)
rescan_loop known (dev ∷ found) devices k =
    let close = rescan_loop known found devices (close_device dev k) in
    let keep = rescan_loop known found (devices ++ dev ∷ []) (grab_device dev k) in
    if is_known known dev then close else if dev.grabbable then keep else close

-- `_rescan`
unfoldable pub rescan : Option (List (Option Device)) → Grabber → Kernel → Grabber × Kernel
rescan nodes g k =
    let known = map (λ (d : Device). d.path) g.devices in
    let (found, k1) = discover_keyboards nodes k in
    let (devices, k2) = rescan_loop known found g.devices k1 in
    if is_empty g.devices then (g, k) else (record g { devices = devices }, k2)

-- `self._devices.get(fd)`
unfoldable pub device_at : List Device → ℕ → Option Device
device_at [] fd = none
device_at (dev ∷ devices) fd = if dev.fd == fd then some dev else device_at devices fd

unfoldable pub pop_device : List Device → ℕ → List Device
pop_device [] fd = []
pop_device (dev ∷ devices) fd = if dev.fd == fd then devices else dev ∷ pop_device devices fd

-- `_drop_device`
unfoldable pub drop_device : ℕ → Grabber → Kernel → Grabber × Kernel
drop_device fd g k = elim (device_at g.devices fd) [
  | none ↦ (g, k)
  | some dev ↦ (record g { devices = pop_device g.devices fd }, close_device dev k)
]
