-- ===== src/Evdev/Devices.antt =====
-- keyboard_evdev.py: which input devices count as keyboards, and the scan of /dev/input. What the
-- kernel and evdev answer (the nodes, their capabilities, whether a grab is granted) is given.
pub mod Eligible
pub mod Probe
use toothkey.Base.{
  ℕ, Bool, true, false, not, ◌&&◌, ◌||◌, Option, none, some, List, [], ◌∷◌, if◌then◌else◌, ◌==◌,
  any, all, has, is_empty,
}
use toothkey.Evdev.Keys.{
  Key, Key-discrete, key_a, key_z, key_space, key_enter, btn_left, btn_right, btn_touch, btn_stylus,
}

-- `dev.capabilities()`: the codes under EV_KEY, EV_REL and EV_ABS
pub record Caps : Type 0 where
  pub ev_key : List Key
  pub ev_rel : List ℕ
  pub ev_abs : List ℕ

-- An open evdev.InputDevice. `capabilities` is `none` where reading them raises OSError, and
-- `grabbable` is whether EVIOCGRAB would succeed. Paths are only compared.
pub record Device : Type 0 where
  pub fd : ℕ
  pub path : ℕ
  pub capabilities : Option Caps
  pub grabbable : Bool

abbrev pub required_keys : List Key
required_keys = key_a ∷ key_z ∷ key_space ∷ key_enter ∷ []

abbrev pub pointer_keys : List Key
pointer_keys = btn_left ∷ btn_right ∷ btn_touch ∷ btn_stylus ∷ []

unfoldable pub is_text_keyboard : Device → Bool
is_text_keyboard dev = elim dev.capabilities [
  | none ↦ false
  | some caps ↦
      if is_empty caps.ev_key
      then false
      else if not (all (λ k. has Key-discrete caps.ev_key k) required_keys)
      then false
      else if any (λ k. has Key-discrete caps.ev_key k) pointer_keys
      then false
      else if not (is_empty caps.ev_rel) || not (is_empty caps.ev_abs)
      then false
      else true
]

pub data Reason : Type 0 where
  cannot_read no_key_events relative_axes absolute_axes pointer_buttons ineligible : Reason
  not_text : List Key → Reason

-- `[name for name, code in (...) if code not in keys]`
unfoldable pub missing : List Key → List Key → List Key
missing keys [] = []
missing keys (code ∷ codes) =
    let rest = missing keys codes in if has Key-discrete keys code then rest else code ∷ rest

unfoldable pub ineligible_reason : Device → Reason
ineligible_reason dev = elim dev.capabilities [
  | none ↦ cannot_read
  | some caps ↦
      let absent = missing caps.ev_key required_keys in
      if is_empty caps.ev_key
      then no_key_events
      else if not (is_empty caps.ev_rel)
      then relative_axes
      else if not (is_empty caps.ev_abs)
      then absolute_axes
      else if any (λ k. has Key-discrete caps.ev_key k) pointer_keys
      then pointer_buttons
      else if not (is_empty absent)
      then not_text absent
      else ineligible
]

-- The process's input descriptors, as the kernel has them: which are open, and which of those hold
-- an exclusive grab. A grab goes when its descriptor is closed.
pub record Kernel : Type 0 where
  pub opened : ℕ → Bool
  pub grabbed : ℕ → Bool

abbrev pub put : (ℕ → Bool) → ℕ → Bool → ℕ → Bool
put m fd b f = if fd == f then b else m f

abbrev pub open_device : Device → Kernel → Kernel
open_device dev k = record k { opened = put k.opened dev.fd true }

abbrev pub close_device : Device → Kernel → Kernel
close_device dev k = record {
  opened = put k.opened dev.fd false;
  grabbed = put k.grabbed dev.fd false;
}

abbrev pub grab_device : Device → Kernel → Kernel
grab_device dev k = record k { grabbed = put k.grabbed dev.fd true }

abbrev pub ungrab_device : Device → Kernel → Kernel
ungrab_device dev k = record k { grabbed = put k.grabbed dev.fd false }

-- the loop of `discover_keyboards` over the sorted paths; `none` is a node that cannot be opened
unfoldable pub discover_loop : List (Option Device) → Kernel → List Device × Kernel
discover_loop [] k = ([], k)
discover_loop (none ∷ nodes) k = discover_loop nodes k
discover_loop (some dev ∷ nodes) k =
    let keep = discover_loop nodes (open_device dev k) in
    let skip = discover_loop nodes (close_device dev (open_device dev k)) in
    if is_text_keyboard dev then (dev ∷ keep.0, keep.1) else skip

-- `discover_keyboards`; `none` where listing /dev/input raises OSError
unfoldable pub discover_keyboards : Option (List (Option Device)) → Kernel → List Device × Kernel
unfolding discover_loop
discover_keyboards none k = ([], k)
discover_keyboards (some nodes) k = discover_loop nodes k
