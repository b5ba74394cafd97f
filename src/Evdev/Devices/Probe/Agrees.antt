-- ===== src/Evdev/Devices/Probe/Agrees.antt =====
-- The probe against the scan that the grab makes.
use toothkey.Base.{
  ℕ, ◌≡◌, ◌≢◌, refl, ap, ◌∙◌, true, false, Option, none, some, List, [], ◌∷◌, if◌then◌else◌, length,
  arith, inl, inr, Bool-cases, All,
}
use toothkey.Evdev.Devices.{
  Device, Kernel, open_device, close_device, is_text_keyboard, ineligible, discover_loop,
  discover_keyboards,
}
use toothkey.Evdev.Devices.Eligible.{ineligible_reason_iff, IsSound}
use toothkey.Evdev.Devices.Probe.{
  Line, cannot_open, will_grab, skip, probe_line, probe_loop, describe_input_devices,
}

probe_loop-eligible :
    (nodes : List (Option Device)) (k l : Kernel)
    → (probe_loop nodes k).eligible ≡ (discover_loop nodes l).0
unfolding probe_loop discover_loop
probe_loop-eligible [] k l = refl
probe_loop-eligible (none ∷ nodes) k l = probe_loop-eligible nodes k l
probe_loop-eligible (some dev ∷ nodes) k l = elim (Bool-cases (is_text_keyboard dev)) [
  | inl keep ↦
      simp
        (keep, probe_loop-eligible nodes (close_device dev (open_device dev k)) (open_device dev l))
  | inr skipped ↦ simp (
    skipped,
    probe_loop-eligible nodes (close_device dev (open_device dev k))
        (close_device dev (open_device dev l)),
  )
]

-- the table of the kernel is as it was
abbrev pub Same : Kernel → Kernel → Type 0
Same k l = ((f : ℕ) → l.opened f ≡ k.opened f) × ((f : ℕ) → l.grabbed f ≡ k.grabbed f)

close-open :
    (dev : Device) (k : Kernel)
    → IsSound k
    → k.opened (dev.fd) ≡ false
    → Same k (close_device dev (open_device dev k))
close-open dev k sound free = (λ f. ground arith, λ f. ground (arith, sound f))

-- The descriptors that the probe may be given: each is not open when it is given out. All may be the
-- same one, as each node is closed before the next is opened.
abbrev pub IsFree : List (Option Device) → Kernel → Type 0
IsFree [] k = Unit {0}
IsFree (none ∷ nodes) k = IsFree nodes k
IsFree (some dev ∷ nodes) k =
    (k.opened dev.fd ≡ false) × IsFree nodes (close_device dev (open_device dev k))

probe_loop-Same :
    (nodes : List (Option Device)) (k : Kernel)
    → IsSound k
    → IsFree nodes k
    → Same k ((probe_loop nodes k).kernel)
unfolding probe_loop
probe_loop-Same [] k sound fresh = (λ f. refl, λ f. refl)
probe_loop-Same (none ∷ nodes) k sound fresh = probe_loop-Same nodes k sound fresh
probe_loop-Same (some dev ∷ nodes) k sound fresh =
    let once = close-open dev k sound (fresh.0) in
    let rest =
      probe_loop-Same nodes (close_device dev (open_device dev k))
        (λ f free. ground (arith, once.0 f, once.1 f, sound f)) (fresh.1) in
    (λ f. rest.0 f ∙ once.0 f, λ f. rest.1 f ∙ once.1 f)

-- a device that is skipped is skipped for one of the reasons that have a name
abbrev pub IsExplained : Line → Type 0
IsExplained cannot_open = Unit {0}
IsExplained (will_grab dev) = is_text_keyboard dev ≡ true
IsExplained (skip dev reason) = reason ≢ ineligible

probe_line-IsExplained : (dev : Device) → IsExplained (probe_line dev)
unfolding probe_line
probe_line-IsExplained dev = elim (Bool-cases (is_text_keyboard dev)) [
  | inl keep ↦ rw (keep, if◌then◌else◌) keep
  | inr skipped ↦ rw (skipped, if◌then◌else◌) (λ e. cc ((ineligible_reason_iff dev).0 e, skipped))
]

probe_loop-IsExplained :
    (nodes : List (Option Device)) (k : Kernel) → All IsExplained ((probe_loop nodes k).lines)
unfolding probe_loop
probe_loop-IsExplained [] k = tt
probe_loop-IsExplained (none ∷ nodes) k = (tt, probe_loop-IsExplained nodes k)
probe_loop-IsExplained (some dev ∷ nodes) k = (
  probe_line-IsExplained dev,
  probe_loop-IsExplained nodes (close_device dev (open_device dev k)),
)

-- The probe agrees with the scan that a grab makes: it returns as many devices as the scan finds,
-- from any table of descriptors; it says of each node that cannot be used why, never with the
-- catch-all; and it leaves open and grabbed just what was. For this, each descriptor must be free
-- when the kernel gives it out, which it may do again once it was closed, and only open descriptors be
-- grabbed.
pub describe_input_devices-agrees :
    (nodes : List (Option Device)) (k l : Kernel)
    → IsSound k
    → IsFree nodes k
    → ((describe_input_devices (some nodes) k).0 ≡ length ((discover_keyboards (some nodes) l).0))
      × (All IsExplained ((probe_loop nodes k).lines)
          × Same k ((describe_input_devices (some nodes) k).1))
unfolding describe_input_devices discover_keyboards
describe_input_devices-agrees nodes k l sound fresh = (
  ap length (probe_loop-eligible nodes k l),
  (probe_loop-IsExplained nodes k, probe_loop-Same nodes k sound fresh),
)
