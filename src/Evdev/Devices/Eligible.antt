-- ===== src/Evdev/Devices/Eligible.antt =====
-- The two judgements on a device, and what a scan opens.
use toothkey.Base.{
  ℕ, ◌≡◌, refl, ◌↔◌, Bool, true, false, ◌||◌, Option, none, some, List, [], ◌∷◌, arith, ◌==◌, any,
  all, has, is_empty, if◌then◌else◌, Option-cases, Bool-cases, inl, inr,
}
use toothkey.Evdev.Keys.{Key, Key-discrete}
use toothkey.Evdev.Devices.{
  Device, ineligible, is_text_keyboard, missing, ineligible_reason, required_keys, Kernel,
  open_device, close_device, discover_loop,
}

missing-empty :
    (keys codes : List Key)
    → is_empty (missing keys codes) ≡ all (λ k. has Key-discrete keys k) codes
unfolding missing
missing-empty keys [] = refl
missing-empty keys (code ∷ codes) = ground (arith, missing-empty keys codes)

-- A reason other than the catch-all is found for a device exactly if it is rejected: the two
-- functions, which test in different orders, never disagree.
pub ineligible_reason_iff :
    (dev : Device) → (ineligible_reason dev ≡ ineligible) ↔ (is_text_keyboard dev ≡ true)
unfolding ineligible_reason is_text_keyboard
ineligible_reason_iff dev = elim (Option-cases dev.capabilities) [
  | inl n ↦ (λ e. ground arith, λ e. ground arith)
  | inr (caps, c) ↦ (
    λ e. ground (arith, missing-empty caps.ev_key required_keys),
    λ e. ground (arith, missing-empty caps.ev_key required_keys),
  )
]

-- Is `fd` one of these devices' descriptors?
abbrev pub has_fd : List Device → ℕ → Bool
has_fd devs f = any (λ d. d.fd == f) devs

-- the kernel's table once the scan is done with a node
abbrev pub after_node : Device → Kernel → Kernel
after_node dev k =
    if is_text_keyboard dev then open_device dev k else close_device dev (open_device dev k)

-- The descriptors that a scan may be given: each is not open when it is given out, though it may be
-- one that the scan had and closed before.
abbrev pub IsFresh : List (Option Device) → Kernel → Type 0
IsFresh [] k = Unit {0}
IsFresh (none ∷ nodes) k = IsFresh nodes k
IsFresh (some dev ∷ nodes) k = (k.opened dev.fd ≡ false) × IsFresh nodes (after_node dev k)

-- A grab is held on open descriptors only.
abbrev pub IsSound : Kernel → Type 0
IsSound k = (f : ℕ) → k.opened f ≡ false → k.grabbed f ≡ false

abbrev pub Scanned : List Device × Kernel → Kernel → Type 0
Scanned (found, k') k =
    ((f : ℕ) → k'.opened f ≡ (has_fd found f || k.opened f))
    × ((f : ℕ) → k'.grabbed f ≡ k.grabbed f)

after_node_mono :
    (dev : Device) (k l : Kernel)
    → ((f : ℕ) → k.opened f ≡ false → l.opened f ≡ false)
    → (f : ℕ) → (after_node dev k).opened f ≡ false
    → (after_node dev l).opened f ≡ false
after_node_mono dev k l o f h = ground (arith, o f)

pub IsFresh-mono :
    (nodes : List (Option Device)) (k l : Kernel)
    → ((f : ℕ) → k.opened f ≡ false → l.opened f ≡ false)
    → IsFresh nodes k
    → IsFresh nodes l
IsFresh-mono [] k l o h = tt
IsFresh-mono (none ∷ nodes) k l o h = IsFresh-mono nodes k l o h
IsFresh-mono (some dev ∷ nodes) k l o h = (
  o dev.fd h.0,
  IsFresh-mono nodes (after_node dev k) (after_node dev l) (after_node_mono dev k l o) h.1,
)

-- A scan leaves open exactly what was open and the keyboards that it returns, and grabs nothing.
pub discover_loop-Scanned :
    (nodes : List (Option Device)) (k : Kernel)
    → IsSound k
    → IsFresh nodes k
    → Scanned (discover_loop nodes k) k
unfolding discover_loop
discover_loop-Scanned [] k sound h = (λ f. refl, λ f. refl)
discover_loop-Scanned (none ∷ nodes) k sound h = discover_loop-Scanned nodes k sound h
discover_loop-Scanned (some dev ∷ nodes) k sound (free, fresh) =
    elim (Bool-cases (is_text_keyboard dev)) [
      | inl keep ↦
          let (o, g) =
            discover_loop-Scanned nodes (open_device dev k) (λ f. ground (arith, sound f))
              (rw (keep, if◌then◌else◌) at fresh) in
          (λ f. ground (arith, o f), λ f. ground (arith, g f))
      | inr skip ↦
          let (o, g) =
            discover_loop-Scanned nodes (close_device dev (open_device dev k))
              (λ f. ground (arith, sound f)) (rw (skip, if◌then◌else◌) at fresh) in
          (λ f. ground (arith, o f), λ f. ground (arith, g f, sound f))
    ]
