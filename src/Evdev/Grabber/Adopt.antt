-- ===== src/Evdev/Grabber/Adopt.antt =====
-- The loops that grab newly opened keyboards.
use toothkey.Base.{
  ℕ, ◌≡◌, refl, Bool, true, false, not, ◌&&◌, ◌||◌, Option, none, some, List, [], ◌∷◌, ◌++◌, arith,
  if◌then◌else◌, Bool-cases, inl, inr,
}
use mathlib.Core.List.{append-nil, append_assoc}
use toothkey.Evdev.Devices.{
  Device, is_text_keyboard, Kernel, open_device, close_device, grab_device, discover_loop,
}
use toothkey.Evdev.Devices.Eligible.{has_fd, IsFresh, IsSound}
use toothkey.Evdev.Grabber.{grab_loop, is_known, rescan_loop}

-- Devices whose descriptors differ from one another and from all that `k` has open or grabbed.
abbrev pub IsNew : List Device → Kernel → Type 0
IsNew [] k = Unit {0}
IsNew (dev ∷ devs) k = (k.opened dev.fd ≡ false) × IsNew devs (open_device dev k)

pub IsNew-mono :
    (devs : List Device) (k l : Kernel)
    → ((f : ℕ) → k.opened f ≡ false → l.opened f ≡ false)
    → IsNew devs k
    → IsNew devs l
IsNew-mono [] k l o h = tt
IsNew-mono (dev ∷ devs) k l o h = (
  o dev.fd h.0,
  IsNew-mono devs (open_device dev k) (open_device dev l) (λ f. ground (arith, o f)) h.1,
)

pub discover_loop-IsNew :
    (nodes : List (Option Device)) (k : Kernel)
    → IsFresh nodes k
    → IsNew (discover_loop nodes k).0 k
unfolding discover_loop
discover_loop-IsNew [] k h = tt
discover_loop-IsNew (none ∷ nodes) k h = discover_loop-IsNew nodes k h
discover_loop-IsNew (some dev ∷ nodes) k (free, fresh) = elim (Bool-cases (is_text_keyboard dev)) [
  | inl keep ↦
      let rest =
        discover_loop-IsNew nodes (open_device dev k) (rw (keep, if◌then◌else◌) at fresh) in
      ground arith
  | inr skip ↦
      let shut = close_device dev (open_device dev k) in
      let rest = discover_loop-IsNew nodes shut (rw (skip, if◌then◌else◌) at fresh) in
      let new = IsNew-mono (discover_loop nodes shut).0 shut k (λ f. ground arith) rest in
      ground arith
]

pub opened-has_fd :
    (devs : List Device) (k : Kernel) (f : ℕ)
    → IsNew devs k
    → k.opened f ≡ true
    → has_fd devs f ≡ false
opened-has_fd [] k f h o = refl
opened-has_fd (dev ∷ devs) k f h o = ground (arith, opened-has_fd devs (open_device dev k) f h.1)

-- Keep and grab the devices that pass, close the others.
pub sift : (Device → Bool) → List Device → Kernel → List Device × Kernel
sift pass [] c = ([], c)
sift pass (dev ∷ devs) c =
    let kept = sift pass devs (grab_device dev c) in
    let shut = sift pass devs (close_device dev c) in
    if pass dev then (dev ∷ kept.0, kept.1) else shut

-- From the kernel `k` some devices were opened and others not; `c` is now.
abbrev pub Adopts : Kernel → List Device → Kernel → Type 0
Adopts k devs c =
    ((f : ℕ) → c.opened f ≡ (has_fd devs f || k.opened f))
    × ((f : ℕ) → c.grabbed f ≡ (has_fd devs f || k.grabbed f))

pub sift-Adopts :
    (pass : Device → Bool) (devs : List Device) (k c : Kernel)
    → IsSound k
    → IsNew devs k
    → ((f : ℕ) → c.opened f ≡ (has_fd devs f || k.opened f))
    → ((f : ℕ) → c.grabbed f ≡ k.grabbed f)
    → Adopts k (sift pass devs c).0 (sift pass devs c).1
unfolding sift
sift-Adopts pass [] k c sound new o g = (o, g)
sift-Adopts pass (dev ∷ devs) k c sound new o g = elim (Bool-cases (pass dev)) [
  | inl keep ↦
      let base = grab_device dev (open_device dev k) in
      let (o', g') =
        sift-Adopts pass devs base (grab_device dev c) (λ f. ground (arith, sound f))
          (IsNew-mono devs (open_device dev k) base (λ f h. h) new.1) (λ f. ground (arith, o f))
          (λ f. ground (arith, g f)) in
      (λ f. ground (arith, o' f), λ f. ground (arith, g' f))
  | inr skip ↦
      let others = opened-has_fd devs (open_device dev k) dev.fd new.1 (ground arith) in
      let fewer = IsNew-mono devs (open_device dev k) k (λ f. ground arith) new.1 in
      let (o', g') =
        sift-Adopts pass devs k (close_device dev c) sound fewer (λ f. ground (arith, o f))
          (λ f. ground (arith, g f, sound f)) in
      (λ f. ground (arith, o' f), λ f. ground (arith, g' f))
]

pub sift-IsNew :
    (pass : Device → Bool) (devs : List Device) (k c : Kernel)
    → IsNew devs k
    → IsNew (sift pass devs c).0 k
unfolding sift
sift-IsNew pass [] k c h = tt
sift-IsNew pass (dev ∷ devs) k c h = elim (Bool-cases (pass dev)) [
  | inl keep ↦ ground (arith, sift-IsNew pass devs (open_device dev k) (grab_device dev c) h.1)
  | inr skip ↦
      let fewer = IsNew-mono devs (open_device dev k) k (λ f. ground arith) h.1 in
      ground (arith, sift-IsNew pass devs k (close_device dev c) fewer)
]

pub IsNew-append :
    (xs ys : List Device) (k l : Kernel)
    → IsNew xs k
    → IsNew ys l
    → ((f : ℕ) → l.opened f ≡ (has_fd xs f || k.opened f))
    → IsNew (xs ++ ys) k
IsNew-append [] ys k l hx hy o = IsNew-mono ys l k (λ f. ground (arith, o f)) hy
IsNew-append (x ∷ xs) ys k l hx hy o =
    (hx.0, IsNew-append xs ys (open_device x k) l hx.1 hy (λ f. ground (arith, o f)))

pub grab_loop-eq-sift :
    (devs : List Device) (c : Kernel) → grab_loop devs c ≡ sift (λ d. d.grabbable) devs c
unfolding grab_loop sift
grab_loop-eq-sift [] c = refl
grab_loop-eq-sift (dev ∷ devs) c =
    ground (
      arith,
      grab_loop-eq-sift devs (grab_device dev c),
      grab_loop-eq-sift devs (close_device dev c),
    )

pub rescan_loop-eq-sift :
    (known : List ℕ) (found devs : List Device) (c : Kernel)
    → let (kept, c') = sift (λ d. not (is_known known d) && d.grabbable) found c in
      rescan_loop known found devs c ≡ (devs ++ kept, c')
unfolding rescan_loop sift
rescan_loop-eq-sift known [] devs c = ground (arith, append-nil devs)
rescan_loop-eq-sift known (dev ∷ found) devs c = ground (
  arith,
  rescan_loop-eq-sift known found (devs ++ dev ∷ []) (grab_device dev c),
  rescan_loop-eq-sift known found devs (close_device dev c),
  append_assoc devs (dev ∷ [])
      (sift (λ d. not (is_known known d) && d.grabbable) found (grab_device dev c)).0,
)

abbrev pub NodesFresh : Option (List (Option Device)) → Kernel → Type 0
NodesFresh none k = Unit {0}
NodesFresh (some nodes) k = IsFresh nodes k
