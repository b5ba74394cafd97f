-- ===== src/Evdev/Grabber/Dropped.antt =====
-- KeyboardGrabber._drop_device: a keyboard that went away.
use toothkey.Base.{ℕ, ◌≡◌, not, ◌&&◌, some, List, [], ◌∷◌, arith, ◌==◌, Option-cases, inl, inr}
use toothkey.Evdev.Devices.{Device, Kernel, open_device}
use toothkey.Evdev.Devices.Eligible.{has_fd}
use toothkey.Evdev.Grabber.{Grabber, device_at, pop_device, drop_device}
use toothkey.Evdev.Grabber.Adopt.{IsNew, IsNew-mono, opened-has_fd}
use toothkey.Evdev.Grabber.Owned.{closed, Owns}

pop_device-IsNew :
    (devs : List Device) (fd : ℕ) (k : Kernel) → IsNew devs k → IsNew (pop_device devs fd) k
unfolding pop_device
pop_device-IsNew [] fd k h = tt
pop_device-IsNew (d ∷ devs) fd k h =
    let fewer = IsNew-mono devs (open_device d k) k (λ f. ground arith) h.1 in
    ground (arith, fewer, pop_device-IsNew devs fd (open_device d k) h.1)

has_fd-pop_device :
    (devs : List Device) (fd : ℕ) (k : Kernel) (f : ℕ)
    → IsNew devs k
    → has_fd (pop_device devs fd) f ≡ (not (fd == f) && has_fd devs f)
unfolding pop_device
has_fd-pop_device [] fd k f h = ground arith
has_fd-pop_device (d ∷ devs) fd k f h = ground (
  arith,
  opened-has_fd devs (open_device d k) d.fd h.1,
  has_fd-pop_device devs fd (open_device d k) f h.1,
)

device_at-fd : (devs : List Device) (fd : ℕ) (d : Device) → device_at devs fd ≡ some d → d.fd ≡ fd
unfolding device_at
device_at-fd [] fd d e = cc
device_at-fd (x ∷ devs) fd d e = ground (arith, device_at-fd devs fd d)

-- For a grabber that accounts for its keyboards, one that goes away is closed and forgotten, and
-- the others stay: the account is kept.
pub drop_device-Owns :
    (fd : ℕ) (g : Grabber) (k : Kernel)
    → Owns g.devices k
    → Owns (drop_device fd g k).0.devices (drop_device fd g k).1
unfolding drop_device
drop_device-Owns fd g k own = elim (Option-cases (device_at g.devices fd)) [
  | inl missing ↦ rw (missing, drop_device) own
  | inr (d, there) ↦
      let same = device_at-fd g.devices fd d there in
      rw (there, drop_device)
        (record {
          opened = λ f.
              ground (arith, own.opened f, has_fd-pop_device g.devices fd closed f own.distinct);
          grabbed = λ f.
              ground (arith, own.grabbed f, has_fd-pop_device g.devices fd closed f own.distinct);
          distinct = pop_device-IsNew g.devices fd closed own.distinct;
        })
]
