-- ===== src/Evdev/Grabber/Owned.antt =====
-- What the kernel has open and grabbed for the grabber, against what `_devices` holds.
use toothkey.Base.{
  ℕ, ◌≡◌, refl, ap, ◌∙◌, Bool, true, false, not, ◌&&◌, ◌||◌, Option, none, some, List, [], ◌∷◌,
  ◌++◌, map, arith, if◌then◌else◌, is_empty, Bool-cases, inl, inr,
}
use toothkey.Evdev.Devices.{Device, Kernel, close_device, ungrab_device, discover_keyboards}
use toothkey.Evdev.Devices.Eligible.{has_fd, IsFresh, IsSound, discover_loop-Scanned}
use toothkey.Evdev.Events.{emit}
use toothkey.Evdev.Grabber.{
  Grabber, no_keys, grab_loop, is_running, start, release_loop, release_all, is_known, rescan,
}
use toothkey.Evdev.Grabber.Adopt.{
  IsNew, IsNew-append, discover_loop-IsNew, sift, sift-Adopts, sift-IsNew, grab_loop-eq-sift,
  rescan_loop-eq-sift,
}

-- no input descriptor is open
abbrev pub closed : Kernel
closed = record { opened = λ _. false; grabbed = λ _. false }

-- The kernel has open and grabbed the descriptors of these devices, which all differ.
pub record Owns (devs : List Device) (k : Kernel) : Type 0 where
  pub opened : (f : ℕ) → k.opened f ≡ has_fd devs f
  pub grabbed : (f : ℕ) → k.grabbed f ≡ has_fd devs f
  pub distinct : IsNew devs closed

Owns-IsSound : (devs : List Device) (k : Kernel) → Owns devs k → IsSound k
Owns-IsSound devs k h f o = ground (arith, h.opened f, h.grabbed f)

-- What a scan may find: nothing if /dev/input cannot be listed, else fresh descriptors.
abbrev pub NodesFresh : Option (List (Option Device)) → Kernel → Type 0
NodesFresh none k = Unit {0}
NodesFresh (some nodes) k = IsFresh nodes k

pub record Found (devs : List Device) (k c : Kernel) : Type 0 where
  pub opened : (f : ℕ) → c.opened f ≡ (has_fd devs f || k.opened f)
  pub grabbed : (f : ℕ) → c.grabbed f ≡ k.grabbed f
  pub new : IsNew devs k

discover_keyboards-Found :
    (nodes : Option (List (Option Device))) (k : Kernel)
    → IsSound k
    → NodesFresh nodes k
    → Found (discover_keyboards nodes k).0 k (discover_keyboards nodes k).1
unfolding discover_keyboards
discover_keyboards-Found none k sound h = record {
  opened = λ f. refl;
  grabbed = λ f. refl;
  new = tt;
}
discover_keyboards-Found (some nodes) k sound h =
    let (o, g) = discover_loop-Scanned nodes k sound h in
    record { opened = o; grabbed = g; new = discover_loop-IsNew nodes k h }

has_fd-append : (xs ys : List Device) (f : ℕ) → has_fd (xs ++ ys) f ≡ (has_fd xs f || has_fd ys f)
has_fd-append [] ys f = refl
has_fd-append (x ∷ xs) ys f = ground (arith, has_fd-append xs ys f)

-- Keeping some of the devices found, beside those owned before.
sift-Owns :
    (pass : Device → Bool) (devs found : List Device) (k c : Kernel)
    → Owns devs k
    → Found found k c
    → Owns (devs ++ (sift pass found c).0) (sift pass found c).1
sift-Owns pass devs found k c own f =
    let (o, g) = sift-Adopts pass found k c (Owns-IsSound devs k own) f.new f.opened f.grabbed in
    record {
      opened = λ n. ground (arith, o n, own.opened n, has_fd-append devs (sift pass found c).0 n);
      grabbed = λ n. ground (arith, g n, own.grabbed n, has_fd-append devs (sift pass found c).0 n);
      distinct =
          IsNew-append devs (sift pass found c).0 closed k own.distinct
            (sift-IsNew pass found k c f.new) (λ n. ground (arith, own.opened n));
    }

-- Picking up keyboards that were plugged in keeps the account, if the scan finds fresh
-- descriptors: the kernel still has open and grabbed just the devices that the grabber holds.
pub rescan-Owns :
    (nodes : Option (List (Option Device))) (g : Grabber) (k : Kernel)
    → Owns g.devices k
    → NodesFresh nodes k
    → Owns (rescan nodes g k).0.devices (rescan nodes g k).1
unfolding rescan
rescan-Owns nodes g k own fresh =
    let known = map (λ (d : Device). d.path) g.devices in
    let (found, k1) = discover_keyboards nodes k in
    let found_ok = discover_keyboards-Found nodes k (Owns-IsSound g.devices k own) fresh in
    let kept =
      sift-Owns (λ d. not (is_known known d) && d.grabbable) g.devices found k k1 own found_ok in
    elim (Bool-cases (is_empty g.devices)) [
      | inl none_held ↦ ground (arith, own)
      | inr some_held ↦ rw (some_held, rescan_loop-eq-sift) kept
    ]

pub is_empty→nil : (xs : List Device) → is_empty xs ≡ true → xs ≡ []
is_empty→nil [] h = refl
is_empty→nil (x ∷ xs) h = cc

-- What `start` promises: it ends owning just the devices that it holds; it says yes exactly if
-- there are some, and is running then; after a no, nothing is open.
pub record Started (result : Bool × Grabber × Kernel) : Type 0 where
  pub owns : Owns result.1.devices result.2
  pub honest : result.0 ≡ not (is_empty result.1.devices)
  pub running : result.0 ≡ true → is_running result.1 ≡ true
  pub clean : result.0 ≡ false → (f : ℕ) → result.2.opened f ≡ false

started :
    (result : Bool × Grabber × Kernel)
    → Owns result.1.devices result.2
    → result.0 ≡ not (is_empty result.1.devices)
    → (result.0 ≡ true → is_running result.1 ≡ true)
    → Started result
started (r, g, k) own honest running = record {
  owns = own;
  honest = honest;
  running = running;
  clean = λ no_grab f.
      let nil = is_empty→nil g.devices (ground arith) in
      own.opened f ∙ ap (λ (ds : List Device). has_fd ds f) nil;
}

-- A grabber that is not running and owns nothing, given a scan that finds fresh descriptors,
-- starts honestly: it says yes exactly if it holds some keyboard, and runs then; the kernel has
-- open and grabbed just those it holds; and after a no, nothing is open.
pub start-Started :
    (nodes : Option (List (Option Device))) (g : Grabber) (k : Kernel)
    → is_running g ≡ false
    → g.devices ≡ []
    → Owns g.devices k
    → NodesFresh nodes k
    → Started (start nodes g k)
unfolding start is_running
start-Started nodes g k idle nothing own fresh =
    let (found, k1) = discover_keyboards nodes k in
    let found_ok = discover_keyboards-Found nodes k (Owns-IsSound g.devices k own) fresh in
    let own_nil : Owns [] k = rw (← nothing) own in
    let kept = sift-Owns (λ d. d.grabbable) [] found k k1 own_nil found_ok in
    let kept' : Owns (grab_loop found k1).0 (grab_loop found k1).1 = rw grab_loop-eq-sift kept in
    elim (Bool-cases (is_empty found)) [
      | inl no_keyboard ↦
          let none_found = is_empty→nil found no_keyboard in
          let own1 : Owns [] k1 = record {
            opened = λ f. found_ok.opened f ∙ ground (arith, own_nil.opened f, none_found);
            grabbed = λ f. found_ok.grabbed f ∙ own_nil.grabbed f;
            distinct = tt;
          } in
          rw (idle, no_keyboard) (started _ (rw nothing own1) (ground arith) (λ e. cc))
      | inr some_found ↦ elim (Bool-cases (is_empty (grab_loop found k1).0)) [
        | inl refused ↦
            rw (idle, some_found, refused)
              (started _ (rw (nothing, ← is_empty→nil _ refused) kept') (ground arith) (λ e. cc))
        | inr taken ↦ rw (idle, some_found, taken) (started _ kept' (ground arith) (λ e. refl))
      ]
    ]

release_loop-Kernel :
    (devs : List Device) (k : Kernel) (f : ℕ)
    → ((release_loop devs k).opened f ≡ (not (has_fd devs f) && k.opened f))
      × ((release_loop devs k).grabbed f ≡ (not (has_fd devs f) && k.grabbed f))
unfolding release_loop
release_loop-Kernel [] k f = (refl, refl)
release_loop-Kernel (d ∷ devs) k f =
    ground (arith, release_loop-Kernel devs (close_device d (ungrab_device d k)) f)

-- For a grabber that accounts for its keyboards, releasing leaves no input descriptor open and
-- none grabbed; the all-up report goes out exactly if something was held; and nothing is left to
-- release.
pub release_all-closed :
    (g : Grabber) (k : Kernel)
    → Owns g.devices k
    → let (g', k', sent) = release_all g k in
      Owns [] k'
      × (g'.devices ≡ [])
      × (is_running g' ≡ false)
      × (sent ≡ (if is_empty g.devices then [] else emit no_keys))
      × (release_all g' k' ≡ (g', k', []))
unfolding release_all is_running
release_all-closed g k own =
    let k' = release_loop g.devices k in
    let gone : Owns [] k' = record {
      opened = λ f. ground (arith, release_loop-Kernel g.devices k f, own.opened f);
      grabbed = λ f. ground (arith, release_loop-Kernel g.devices k f, own.grabbed f);
      distinct = tt;
    } in
    elim (Bool-cases (is_empty g.devices)) [
      | inl nothing ↦ rw nothing (rw (← is_empty→nil g.devices nothing) own, refl, refl, refl, refl)
      | inr held ↦ rw held (gone, refl, refl, refl, refl)
    ]
