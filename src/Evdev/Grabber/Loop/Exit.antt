-- ===== src/Evdev/Grabber/Loop/Exit.antt =====
-- What the reader thread leaves at its end.
use toothkey.Base.{
  ◌≡◌, refl, true, false, ◌||◌, Option, none, some, List, [], ◌∷◌, ◌∙◌, arith, is_empty, Bool-cases,
  Option-cases, subst, ◌⊎◌, inl, inr,
}
use toothkey.Evdev.Devices.{Device, Kernel}
use toothkey.Evdev.Grabber.{Grabber, is_running, release_all, device_at, drop_device, rescan}
use toothkey.Evdev.Grabber.Owned.{Owns, NodesFresh, release_all-closed, rescan-Owns}
use toothkey.Evdev.Grabber.Dropped.{drop_device-Owns}
use toothkey.Evdev.Grabber.Loop.{
  Reading, Round, Selected, retry, crash, ready, feed, read_fd, read_all, rescan_if_due, finish,
  Ended, outside, ended, work, run,
}

-- Every scan that the rounds make gets a descriptor that is free at the moment of each open; that of
-- a node that the scan has closed may come again.
abbrev pub DueFresh : Option (Option (List (Option Device))) → Kernel → Type 0
DueFresh none k = Unit {0}
DueFresh (some nodes) k = NodesFresh nodes k

abbrev pub ScansFresh : List Round → Grabber → Kernel → Type 0
ScansFresh [] g k = Unit {0}
ScansFresh (r ∷ rounds) g k =
    let g0 = outside r g in
    elim r.selected [
      | retry ↦ ScansFresh rounds g0 k
      | crash ↦ Unit {0}
      | ready readings due ↦
          let (g1, k1, sent) = work readings due g0 k in
          DueFresh due (read_all readings g0 k).1 × ScansFresh rounds g1 k1
    ]

read_fd-Owns :
    (r : Reading) (g : Grabber) (k : Kernel)
    → Owns g.devices k
    → Owns (read_fd r g k).0.devices (read_fd r g k).1
unfolding read_fd
read_fd-Owns r g k own = elim (Option-cases (device_at g.devices r.fd)) [
  | inl missing ↦ rw (missing, read_fd) own
  | inr (dev, there) ↦
      let g' = record g { reader = (feed r.events g.reader).0 } in
      elim (Bool-cases r.fails) [
        | inl gone ↦ rw (there, gone, read_fd) (drop_device-Owns r.fd g' k own)
        | inr fine ↦ rw (there, fine, read_fd) own
      ]
]

read_all-Owns :
    (rs : List Reading) (g : Grabber) (k : Kernel)
    → Owns g.devices k
    → Owns (read_all rs g k).0.devices (read_all rs g k).1
unfolding read_all
read_all-Owns [] g k own = own
read_all-Owns (r ∷ rs) g k own =
    read_all-Owns rs (read_fd r g k).0 (read_fd r g k).1 (read_fd-Owns r g k own)

rescan_if_due-Owns :
    (due : Option (Option (List (Option Device)))) (g : Grabber) (k : Kernel)
    → Owns g.devices k
    → DueFresh due k
    → Owns (rescan_if_due due g k).0.devices (rescan_if_due due g k).1
unfolding rescan_if_due
rescan_if_due-Owns none g k own fresh = own
rescan_if_due-Owns (some nodes) g k own fresh = rescan-Owns nodes g k own fresh

pub work-Owns :
    (readings : List Reading) (due : Option (Option (List (Option Device)))) (g : Grabber)
    (k : Kernel)
    → Owns g.devices k
    → DueFresh due (read_all readings g k).1
    → Owns (work readings due g k).0.devices (work readings due g k).1
unfolding work
work-Owns readings due g k own fresh =
    rescan_if_due-Owns due _ _ (read_all-Owns readings g k own) fresh

-- A round leaves the thread as it was.
read_fd-thread : (r : Reading) (g : Grabber) (k : Kernel) → (read_fd r g k).0.thread ≡ g.thread
unfolding read_fd drop_device
read_fd-thread r g k = ground arith

read_all-thread :
    (rs : List Reading) (g : Grabber) (k : Kernel) → (read_all rs g k).0.thread ≡ g.thread
unfolding read_all
read_all-thread [] g k = refl
read_all-thread (r ∷ rs) g k =
    read_all-thread rs (read_fd r g k).0 (read_fd r g k).1 ∙ read_fd-thread r g k

rescan_if_due-thread :
    (due : Option (Option (List (Option Device)))) (g : Grabber) (k : Kernel)
    → (rescan_if_due due g k).0.thread ≡ g.thread
unfolding rescan_if_due rescan
rescan_if_due-thread none g k = refl
rescan_if_due-thread (some nodes) g k = ground arith

running_by_thread :
    (g g' : Grabber) → g'.thread ≡ g.thread → is_running g ≡ true → is_running g' ≡ true
unfolding is_running
running_by_thread g g' same runs = rw (← same) at runs

pub work_running :
    (readings : List Reading) (due : Option (Option (List (Option Device)))) (g : Grabber)
    (k : Kernel)
    → is_running g ≡ true
    → is_running (work readings due g k).0 ≡ true
unfolding work
work_running readings due g k runs =
    running_by_thread g _
      (rescan_if_due-thread due (read_all readings g k).0 (read_all readings g k).1
        ∙ read_all-thread readings g k)
      runs

some_eq : {a b : Ended} → ◌≡◌ {A = Option Ended} (some a) (some b) → a ≡ b
some_eq h = cc

Selected-cases :
    (s : Selected)
    → (s ≡ retry)
      ⊎ ((s ≡ crash)
          ⊎ ((rs : List Reading) × (due : Option (Option (List (Option Device)))) × (s
                ≡ ready rs due)))
Selected-cases retry = inl refl
Selected-cases crash = inr (inl refl)
Selected-cases (ready rs due) = inr (inr (rs, due, refl))

-- What an ended thread leaves: no descriptor open or grabbed, no device, no thread, the stop event.
pub record Released (e : Ended) : Type 0 where
  pub owns : Owns [] e.kernel
  pub forgotten : e.grabber.devices ≡ []
  pub idle : is_running e.grabber ≡ false
  pub stopped : e.grabber.reader.stop ≡ true

pub finish-Released :
    (g : Grabber) (k : Kernel)
    → Owns g.devices k
    → let (g', k', sent, lost) = finish g k in
      Released (record { grabber = g'; kernel = k'; lost = lost })
unfolding finish is_running
finish-Released g k own =
    let (gone, none_left, idle, sent, again) = release_all-closed g k own in
    record { owns = gone; forgotten = none_left; idle = idle; stopped = refl }

-- For a grabber that accounts for its keyboards, and scans in which each open gets a descriptor that
-- is free at that moment: in every run of the reader that ends, by a request, by the panic chord, by an error or because the last
-- keyboard went away, all keyboards are released, and the stop event is set.
pub run-Released :
    (rounds : List Round) (g : Grabber) (k : Kernel) (e : Ended)
    → Owns g.devices k
    → ScansFresh rounds g k
    → (run rounds g k).0 ≡ some e
    → Released e
unfolding run
run-Released [] g k e own fresh ends = cc
run-Released (r ∷ rounds) g k e own fresh ends =
    let g0 = outside r g in
    let released : ((ended g0 k).0 ≡ some e → Released e) =
      λ same. subst Released (some_eq same) (finish-Released g0 k own) in
    elim (Bool-cases (g0.reader.stop || is_empty g0.devices)) [
      | inl over ↦ released (rw (over, run) at ends)
      | inr going ↦ elim (Selected-cases r.selected) [
        | inl again ↦
            run-Released rounds g0 k e own (rw (again, ScansFresh) at fresh)
              (rw (going, again, run) at ends)
        | inr (inl crashed) ↦ released (rw (going, crashed, run) at ends)
        | inr (inr (readings, due, fine)) ↦
            let after : (DueFresh due (read_all readings g0 k).1
                × ScansFresh rounds (work readings due g0 k).0 (work readings due g0 k).1) =
              rw (fine, ScansFresh) at fresh in
            run-Released rounds _ _ e (work-Owns readings due g0 k own after.0) after.1
              (rw (going, fine, run) at ends)
      ]
    ]

-- A request to stop ends the thread at the head of the round that sees it, and `on_lost` is then
-- not called.
pub run_stops :
    (r : Round) (rounds : List Round) (g : Grabber) (k : Kernel)
    → r.stop_asked ≡ true
    → (e : Ended) × ((run (r ∷ rounds) g k).0 ≡ some e) × (e.lost ≡ false)
unfolding run finish release_all
run_stops r rounds g k asked =
    let (g', k', sent, lost) = finish (outside r g) k in
    let e : Ended = record { grabber = g'; kernel = k'; lost = lost } in
    (e, ground arith, ground arith)
