-- ===== src/Policy/Grabbers.antt =====
-- The capture layer of keyboard_evdev.py as an instance of the interface.
use toothkey.Base.{
  ℕ, ◌≡◌, refl, subst, true, false, Option, none, some, List, [], arith, Bool-cases, inl, inr,
}
use toothkey.Evdev.Devices.{Device, Kernel}
use toothkey.Evdev.Devices.Eligible.{IsFresh-mono}
use toothkey.Evdev.Grabber
use toothkey.Evdev.Grabber.{Grabber, no_keys}
use toothkey.Evdev.Grabber.Owned.{
  closed, Owns, is_empty→nil, NodesFresh, Started, start-Started, release_all-closed,
}
use toothkey.Evdev.Grabber.Loop.{Reading, read_all, work, finish}
use toothkey.Evdev.Grabber.Loop.Exit.{DueFresh, work-Owns, work_running, finish-Released}
use toothkey.Policy.Capture.{Capture}
use toothkey.Policy.Handler.{Handler, object_running, running}
use toothkey.Policy.Handler.Honest.{Accounts}
use toothkey.Policy.Handler.Reachable.{Reach, Reach-IsHonest}

-- `KeyboardGrabber.__init__`
abbrev pub new_grabber : Grabber
new_grabber = record {
  devices = [];
  thread = none;
  reader = record { held = no_keys; suppress_forwarding = false; stop = false };
}

-- Each descriptor that a scan opens is free at that moment; that of a node that the scan has closed
-- may come again.
abbrev pub Scan : Type 0
Scan = (nodes : Option (List (Option Device))) × NodesFresh nodes closed

-- A grabber whose thread has ended has given its devices back.
pub record Holds (g : Grabber) (k : Kernel) : Type 0 where
  pub owns : Owns g.devices k
  pub returned : Grabber.is_running g ≡ false → g.devices ≡ []

-- A round of a thread that is alive. If it scans, each open gets a descriptor that is free then.
pub record Working (g : Grabber) (k : Kernel) : Type 0 where
  pub readings : List Reading
  pub due : Option (Option (List (Option Device)))
  pub runs : Grabber.is_running g ≡ true
  pub fresh : DueFresh due (read_all readings g k).1

pub work-Holds :
    (g : Grabber) (k : Kernel) (r : Working g k)
    → Holds g k
    → Holds (work r.readings r.due g k).0 (work r.readings r.due g k).1
work-Holds g k r h = record {
  owns = work-Owns r.readings r.due g k h.owns r.fresh;
  returned = λ idle. absurd (ground (arith, work_running r.readings r.due g k r.runs));
}

NodesFresh-idle :
    (nodes : Option (List (Option Device))) (k : Kernel)
    → Owns [] k
    → NodesFresh nodes closed
    → NodesFresh nodes k
NodesFresh-idle none k own fresh = tt
NodesFresh-idle (some nodes) k own fresh = IsFresh-mono nodes closed k (λ f o. own.opened f) fresh

pub new_grabber_started :
    (s : Scan) (k : Kernel) → Owns [] k → Started (Grabber.start s.0 new_grabber k)
unfolding Grabber.is_running
new_grabber_started (nodes, fresh) k own =
    start-Started nodes new_grabber k refl refl own (NodesFresh-idle nodes k own fresh)

no_devices :
    (s : Scan) (k : Kernel)
    → Owns [] k
    → (Grabber.start s.0 new_grabber k).0 ≡ false
    → (Grabber.start s.0 new_grabber k).1.devices ≡ []
no_devices s k own refused = is_empty→nil _ (ground (arith, (new_grabber_started s k own).honest))

pub start-Holds :
    (s : Scan) (k : Kernel)
    → Owns [] k
    → Holds (Grabber.start s.0 new_grabber k).1 (Grabber.start s.0 new_grabber k).2
start-Holds s k own =
    let st = new_grabber_started s k own in
    record {
      owns = st.owns;
      returned = λ idle. elim (Bool-cases (Grabber.start s.0 new_grabber k).0) [
        | inl ok ↦ absurd (ground (arith, st.running ok))
        | inr refused ↦ no_devices s k own refused
      ];
    }

pub start-refused :
    (s : Scan) (k : Kernel)
    → Owns [] k
    → (Grabber.start s.0 new_grabber k).0 ≡ false
    → Owns [] (Grabber.start s.0 new_grabber k).2
start-refused s k own refused =
    subst (λ (devs : List Device). Owns devs (Grabber.start s.0 new_grabber k).2)
      (no_devices s k own refused) (new_grabber_started s k own).owns

pub stop-idle : (g : Grabber) (k : Kernel) → Holds g k → Owns [] (Grabber.stop g k).1
unfolding Grabber.stop
stop-idle g k h = (release_all-closed _ k h.owns).0

pub finish-Holds : (g : Grabber) (k : Kernel) → Holds g k → Holds (finish g k).0 (finish g k).1
finish-Holds g k h =
    let r = finish-Released g k h.owns in
    record { owns = rw r.forgotten r.owns; returned = λ idle. r.forgotten }

pub finish-stopped : (g : Grabber) (k : Kernel) → Grabber.is_running (finish g k).0 ≡ false
unfolding finish Grabber.release_all Grabber.is_running
finish-stopped g k = ground arith

-- the operations and laws that the policy layer takes for granted
abbrev pub grabbers : Capture
grabbers = record {
  Object = Grabber;
  Kernel = Kernel;
  Scan = Scan;
  start = λ s k. Grabber.start s.0 new_grabber k;
  stop = λ g k. (Grabber.stop g k).1;
  is_running = Grabber.is_running;
  Round = Working;
  works = λ g k r. ((work r.readings r.due g k).0, (work r.readings r.due g k).1);
  works_holds = work-Holds;
  round_runs = λ g k r. r.runs;
  works_running = λ g k r. work_running r.readings r.due g k r.runs;
  dies = λ g k. ((finish g k).0, (finish g k).1);
  Holds = Holds;
  Idle = Owns [];
  start_holds = start-Holds;
  start_running = λ s k own ok. (new_grabber_started s k own).running ok;
  start_refused = start-refused;
  stop_idle = stop-idle;
  dead_idle = λ g k h idle. rw (h.returned idle) at h.owns;
  dead_holds =
      λ g k k' h idle own. record { owns = rw (h.returned idle) own; returned = h.returned };
  dies_holds = finish-Holds;
  dies_stopped = finish-stopped;
}

accounted_by :
    (o : Option Grabber) (k : Kernel) (f : ℕ)
    → Accounts grabbers o k
    → k.grabbed f ≡ true
    → object_running grabbers o ≡ true
accounted_by none k f own grabbed = absurd (ground (arith, own.grabbed f))
accounted_by (some g) k f own grabbed = elim (Bool-cases (Grabber.is_running g)) [
  | inl r ↦ r
  | inr idle ↦ absurd (ground (arith, own.owns.grabbed f, own.returned idle))
]

-- In every state reachable from a kernel with nothing open, by the calls of the handler, the rounds
-- of the reader thread (which drop keyboards and may scan for new ones) and its death, over the
-- capture layer of keyboard_evdev.py, where each open of a scan gets a descriptor that is free at
-- that moment: while the kernel withholds any keyboard from the desktop, capture is running
-- and the grab mode, which the tray shows, is on.
pub Reach-grabbed :
    {k : Kernel} {h : Handler grabbers} (f : ℕ)
    → Owns [] k
    → Reach grabbers k h
    → h.kernel.grabbed f ≡ true
    → (running grabbers h ≡ true) × (h.grab_mode ≡ true)
Reach-grabbed {h = h} f own reached grabbed =
    let v = Reach-IsHonest grabbers own reached in
    let r = accounted_by h.grabber h.kernel f v.accounts grabbed in (r, v.armed r)
