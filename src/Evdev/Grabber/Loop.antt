-- ===== src/Evdev/Grabber/Loop.antt =====
-- KeyboardGrabber._run: the reader thread, one round at a time. What select, the devices and the
-- other threads do in a round is given.
pub mod Exit
use toothkey.Base.{
  ℕ, Bool, true, false, not, ◌||◌, Option, none, some, List, [], ◌∷◌, ◌++◌, if◌then◌else◌, is_empty,
}
use toothkey.Evdev.Keys.{Key}
use toothkey.Evdev.Events.{Reader, Effect, on_key_event}
use toothkey.Evdev.Devices.{Device, Kernel}
use toothkey.Evdev.Grabber.{Grabber, release_all, rescan, device_at, drop_device}

-- What reading one ready descriptor yields: its EV_KEY events, and whether an OSError follows.
pub record Reading : Type 0 where
  pub fd : ℕ
  pub events : List (Key × ℕ)
  pub fails : Bool

-- One round: another thread may have set the stop event or the muting first; then select fails with
-- EBADF or EINTR, fails otherwise, or returns the ready descriptors, after which a rescan may be due.
pub data Selected : Type 0 where
  retry crash : Selected
  ready : List Reading → Option (Option (List (Option Device))) → Selected

pub record Round : Type 0 where
  pub stop_asked : Bool
  pub muted : Bool
  pub selected : Selected

-- `for event in dev.read(): self._on_key_event(event)`
unfoldable pub feed : List (Key × ℕ) → Reader → Reader × List Effect
feed [] s = (s, [])
feed ((code, value) ∷ events) s =
    let (s', sent) = on_key_event s code value in
    let (s'', more) = feed events s' in (s'', sent ++ more)

-- the body of `for fd in ready`
unfoldable pub read_fd : Reading → Grabber → Kernel → Grabber × Kernel × List Effect
unfolding feed
read_fd r g k = elim (device_at g.devices r.fd) [
  | none ↦ (g, k, [])
  | some dev ↦
      let (reader, sent) = feed r.events g.reader in
      let (g', k') = drop_device r.fd (record g { reader = reader }) k in
      if r.fails then (g', k', sent) else (record g { reader = reader }, k, sent)
]

unfoldable pub read_all : List Reading → Grabber → Kernel → Grabber × Kernel × List Effect
unfolding read_fd
read_all [] g k = (g, k, [])
read_all (r ∷ rs) g k =
    let (g1, k1, sent) = read_fd r g k in
    let (g2, k2, more) = read_all rs g1 k1 in (g2, k2, sent ++ more)

unfoldable pub rescan_if_due :
    Option (Option (List (Option Device))) → Grabber → Kernel → Grabber × Kernel
rescan_if_due none g k = (g, k)
rescan_if_due (some nodes) g k = rescan nodes g k

-- the part of a round that follows a `select` that returns
unfoldable pub work :
    List Reading
    → Option (Option (List (Option Device)))
    → Grabber
    → Kernel
    → Grabber × Kernel × List Effect
work readings due g k =
    let (g1, k1, sent) = read_all readings g k in
    let (g2, k2) = rescan_if_due due g1 k1 in (g2, k2, sent)

-- the `finally` of `_run`; the last part is whether `on_lost` is called
unfoldable pub finish : Grabber → Kernel → Grabber × Kernel × List Effect × Bool
finish g k =
    let (g', k', sent) = release_all g k in
    (record g' { reader = record (g'.reader) { stop = true } }, k', sent, not g'.reader.stop)

-- The thread's life over the given rounds: what it sends, and at its end the state that it leaves.
-- `none` is a thread that is still running when the rounds are used up.
pub record Ended : Type 0 where
  pub grabber : Grabber
  pub kernel : Kernel
  pub lost : Bool

abbrev ended : Grabber → Kernel → Option Ended × List Effect
ended g k =
    let (g', k', sent, lost) = finish g k in
    (some (record { grabber = g'; kernel = k'; lost = lost }), sent)

abbrev outside : Round → Grabber → Grabber
outside r g = record g {
  reader = record (g.reader) {
    stop = g.reader.stop || r.stop_asked;
    suppress_forwarding = r.muted;
  };
}

unfoldable pub run : List Round → Grabber → Kernel → Option Ended × List Effect
unfolding finish work
run [] g k = (none, [])
run (r ∷ rounds) g k =
    let g0 = outside r g in
    elim (g0.reader.stop || is_empty g0.devices) [
      | true ↦ ended g0 k
      | false ↦ elim r.selected [
        | retry ↦ run rounds g0 k
        | crash ↦ ended g0 k
        | ready readings due ↦
            let (g1, k1, sent) = work readings due g0 k in
            let rest = run rounds g1 k1 in (rest.0, sent ++ rest.1)
      ]
    ]
