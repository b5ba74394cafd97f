-- ===== src/Policy/Handler.antt =====
-- ToothkeyKeyboardHandler's class methods, each run under the class lock, over any capture layer; and
-- the end of a paste and the rounds of the reader thread, which are not.
pub mod Honest
pub mod Reachable
pub mod Release
pub mod Phases
use toothkey.Base.{
  ℕ, ◌+◌, ◌-◌, ltb, ◌≡◌, Bool, true, false, not, ◌&&◌, ◌||◌, Option, none, some, if◌then◌else◌,
}
use toothkey.Policy.Capture.{Capture}

module _ (C : Capture) where
  open C use {Object, Kernel, Scan, start, stop, is_running, Round, works, dies}

  -- `GlobalContext.grab_mode` and the class attributes; `muted` is the `suppress_forwarding` of the
  -- current `_grabber`, `paste_on_current` whether that is the one the last paste began with, and
  -- `unmuting` how many paste threads that began with it are between the two assignments at their end.
  pub record Handler : Type 0 where
    pub grab_mode : Bool
    pub grabber : Option Object
    pub kernel : Kernel
    pub active : Bool
    pub paste_in_progress : Bool
    pub muted : Bool
    pub paste_on_current : Bool
    pub unmuting : ℕ

  abbrev pub object_running : Option Object → Bool
  object_running none = false
  object_running (some g) = is_running g

  -- `is_running`
  abbrev pub running : Handler → Bool
  running h = object_running h.grabber

  abbrev pub stop_object : Option Object → Kernel → Kernel
  stop_object none k = k
  stop_object (some g) k = stop g k

  -- `_stop_grab`
  unfoldable pub stop_grab : Handler → Handler
  stop_grab h = record h {
    grabber = none;
    kernel = stop_object h.grabber h.kernel;
    muted = false;
    paste_on_current = false;
    unmuting = 0;
  }

  -- the part of `set_grab_mode` that takes a grab
  unfoldable pub take_grab : Scan → Handler → Handler × Bool
  take_grab scan h =
      let (ok, g, k) = start scan h.kernel in
      if ok
      then (
        record h {
          grab_mode = true;
          grabber = some g;
          kernel = k;
          muted = false;
          paste_on_current = false;
          unmuting = 0;
        },
        true,
      )
      else (record h { grab_mode = false; kernel = k }, false)

  -- `set_grab_mode`, with whether a peer is connected and what a scan finds
  unfoldable pub set_grab_mode : Bool → Bool → Scan → Handler → Handler × Bool
  unfolding stop_grab take_grab
  set_grab_mode on peer_connected scan h =
      if on && h.grab_mode && running h
      then (h, true)
      else if not on && not h.grab_mode && not (running h)
      then (h, false)
      else if not on
      then (record (stop_grab h) { grab_mode = false }, false)
      else if not peer_connected
      then (record h { grab_mode = false }, false)
      else take_grab scan h

  unfoldable pub start_listener : Bool → Scan → Handler → Handler × Bool
  unfolding set_grab_mode
  start_listener peer_connected scan h =
      if not h.grab_mode || running h
      then (h, running h)
      else set_grab_mode true peer_connected scan (record h { grab_mode = false })

  unfoldable pub stop_listener : Handler → Handler
  unfolding stop_grab
  stop_listener h = stop_grab h

  unfoldable pub shutdown : Handler → Handler
  unfolding stop_grab
  shutdown h = record (stop_grab (record h { active = false })) { grab_mode = false }

  -- the thread that `_on_panic` or `_on_capture_lost` starts; the callback is given the second part
  unfoldable pub on_grab_ended : Handler → Handler × Bool
  unfolding stop_grab
  on_grab_ended h = (record (stop_grab h) { grab_mode = false }, false)

  -- the reader thread ends by itself; the handler hears of it by `_on_capture_lost`
  unfoldable pub reader_dies : Handler → Handler
  reader_dies h = elim h.grabber [
    | none ↦ h
    | some g ↦ let (g', k') = dies g h.kernel in record h { grabber = some g'; kernel = k' }
  ]

  -- a round of the reader thread
  unfoldable pub reader_works : (h : Handler) (g : Object) → Round g h.kernel → Handler
  reader_works h g r =
      let (g', k') = works g h.kernel r in record h { grabber = some g'; kernel = k' }

  -- `_start_clipboard_paste`; the second part is whether a paste thread is started
  unfoldable pub start_clipboard_paste : Handler → Handler × Bool
  start_clipboard_paste h = if h.paste_in_progress then (h, false) else elim h.grabber [
    | none ↦ (h, false)
    | some g ↦ (record h { paste_in_progress = true; muted = true; paste_on_current = true }, true)
  ]

  -- The `finally` of `_do_clipboard_paste`, which no lock guards: another call may come between its
  -- two assignments. The first ends the paste in progress.
  unfoldable pub finish_paste : Handler → Handler
  finish_paste h = if not h.paste_in_progress then h else record h {
    paste_in_progress = false;
    unmuting = if h.paste_on_current then h.unmuting + 1 else h.unmuting;
  }

  -- The second takes the mute from the grabber that the paste began with. A thread whose grabber is
  -- no longer the current one does nothing to the current one.
  unfoldable pub unmute : Handler → Handler
  unmute h = if ltb 0 h.unmuting then record h { unmuting = h.unmuting - 1; muted = false } else h
