-- ===== src/Evdev/Events.antt =====
-- KeyboardGrabber._on_key_event: one EV_KEY event, from the keys held before it to those held
-- after it, and what is sent or called meanwhile.
pub mod Tracking
pub mod Chords
pub mod Wire
use toothkey.Base.{
  ℕ, ◌+◌, Bool, true, false, not, ◌&&◌, Option, none, some, List, [], ◌∷◌, if◌then◌else◌, ◌==◌, any,
  has, add_new, remove, is_some, is_decided,
}
use toothkey.Evdev.Keys.{
  Key, Key-discrete, keycode_to_mod_bit, key_esc, key_v, ctrl_keys, shift_keys, alt_keys, meta_keys,
}
use toothkey.Evdev.Report.{Held, build_report}

pub data Chord : Type 0 where
  panic paste : Chord

-- What the reader thread does to the outside: `on_report(bytes)`, `on_chord(name)`, or a log line
-- for a report that could not be built.
pub data Effect : Type 0 where
  on_report : List ℕ → Effect
  on_chord : Chord → Effect
  log_failure : Effect

-- The fields of a KeyboardGrabber that an event reads or writes: `_mods` and `_keys`,
-- `suppress_forwarding`, and whether the event `_stop` is set.
pub record Reader : Type 0 where
  pub held : Held
  pub suppress_forwarding : Bool
  pub stop : Bool

abbrev pub same_key : Key → Key → Bool
same_key j k = is_decided (Key-discrete j k)

-- `_held(keycodes)`
unfoldable pub is_held : Held → List Key → Bool
is_held h keycodes = any (λ k. has Key-discrete h.mods k) keycodes

-- `on_report(_build_report())` in its `try`; also the body of `send_current_state`
unfoldable pub emit : Held → List Effect
emit h = elim (build_report h) [ none ↦ log_failure ∷ [] | some report ↦ on_report report ∷ [] ]

unfoldable pub forward : Reader → Reader × List Effect
forward s = if s.suppress_forwarding then (s, []) else (s, emit s.held)

unfoldable pub is_panic : Held → Key → Bool
is_panic h code =
    same_key code key_esc && is_held h ctrl_keys && is_held h alt_keys && is_held h shift_keys

unfoldable pub is_paste : Held → Key → Bool
is_paste h code =
    same_key code key_v
    && is_held h ctrl_keys
    && not (is_held h alt_keys)
    && not (is_held h meta_keys)

abbrev pub with_mods : Reader → List Key → Reader
with_mods s mods = record s { held = record { mods = mods; keys = s.held.keys } }

abbrev pub with_keys : Reader → List Key → Reader
with_keys s keys = record s { held = record { mods = s.held.mods; keys = keys } }

unfoldable pub on_modifier : Reader → Key → Bool → Reader × List Effect
on_modifier s code pressed = forward (
    with_mods s (
      if pressed
      then add_new Key-discrete s.held.mods code
      else remove Key-discrete s.held.mods code))

unfoldable pub on_press : Reader → Key → Reader × List Effect
on_press s code =
    if is_panic s.held code
    then (record s { stop = true }, on_chord panic ∷ [])
    else (if is_paste s.held code
        then (s, on_chord paste ∷ [])
        else forward (with_keys s (add_new Key-discrete s.held.keys code)))

unfoldable pub on_release : Reader → Key → Reader × List Effect
on_release s code = forward (with_keys s (remove Key-discrete s.held.keys code))

-- `_on_key_event`, with the code and the value of the event
unfoldable pub on_key_event : Reader → Key → ℕ → Reader × List Effect
unfolding on_modifier on_press on_release
on_key_event s code value =
    if value == 2
    then (s, [])
    else (if is_some (keycode_to_mod_bit code)
        then on_modifier s code (value == 1)
        else (if value == 1 then on_press s code else on_release s code))
