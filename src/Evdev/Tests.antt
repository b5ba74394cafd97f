-- ===== src/Evdev/Tests.antt =====
-- Runs of the capture layer, and the theorems about it at concrete inputs.
use toothkey.Base.{ℕ, ◌≡◌, refl, false, some, List, [], ◌∷◌, length, if◌then◌else◌, ◌==◌, ltb}
use toothkey.Evdev.Keys.{
  Key-discrete, keycode_to_hid, keycode_to_mod_bit, key_a, key_b, key_leftctrl, key_leftalt,
  key_leftshift, max_keys,
}
use toothkey.Evdev.Report.{Held, rollover, pressed, usages_of, build_report, host_view, mod_byte}
use toothkey.Evdev.Report.Layout.{build_report-host_view}
use toothkey.Evdev.Events.{
  Reader, on_report, on_key_event, is_held, is_panic, is_paste, forward, emit, same_key,
}
use toothkey.Evdev.Events.Tracking.{IsTracked, on_key_event-holds, holds, is_ignored}
use toothkey.Evdev.Events.Wire.{Tells, on_key_event-Tells}

-- Shift and A are held.
abbrev shift_a : Held
shift_a = record { mods = key_leftshift ∷ []; keys = key_a ∷ [] }

abbrev reader : Held → Reader
reader h = record { held = h; suppress_forwarding = false; stop = false }

shift_a_report : build_report shift_a ≡ some (0xA1 ∷ 0x01 ∷ 2 ∷ 0 ∷ 4 ∷ 0 ∷ 0 ∷ 0 ∷ 0 ∷ 0 ∷ [])
unfolding build_report mod_byte keycode_to_mod_bit usages_of keycode_to_hid
shift_a_report = refl

press_b :
    (on_key_event (reader shift_a) key_b 1).1
    ≡ on_report (0xA1 ∷ 0x01 ∷ 2 ∷ 0 ∷ 4 ∷ 5 ∷ 0 ∷ 0 ∷ 0 ∷ 0 ∷ []) ∷ []
unfolding on_key_event is_panic is_paste is_held forward emit build_report mod_byte
    keycode_to_mod_bit usages_of keycode_to_hid Key-discrete
press_b = refl

shift_a-IsTracked : IsTracked shift_a
unfolding keycode_to_mod_bit
shift_a-IsTracked = record {
  mods_nodup = (refl, tt);
  keys_nodup = (refl, tt);
  only_modifiers = (refl, tt);
  only_plain = (refl, tt);
}

not_ignored : is_ignored shift_a key_b 1 ≡ false
unfolding keycode_to_mod_bit is_panic is_paste is_held Key-discrete
not_ignored = refl

on_key_event-Tells_example :
    (r : List ℕ) × ((on_key_event (reader shift_a) key_b 1).1 ≡ on_report r ∷ [])
    × Tells (on_key_event (reader shift_a) key_b 1).0.held r
on_key_event-Tells_example =
    on_key_event-Tells (reader shift_a) key_b 1 shift_a-IsTracked refl not_ignored

on_key_event-holds_example : holds (on_key_event (reader shift_a) key_a 0).0.held key_leftshift ≡ (
    if is_ignored shift_a key_a 0
    then holds shift_a key_leftshift
    else if same_key key_a key_leftshift
    then 0 == 1
    else holds shift_a key_leftshift)
on_key_event-holds_example =
    on_key_event-holds (reader shift_a) key_a 0 key_leftshift shift_a-IsTracked

ctrl_alt_shift : Held
ctrl_alt_shift = record { mods = key_leftctrl ∷ key_leftalt ∷ key_leftshift ∷ []; keys = [] }

ctrl : Held
ctrl = record { mods = key_leftctrl ∷ []; keys = [] }

build_report-host_view_example :
    (r : List ℕ) × (build_report shift_a ≡ some r)
    × (length r ≡ 10)
    × (host_view r
        ≡ some (
          2,
          (if ltb max_keys (length (usages_of (key_a ∷ [])))
              then rollover
              else pressed (usages_of (key_a ∷ []))),
        ))
unfolding mod_byte keycode_to_mod_bit
build_report-host_view_example = build_report-host_view shift_a 2 refl

abbrev shift_a_bytes : List ℕ
shift_a_bytes = 0xA1 ∷ 0x01 ∷ 2 ∷ 0 ∷ 4 ∷ 0 ∷ 0 ∷ 0 ∷ 0 ∷ 0 ∷ []
