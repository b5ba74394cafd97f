-- ===== src/Evdev/Events/Chords.antt =====
-- The two chords that the reader consumes: the emergency release and the clipboard paste.
use toothkey.Base.{
  ℕ, ◌≡◌, refl, ◌↔◌, true, false, none, List, [], ◌∷◌, arith, if◌then◌else◌, ◌==◌, add_new, remove,
}
use toothkey.Evdev.Keys.{
  Key, Key-discrete, keycode_to_mod_bit, key_esc, key_v, ctrl_keys, shift_keys, alt_keys, meta_keys,
}
use toothkey.Evdev.Report.{Held}
use toothkey.Evdev.Events.Tracking.{same_key_refl}
use toothkey.Evdev.Events.{
  Chord, with_mods, with_keys, Reader, Effect, on_chord, panic, paste, is_held, is_panic, is_paste,
  emit, forward, on_press, on_key_event,
}

plain_chord_keys : (keycode_to_mod_bit key_esc ≡ none) × (keycode_to_mod_bit key_v ≡ none)
unfolding keycode_to_mod_bit
plain_chord_keys = (refl, refl)

abbrev pub chords : List Effect → List Chord
chords [] = []
chords (on_chord c ∷ es) = c ∷ chords es
chords (_ ∷ es) = chords es

forward-chords : (s : Reader) → chords (forward s).1 ≡ []
unfolding forward emit
forward-chords s = ground arith

on_press-chords :
    (s : Reader) (code : Key)
    → chords (on_press s code).1 ≡ (
        if is_panic s.held code
        then panic ∷ []
        else if is_paste s.held code
        then paste ∷ []
        else [])
unfolding on_press
on_press-chords s code =
    ground (arith, forward-chords (with_keys s (add_new Key-discrete s.held.keys code)))

is_panic-plain : (h : Held) (code : Key) → is_panic h code ≡ true → keycode_to_mod_bit code ≡ none
unfolding is_panic
is_panic-plain h code e = ground (arith, plain_chord_keys)

is_paste-plain : (h : Held) (code : Key) → is_paste h code ≡ true → keycode_to_mod_bit code ≡ none
unfolding is_paste
is_paste-plain h code e = ground (arith, plain_chord_keys)

-- an event's chord is that of a press, and only a press of a key that is no modifier has one
on_key_event-chords :
    (s : Reader) (code : Key) (value : ℕ)
    → chords (on_key_event s code value).1 ≡ (
        if value == 1
        then (if is_panic s.held code
            then panic ∷ []
            else if is_paste s.held code
            then paste ∷ []
            else [])
        else [])
unfolding on_key_event
on_key_event-chords s code value = ground (
  arith,
  on_press-chords s code,
  is_panic-plain s.held code,
  is_paste-plain s.held code,
  forward-chords (with_keys s (remove Key-discrete s.held.keys code)),
  forward-chords (with_mods s (remove Key-discrete s.held.mods code)),
  forward-chords (with_mods s (add_new Key-discrete s.held.mods code)),
)

-- Esc, with a Ctrl, an Alt and a Shift key held
abbrev pub PanicChord : Held → Key → Type 0
PanicChord h code =
    (code ≡ key_esc)
    × (is_held h ctrl_keys ≡ true)
    × (is_held h alt_keys ≡ true)
    × (is_held h shift_keys ≡ true)

-- V, with a Ctrl key held and no Alt and no Meta key
abbrev pub PasteChord : Held → Key → Type 0
PasteChord h code =
    (code ≡ key_v)
    × (is_held h ctrl_keys ≡ true)
    × (is_held h alt_keys ≡ false)
    × (is_held h meta_keys ≡ false)

is_panic_iff : (h : Held) (code : Key) → (is_panic h code ≡ true) ↔ PanicChord h code
unfolding is_panic
is_panic_iff h code = (λ e. ground arith, λ p. ground (arith, same_key_refl key_esc))

is_paste_iff : (h : Held) (code : Key) → (is_paste h code ≡ true) ↔ PasteChord h code
unfolding is_paste
is_paste_iff h code = (λ e. ground arith, λ p. ground (arith, same_key_refl key_v))

is_panic_of_PasteChord : (h : Held) (code : Key) → PasteChord h code → is_panic h code ≡ false
unfolding is_panic
is_panic_of_PasteChord h code p = ground arith

on_key_event_of_is_panic :
    (s : Reader) (code : Key)
    → is_panic s.held code ≡ true
    → on_key_event s code 1 ≡ (record s { stop = true }, on_chord panic ∷ [])
unfolding on_key_event on_press
on_key_event_of_is_panic s code p = ground (arith, is_panic-plain s.held code p)

on_key_event_of_is_paste :
    (s : Reader) (code : Key)
    → is_panic s.held code ≡ false
    → is_paste s.held code ≡ true
    → on_key_event s code 1 ≡ (s, on_chord paste ∷ [])
unfolding on_key_event on_press
on_key_event_of_is_paste s code n p = ground (arith, is_paste-plain s.held code p)

-- The emergency release is called exactly on a press of Esc while a Ctrl, an Alt and a Shift key
-- are held, whether or not forwarding is muted; such a press also sets the stop event, sends
-- nothing and leaves the keys held alone.
pub on_key_event-panic :
    (s : Reader) (code : Key) (value : ℕ)
    → ((chords (on_key_event s code value).1 ≡ panic ∷ []) ↔ ((value ≡ 1) × PanicChord s.held code))
      × (PanicChord s.held code
          → on_key_event s code 1 ≡ (record s { stop = true }, on_chord panic ∷ []))
on_key_event-panic s code value = (
  (
    λ e. (
      ground (arith, on_key_event-chords s code value),
      (is_panic_iff s.held code).0 (ground (arith, on_key_event-chords s code value)),
    ),
    λ p. ground (arith, on_key_event-chords s code value, (is_panic_iff s.held code).1 p.1),
  ),
  λ p. on_key_event_of_is_panic s code ((is_panic_iff s.held code).1 p),
)

-- A paste is called exactly on a press of V while a Ctrl key and no Alt and no Meta key is held,
-- whether or not forwarding is muted; such a press sends nothing and changes no state.
pub on_key_event-paste :
    (s : Reader) (code : Key) (value : ℕ)
    → ((chords (on_key_event s code value).1 ≡ paste ∷ []) ↔ ((value ≡ 1) × PasteChord s.held code))
      × (PasteChord s.held code → on_key_event s code 1 ≡ (s, on_chord paste ∷ []))
on_key_event-paste s code value = (
  (
    λ e. (
      ground (arith, on_key_event-chords s code value),
      (is_paste_iff s.held code).0 (ground (arith, on_key_event-chords s code value)),
    ),
    λ p. ground (
      arith,
      on_key_event-chords s code value,
      is_panic_of_PasteChord s.held code p.1,
      (is_paste_iff s.held code).1 p.1,
    ),
  ),
  λ p.
      on_key_event_of_is_paste s code (is_panic_of_PasteChord s.held code p)
        ((is_paste_iff s.held code).1 p),
)
