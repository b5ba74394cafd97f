-- ===== src/Evdev/Events/Tracking.antt =====
-- The keys that the reader believes are held.
use toothkey.Base.{
  ℕ, ◌≡◌, refl, Bool, true, false, not, ◌&&◌, ◌||◌, arith, if◌then◌else◌, ◌==◌, has, add_new,
  remove, IsNodup, IsNodup-add_new, IsNodup-remove, has-add_new, has-remove_ne, has-remove_self,
  is_some, is_decided, All, All-add_new, All-remove, has-false_of_All,
}
use toothkey.Evdev.Keys.{Key, Key-discrete, keycode_to_mod_bit}
use toothkey.Evdev.Report.{Held}
use toothkey.Evdev.Report.Modifiers.{IsModifier}
use toothkey.Evdev.Events.{
  Reader, with_mods, with_keys, is_panic, is_paste, forward, on_key_event, same_key,
}

abbrev pub IsPlain : Key → Type 0
IsPlain code = is_some (keycode_to_mod_bit code) ≡ false

-- No key is listed twice; the set holds modifiers only, and the list none.
pub record IsTracked (h : Held) : Type 0 where
  pub mods_nodup : IsNodup Key-discrete h.mods
  pub keys_nodup : IsNodup Key-discrete h.keys
  pub only_modifiers : All IsModifier h.mods
  pub only_plain : All IsPlain h.keys

forward-held : (s : Reader) → (forward s).0 ≡ s
unfolding forward
forward-held s = ground arith

-- the four states that an event other than a chord can lead to
abbrev Forwards : Reader → Key → Type 0
Forwards s code =
    let mods = s.held.mods in
    let keys = s.held.keys in
    ((forward (with_mods s (add_new Key-discrete mods code))).0
      ≡ with_mods s (add_new Key-discrete mods code))
    × ((forward (with_mods s (remove Key-discrete mods code))).0
        ≡ with_mods s (remove Key-discrete mods code))
    × ((forward (with_keys s (add_new Key-discrete keys code))).0
        ≡ with_keys s (add_new Key-discrete keys code))
    × ((forward (with_keys s (remove Key-discrete keys code))).0
        ≡ with_keys s (remove Key-discrete keys code))

forwards : (s : Reader) (code : Key) → Forwards s code
forwards s code = (forward-held _, forward-held _, forward-held _, forward-held _)

-- Every event, of any code and value, keeps the two lists of held keys in order: no key twice,
-- modifiers in the one and no modifier in the other.
pub on_key_event-IsTracked :
    (s : Reader) (code : Key) (value : ℕ)
    → IsTracked s.held
    → IsTracked (on_key_event s code value).0.held
unfolding on_key_event
on_key_event-IsTracked s code value h = ground (
  arith,
  forwards s code,
  IsNodup-add_new Key-discrete s.held.mods code h.mods_nodup,
  IsNodup-add_new Key-discrete s.held.keys code h.keys_nodup,
  IsNodup-remove Key-discrete s.held.mods code h.mods_nodup,
  IsNodup-remove Key-discrete s.held.keys code h.keys_nodup,
  All-add_new Key-discrete IsModifier s.held.mods code h.only_modifiers,
  All-add_new Key-discrete IsPlain s.held.keys code h.only_plain,
  All-remove Key-discrete IsModifier s.held.mods code h.only_modifiers,
  All-remove Key-discrete IsPlain s.held.keys code h.only_plain,
)

-- Is a key held, of either kind?
abbrev pub holds : Held → Key → Bool
holds h k = has Key-discrete h.mods k || has Key-discrete h.keys k

-- The events that leave the keys as they are: autorepeat, and a press that completes a chord.
abbrev pub is_ignored : Held → Key → ℕ → Bool
is_ignored h code value =
    value == 2
    || (value == 1
        && not (is_some (keycode_to_mod_bit code))
        && (is_panic h code || is_paste h code))

pub same_key_refl : (k : Key) → same_key k k ≡ true
same_key_refl k = elim (Key-discrete k k) as (λ d. is_decided d ≡ true) [
  | yes e ↦ refl
  | no n ↦ absurd (n refl)
]

pub same_key_ne : (j k : Key) → ¬ (j ≡ k) → same_key j k ≡ false
same_key_ne j k h = elim (Key-discrete j k) as (λ d. is_decided d ≡ false) [
  | yes e ↦ absurd (h e)
  | no n ↦ refl
]

-- the key of the event itself
on_key_event-holds_self :
    (s : Reader) (code : Key) (value : ℕ)
    → IsTracked s.held
    → holds (on_key_event s code value).0.held code
      ≡ (if is_ignored s.held code value then holds s.held code else value == 1)
unfolding on_key_event
on_key_event-holds_self s code value h = ground (
  arith,
  forwards s code,
  same_key_refl code,
  has-add_new Key-discrete s.held.mods code code,
  has-add_new Key-discrete s.held.keys code code,
  has-remove_self Key-discrete s.held.mods code h.mods_nodup,
  has-remove_self Key-discrete s.held.keys code h.keys_nodup,
  has-false_of_All Key-discrete IsModifier s.held.mods code h.only_modifiers,
  has-false_of_All Key-discrete IsPlain s.held.keys code h.only_plain,
)

-- From lists of held keys that are in order: an ignored event (an autorepeat, or a press that
-- completes a chord) changes no key; any other press adds its key to those held, and a release
-- takes it away; and every other key is held after the event exactly if it was before.
pub on_key_event-holds :
    (s : Reader) (code : Key) (value : ℕ) (k : Key)
    → IsTracked s.held
    → holds (on_key_event s code value).0.held k ≡ (
        if is_ignored s.held code value
        then holds s.held k
        else if same_key code k
        then value == 1
        else holds s.held k)
unfolding on_key_event
on_key_event-holds s code value k h = elim (Key-discrete code k) [
  | yes e ↦ rw (← e) (rw same_key_refl (on_key_event-holds_self s code value h))
  | no n ↦ ground (
    arith,
    same_key_ne code k n,
    forwards s code,
    has-add_new Key-discrete s.held.mods code k,
    has-add_new Key-discrete s.held.keys code k,
    has-remove_ne Key-discrete s.held.mods code k n,
    has-remove_ne Key-discrete s.held.keys code k n,
  )
]
