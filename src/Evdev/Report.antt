-- ===== src/Evdev/Report.antt =====
-- KeyboardGrabber._build_report: the ten bytes of a boot-keyboard input report from the keys held,
-- and how a HID host reads such a report.
pub mod Modifiers
pub mod Layout
pub mod Usages
use toothkey.Base.{
  ℕ, zero, suc, ◌+◌, ◌≡◌, refl, Bool, true, false, ◌&&◌, Option, none, some, List, [], ◌∷◌, bit_or,
  if◌then◌else◌, ltb, ◌==◌, length, set, replicate, take, drop,
}
use toothkey.Evdev.Keys.{Key, keycode_to_hid, keycode_to_mod_bit, max_keys, hid_error_rollover}

-- The keys that are physically held: `_mods` is a set, here in some order without repetition, and
-- `_keys` the list of the other keys, oldest first.
pub record Held : Type 0 where
  pub mods : List Key
  pub keys : List Key

-- `for code in self._mods: mod |= KEYCODE_TO_MOD_BIT[code]`; `none` is the KeyError.
unfoldable pub mod_byte : ℕ → List Key → Option ℕ
mod_byte byte [] = some byte
mod_byte byte (code ∷ codes) = elim (keycode_to_mod_bit code) [
  | none ↦ none
  | some bit ↦ mod_byte (bit_or byte bit) codes
]

-- the usages of the keys that have one
unfoldable pub usages_of : List Key → List ℕ
usages_of [] = []
usages_of (code ∷ codes) =
    let rest = usages_of codes in
    elim (keycode_to_hid code) [ none ↦ rest | some usage ↦ usage ∷ rest ]

-- `for i, usage in enumerate(usages): report[at + i] = usage`; `none` is the IndexError.
unfoldable pub write_slots : ℕ → List ℕ → List ℕ → Option (List ℕ)
write_slots at [] report = some report
write_slots at (usage ∷ usages) report =
    let rest = write_slots (at + 1) usages (set report at usage) in
    if ltb at (length report) then rest else none

-- `_build_report`; `none` is the KeyError or the IndexError.
unfoldable pub build_report : Held → Option (List ℕ)
unfolding write_slots
build_report h = elim (mod_byte 0 h.mods) [
  | none ↦ none
  | some byte ↦
      let usages = usages_of h.keys in
      let report = set (set (set (replicate 10 0) 0 0xA1) 1 0x01) 2 byte in
      if ltb max_keys (length usages)
      then write_slots 4 (replicate max_keys hid_error_rollover) report
      else write_slots 4 usages report
]

-- What a boot-protocol host takes from the six slots: nothing while the keyboard reports a
-- rollover, else the usages that are not 0.
pub data Slots : Type 0 where
  rollover : Slots
  pressed : List ℕ → Slots

abbrev pub nonzero : List ℕ → List ℕ
nonzero [] = []
nonzero (u ∷ us) = let rest = nonzero us in if u == 0 then rest else u ∷ rest

abbrev pub read_slots : List ℕ → Slots
read_slots [] = pressed []
read_slots (u ∷ us) = if u == hid_error_rollover then rollover else pressed (nonzero (u ∷ us))

-- A host's view of the bytes: the modifier byte and the slots, if the report is well formed.
unfoldable pub host_view : List ℕ → Option (ℕ × Slots)
host_view (header ∷ report_id ∷ byte ∷ reserved ∷ slots) =
    if header == 0xA1 && (report_id == 0x01) && (reserved == 0) && (length slots == 6)
    then some (byte, read_slots slots)
    else none
host_view _ = none
