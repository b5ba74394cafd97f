-- ===== src/Paste/Typing.antt =====
-- keyboard_handler.py, _do_clipboard_paste: the reports that type a text, one key at a time.
pub mod Host
use toothkey.Base.{
  ℕ, zero, suc, ◌+◌, Bool, true, false, Option, none, some, List, [], ◌∷◌, ◌++◌, if◌then◌else◌, set,
}
use toothkey.Evdev.Report.{Held}
use toothkey.Evdev.Events.{Effect, on_report, emit}
use toothkey.Paste.Chars.{Unicode, char_to_hid}

-- `quiescent`: no modifier and no key
abbrev pub quiescent : List ℕ
quiescent = 0xA1 ∷ 0x01 ∷ 0 ∷ 0 ∷ 0 ∷ 0 ∷ 0 ∷ 0 ∷ 0 ∷ 0 ∷ []

-- `_HID_MOD_SHIFT_L`
abbrev pub hid_mod_shift_l : ℕ
hid_mod_shift_l = 2

-- `press = bytearray(quiescent); press[2] = ...; press[4] = usage`
abbrev pub press : ℕ → Bool → List ℕ
press usage needs_shift = set (set quiescent 2 (if needs_shift then hid_mod_shift_l else 0)) 4 usage

pub record Typed : Type 0 where
  pub reports : List (List ℕ)
  pub sent : ℕ
  pub skipped : ℕ

-- The loop over the text. With each character stands what `grab_mode` is when its turn comes: the
-- other threads may clear it meanwhile, and the paste breaks off then.
unfoldable pub type_text : Unicode → List (ℕ × Bool) → Typed
type_text py [] = record { reports = []; sent = 0; skipped = 0 }
type_text py ((ch, grab_mode) ∷ text) =
    let rest = type_text py text in
    elim grab_mode [
      | false ↦ record { reports = []; sent = 0; skipped = 0 }
      | true ↦ elim (char_to_hid py ch) [
        | none ↦ record rest { skipped = rest.skipped + 1 }
        | some (usage, needs_shift) ↦ record {
          reports = press usage needs_shift ∷ quiescent ∷ rest.reports;
          sent = rest.sent + 1;
          skipped = rest.skipped;
        }
      ]
    ]

-- What a paste sends before it restores the real keys; `none` or an empty text sends nothing.
unfoldable pub paste_reports : Unicode → Option (List (ℕ × Bool)) → List (List ℕ)
unfolding type_text
paste_reports py none = []
paste_reports py (some []) = []
paste_reports py (some (c ∷ text)) = quiescent ∷ (type_text py (c ∷ text)).reports
