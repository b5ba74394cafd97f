-- ===== src/Paste/Clipboard.antt =====
-- _read_desktop_clipboard: the helper programs, in their order.
pub mod Answers
mod Tests
use Prim.Native.String.{String}
use toothkey.Base.{
  ℕ, Bool, true, false, not, Option, none, some, List, [], ◌∷◌, ◌++◌, is_empty, if◌then◌else◌, ◌==◌,
  Text,
}

pub data Helper : Type 0 where
  wl_paste : Helper
  xclip : Helper

-- the output of a helper: text, or bytes that are not UTF-8, which are taken for Latin-1
pub data Output : Type 0 where
  utf8 : Text → Output
  latin1 : List ℕ → Output

-- how running a helper ends
pub data Ran : Type 0 where
  not_installed : Ran
  timed_out : Ran
  other_error : Ran
  returned : ℕ → Output → Ran

abbrev pub decoded : Output → Text
decoded (utf8 s) = s
decoded (latin1 bytes) = bytes

-- why a helper gave no text
pub data Complaint : Type 0 where
  missing : Helper → Complaint
  slow : Helper → Complaint
  broken : Helper → Complaint
  failed : Helper → ℕ → Complaint
  empty : Helper → Complaint

-- the text that a helper gives, or the complaint
abbrev pub answer : Helper → Ran → Complaint × Option Text
answer helper not_installed = (missing helper, none)
answer helper timed_out = (slow helper, none)
answer helper other_error = (broken helper, none)
answer helper (returned code output) =
    if not (code == 0)
    then (failed helper code, none)
    else (empty helper, if is_empty (decoded output) then none else some (decoded output))

abbrev pub got :
    Option Text → List Complaint → Option Text × List Complaint → Option Text × List Complaint
got none errors rest = rest
got (some s) errors rest = (some s, errors)

-- the loop over the candidates, with what each of them does if it is run
abbrev pub ask_helpers :
    List Helper → (Helper → Ran) → List Complaint → Option Text × List Complaint
ask_helpers [] run errors = (none, errors)
ask_helpers (helper ∷ helpers) run errors =
    got ((answer helper (run helper)).1) errors
      (ask_helpers helpers run (errors ++ (answer helper (run helper)).0 ∷ []))

-- the candidates, by WAYLAND_DISPLAY and DISPLAY
abbrev pub candidates : Bool → Bool → List Helper
candidates wayland display =
    (if wayland then wl_paste ∷ [] else []) ++ (if display then xclip ∷ [] else [])

-- `_read_desktop_clipboard`: the text, and what is printed if there is none
unfoldable pub read_desktop_clipboard : Bool → Bool → (Helper → Ran) → Option Text × List Complaint
read_desktop_clipboard wayland display run = ask_helpers (candidates wayland display) run []
