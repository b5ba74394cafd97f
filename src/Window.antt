-- ===== src/Window.antt =====
-- x11_window_hints.py: keeping a window out of the taskbar, the pager and the switcher. Atoms and
-- windows are numbers.
pub mod Merged
mod Tests
use toothkey.Base.{
  ℕ, ◌+◌, Bool, true, false, not, Option, none, some, List, [], ◌∷◌, ◌++◌, has, ℕ_discrete,
  if◌then◌else◌, ◌==◌, is_empty,
}

-- `_display`, whether python-xlib is there, and whether a connection was refused
pub record Connection : Type 0 where
  pub display : Bool
  pub imported : Bool
  pub refused : Bool

-- `_get_display`, with whether a new connection succeeds; the second part is whether there is one
unfoldable pub get_display : Bool → Connection → Connection × Bool
get_display connects c =
    if c.display
    then (c, true)
    else if not c.imported
    then (c, false)
    else if connects
    then (record c { display = true }, true)
    else (record c { refused = true }, false)

-- `unavailable_reason`, without its text
pub data Unavailable : Type 0 where
  no_xlib : Unavailable
  no_server : Unavailable

unfoldable pub unavailable_reason : Connection → Option Unavailable
unavailable_reason c =
    if not c.imported then some no_xlib else if c.refused then some no_server else none

-- the atoms that the server gives out for the four names
pub record Atoms : Type 0 where
  pub state : ℕ
  pub skip_taskbar : ℕ
  pub skip_pager : ℕ
  pub skip_switcher : ℕ

abbrev pub wanted : Atoms → List ℕ
wanted a = a.skip_taskbar ∷ a.skip_pager ∷ a.skip_switcher ∷ []

-- `[a for a in wanted if a not in existing]`
abbrev pub missing : List ℕ → List ℕ → List ℕ
missing existing [] = []
missing existing (a ∷ atoms) =
    let rest = missing existing atoms in if has ℕ_discrete existing a then rest else a ∷ rest

abbrev pub merge : List ℕ → List ℕ → List ℕ
merge existing atoms = existing ++ missing existing atoms

-- the state property of the window, how often it was written, and the messages, as the two atoms
-- of each
pub record Window : Type 0 where
  pub property : Option (List ℕ)
  pub writes : ℕ
  pub messages : List (ℕ × ℕ)

abbrev pub existing_of : Option (List ℕ) → List ℕ
existing_of none = []
existing_of (some atoms) = atoms

-- the property is written if the merge adds something
unfoldable pub write_state : List ℕ → Window → Window
write_state atoms w =
    if is_empty (missing (existing_of w.property) atoms)
    then w
    else record w { property = some (merge (existing_of w.property) atoms); writes = w.writes + 1 }

unfoldable pub send_messages : Atoms → Window → Window
send_messages a w = record w {
  messages = w.messages ++ (a.skip_taskbar, a.skip_pager) ∷ (a.skip_switcher, 0) ∷ [];
}

-- where the X calls fail, if they do: before the property is written, or after it
pub data Fault : Type 0 where
  no_fault : Fault
  early : Fault
  late : Fault

-- `skip_taskbar_and_pager`: whether there is a display, the id if it is a number above 0
unfoldable pub skip_taskbar_and_pager : Bool → Option ℕ → Fault → Atoms → Window → Window × Bool
unfolding write_state send_messages
skip_taskbar_and_pager false window_id fault a w = (w, false)
skip_taskbar_and_pager true none fault a w = (w, false)
skip_taskbar_and_pager true (some wid) early a w = (w, false)
skip_taskbar_and_pager true (some wid) late a w = (write_state (wanted a) w, false)
skip_taskbar_and_pager true (some wid) no_fault a w =
    (send_messages a (write_state (wanted a) w), true)
