-- ===== src/Tray/Startup.antt =====
-- tray.py, `main`: the choice of the Qt platform, and how the tray ends before or after its event loop.
pub mod Exits
mod Tests
use toothkey.Base.{
  ℕ, Bool, true, false, not, ◌&&◌, ◌||◌, Option, none, some, if◌then◌else◌, Text, text, is_empty,
}

-- `if os.environ.get(...)`
abbrev pub is_set : Option Text → Bool
is_set none = false
is_set (some s) = not (is_empty s)

-- the variables that `main` looks at
pub record Variables : Type 0 where
  pub display : Option Text
  pub wayland_display : Option Text
  pub toothkey_qt_platform : Option Text
  pub qt_qpa_platform : Option Text

-- QT_QPA_PLATFORM as Qt reads it
unfoldable pub choose_platform : Variables → Option Text
choose_platform s =
    if is_set s.toothkey_qt_platform
    then s.toothkey_qt_platform
    else if is_set s.qt_qpa_platform
    then s.qt_qpa_platform
    else if is_set s.display
    then some (text "xcb")
    else s.qt_qpa_platform

-- how xhost ends: done, missing, too slow, or with something else that it raises
pub data Ran : Type 0 where
  done missing timed_out raised : Ran

-- what `main` meets: whether QApplication can be made on a platform, xhost, whether there is a system
-- tray, and what the event loop returns
pub record Qt : Type 0 where
  pub starts : Option Text → Bool
  pub xhost : Ran
  pub has_tray : Bool
  pub rc : ℕ

-- `main` returns this, or raises
pub data Exit : Type 0 where
  returns : ℕ → Exit
  raises : Exit

-- from the call of xhost on
unfoldable pub after_xhost : Ran → Qt → Exit
after_xhost done q = if q.has_tray then returns q.rc else returns 3
after_xhost missing q = if q.has_tray then returns q.rc else returns 3
after_xhost timed_out q = if q.has_tray then returns q.rc else returns 3
after_xhost raised q = raises

-- `main`, once its arguments are parsed
unfoldable pub main : Variables → Qt → Exit
main s q =
    if not (is_set s.display) && not (is_set s.wayland_display)
    then returns 2
    else if not (q.starts (choose_platform s))
    then raises
    else after_xhost q.xhost q
