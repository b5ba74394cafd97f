-- ===== src/Tray/Startup/Exits.antt =====
-- When the tray runs, and on which platform.
use toothkey.Base.{◌≡◌, refl, Bool, true, false, not, some, arith, text, if◌then◌else◌}
use toothkey.Tray.Startup.{
  is_set, Variables, choose_platform, Qt, Ran, done, missing, timed_out, raised, returns, raises,
  after_xhost, main,
}

abbrev is_caught : Ran → Bool
is_caught done = true
is_caught missing = true
is_caught timed_out = true
is_caught raised = false

after_xhost-exits :
    (r : Ran) (q : Qt)
    → after_xhost r q
      ≡ (if is_caught r then (if q.has_tray then returns q.rc else returns 3) else raises)
unfolding after_xhost
after_xhost-exits done q = refl
after_xhost-exits missing q = refl
after_xhost-exits timed_out q = refl
after_xhost-exits raised q = refl

-- With no display the tray returns 2; with an X display, and unless the environment names another
-- platform, it asks Qt for xcb; and if Qt starts and xhost is no more than missing or slow, it returns
-- what its event loop does, or 3 if there is no system tray.
pub main-exits :
    (s : Variables) (q : Qt)
    → (is_set s.display ≡ false → is_set s.wayland_display ≡ false → main s q ≡ returns 2)
      × (is_set s.toothkey_qt_platform ≡ false
          → is_set s.qt_qpa_platform ≡ false
          → is_set s.display ≡ true
          → q.starts (some (text "xcb")) ≡ true
          → is_caught q.xhost ≡ true
          → main s q ≡ (if q.has_tray then returns q.rc else returns 3))
unfolding main choose_platform
main-exits s q = (
  λ no_x no_wayland. ground arith,
  λ forced named display starts caught.
      rw (forced, named, display, starts, not, if◌then◌else◌)
        (ground (arith, after_xhost-exits q.xhost q)),
)
