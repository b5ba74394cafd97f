-- ===== src/Tray/Startup/Tests.antt =====
-- Starts of the tray.
use toothkey.Base.{◌≡◌, refl, true, false, none, some, [], text}
use toothkey.Tray.Startup.{
  Variables, choose_platform, Qt, done, raised, returns, raises, main, after_xhost,
}

-- a Wayland session with XWayland
abbrev plasma : Variables
plasma = record {
  display = some (text ":1");
  wayland_display = some (text "wayland-0");
  toothkey_qt_platform = none;
  qt_qpa_platform = none;
}

platforms :
    (choose_platform plasma ≡ some (text "xcb"))
    × (choose_platform (record plasma { toothkey_qt_platform = some (text "wayland") })
        ≡ some (text "wayland"))
    × (choose_platform (record plasma { toothkey_qt_platform = some [] }) ≡ some (text "xcb"))
    × (choose_platform (record plasma { display = none }) ≡ none)
unfolding choose_platform
platforms = (refl, refl, refl, refl)

abbrev qt : Qt
qt = record { starts = λ p. true; xhost = done; has_tray = true; rc = 42 }

-- A call of xhost that is refused for another reason ends the tray before it looks for a system tray.
ends :
    (main plasma qt ≡ returns 42)
    × (main plasma (record qt { has_tray = false }) ≡ returns 3)
    × (main plasma (record qt { xhost = raised }) ≡ raises)
unfolding main choose_platform after_xhost
ends = (refl, refl, refl)
