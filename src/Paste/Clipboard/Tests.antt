-- ===== src/Paste/Clipboard/Tests.antt =====
-- Tests of the reading of the clipboard.
use toothkey.Base.{◌≡◌, refl, true, none, some, [], ◌∷◌}
use toothkey.Paste.Clipboard.{
  Helper, wl_paste, xclip, Ran, not_installed, returned, utf8, latin1, read_desktop_clipboard,
  missing, empty,
}

-- wl-paste is not there, and xclip gives bytes that are not UTF-8
abbrev xclip_only : Helper → Ran
xclip_only wl_paste = not_installed
xclip_only xclip = returned 0 (latin1 (228 ∷ []))

abbrev all_empty : Helper → Ran
all_empty helper = returned 0 (utf8 [])

xclip_answers :
    read_desktop_clipboard true true xclip_only ≡ (some (228 ∷ []), missing wl_paste ∷ [])
unfolding read_desktop_clipboard
xclip_answers = refl

both_complain :
    read_desktop_clipboard true true all_empty ≡ (none, empty wl_paste ∷ empty xclip ∷ [])
unfolding read_desktop_clipboard
both_complain = refl
