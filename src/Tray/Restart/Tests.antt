-- ===== src/Tray/Restart/Tests.antt =====
-- A restart by hand, and the theorem about it at one.
use toothkey.Base.{
  ◌≡◌, refl, ◌++◌, true, false, none, some, [], ◌∷◌, Text, text, same_text, split_at, if◌then◌else◌,
}
use toothkey.Tray.Restart.{
  Desktop, Env, done, raised, asked_systemd, missing_start_sh, spawn_restart, find_gui_askpass,
  is_installed_mode, spawn_restart_installed, spawn_restart_start_sh,
}

abbrev environ : Env
environ m = if same_text m (text "DISPLAY") then some (text ":0") else none

-- a desktop with ssh-askpass, where ksshaskpass cannot be looked at
abbrev desktop : Text → Desktop
desktop start_sh = record {
  environ = environ;
  start_sh = start_sh;
  has_start_sh = true;
  access = λ path.
      if same_text path (text "/usr/bin/ksshaskpass")
      then none
      else some (same_text path (text "/usr/bin/ssh-askpass"));
  which = λ name. none;
  spawns = true;
}

askpass :
    find_gui_askpass (desktop []).access (desktop []).which ≡ some (text "/usr/bin/ssh-askpass")
unfolding find_gui_askpass
askpass = refl

-- installed, the tray leaves the restart to systemd whatever comes of the call
installed :
    spawn_restart raised (record (desktop []) {
      environ = λ m. if same_text m (text "TOOTHKEY_INSTALLED") then some (text "1") else none;
    })
    ≡ asked_systemd
unfolding spawn_restart is_installed_mode spawn_restart_installed
installed = refl

missing : spawn_restart done (record (desktop []) { has_start_sh = false }) ≡ missing_start_sh
unfolding spawn_restart is_installed_mode spawn_restart_start_sh
missing = refl

-- In a directory with a blank in its name the shell runs another program.
blank_in_path :
    split_at 32 (text "sleep 1 && exec " ++ text "/opt/my keys/start.sh")
    ≡ text "sleep" ∷ text "1" ∷ text "&&" ∷ text "exec" ∷ text "/opt/my" ∷ text "keys/start.sh" ∷ []
blank_in_path = refl

abbrev start_sh : Text
start_sh = text "/opt/start.sh"

by_hand : is_installed_mode environ ≡ false
unfolding is_installed_mode
by_hand = refl
