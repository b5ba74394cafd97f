-- ===== src/Tray/Restart.antt =====
-- tray.py: what Restart starts, `_spawn_restart` and its two ways, `_find_gui_askpass` and
-- `_is_installed_mode`.
pub mod Spawned
mod Tests
use toothkey.Base.{
  ℕ, Bool, true, false, not, Option, none, some, List, [], ◌∷◌, ◌++◌, if◌then◌else◌, is_some, Text,
  text, same_text, is_empty,
}

-- `_ASKPASS_CANDIDATES`
abbrev pub askpass_candidates : List Text
askpass_candidates =
    text "/usr/bin/ksshaskpass"
    ∷ text "/usr/bin/ssh-askpass"
    ∷ text "/usr/libexec/openssh/gnome-ssh-askpass"
    ∷ text "/usr/lib/openssh/gnome-ssh-askpass"
    ∷ text "/usr/lib/ssh/ssh-askpass"
    ∷ text "/usr/bin/lxqt-openssh-askpass"
    ∷ text "/usr/bin/x11-ssh-askpass"
    ∷ []

-- the names that are looked up in PATH after them
abbrev pub askpass_names : List Text
askpass_names =
    text "ksshaskpass"
    ∷ text "ssh-askpass"
    ∷ text "gnome-ssh-askpass"
    ∷ text "lxqt-openssh-askpass"
    ∷ []

-- the first path that `os.access` finds executable; `none` is that it raises
abbrev pub first_executable : (Text → Option Bool) → List Text → Option Text
first_executable access [] = none
first_executable access (path ∷ paths) =
    let rest = first_executable access paths in
    elim (access path) [ none ↦ rest | some yes_ ↦ if yes_ then some path else rest ]

-- the first name that `shutil.which` finds
abbrev pub first_found : (Text → Option Text) → List Text → Option Text
first_found which [] = none
first_found which (name ∷ names) =
    let rest = first_found which names in elim (which name) [ none ↦ rest | some path ↦ some path ]

-- `_find_gui_askpass`, where `none` stands for the empty path
unfoldable pub find_gui_askpass : (Text → Option Bool) → (Text → Option Text) → Option Text
find_gui_askpass access which = elim (first_executable access askpass_candidates) [
  | none ↦ first_found which askpass_names
  | some path ↦ some path
]

-- an environment
abbrev pub Env : Type 0
Env = Text → Option Text

abbrev pub set_var : Text → Text → Env → Env
set_var name value env m = if same_text m name then some value else env m

abbrev pub equals : Option Text → Text → Bool
equals none t = false
equals (some s) t = same_text s t

-- `_is_installed_mode`
unfoldable pub is_installed_mode : Env → Bool
is_installed_mode env = equals (env (text "TOOTHKEY_INSTALLED")) (text "1")

-- What a restart meets: the tray's environment, whether start.sh is there, the look for an askpass
-- program, and whether a program can be spawned.
pub record Desktop : Type 0 where
  pub environ : Env
  pub start_sh : Text
  pub has_start_sh : Bool
  pub access : Text → Option Bool
  pub which : Text → Option Text
  pub spawns : Bool

-- What `_spawn_restart` comes to: systemd was asked to restart the worker, start.sh was spawned by a
-- shell with this command and environment, or the user was told that it is missing or cannot be
-- spawned.
pub data Restarted : Type 0 where
  asked_systemd missing_start_sh spawn_failed : Restarted
  spawned : Text → Env → Restarted

-- the environment of start.sh
abbrev pub with_askpass : Option Text → Env → Env
with_askpass none env = env
with_askpass (some path) env = set_var (text "SUDO_ASKPASS") path env

unfoldable pub restart_env : Desktop → Env
restart_env d =
    with_askpass (find_gui_askpass d.access d.which)
      (set_var (text "TOOTHKEY_GUI_SUDO") (text "1") d.environ)

-- `_spawn_restart_start_sh`
unfoldable pub spawn_restart_start_sh : Desktop → Restarted
spawn_restart_start_sh d =
    if not d.has_start_sh
    then missing_start_sh
    else if d.spawns
    then spawned (text "sleep 1 && exec " ++ d.start_sh) (restart_env d)
    else spawn_failed

-- how the call of systemctl ends; `_spawn_restart_installed` goes on whichever it is
pub data Asked : Type 0 where
  done timed_out raised : Asked

unfoldable pub spawn_restart_installed : Asked → Restarted
spawn_restart_installed asked = asked_systemd

-- `_spawn_restart`
unfoldable pub spawn_restart : Asked → Desktop → Restarted
spawn_restart asked d =
    if is_installed_mode d.environ then spawn_restart_installed asked else spawn_restart_start_sh d
