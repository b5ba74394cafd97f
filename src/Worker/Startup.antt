-- ===== src/Worker/Startup.antt =====
-- main, _bt_main and _setup_server_socket: the socket that a tray connects to, the Bluetooth loop,
-- and how the worker exits.
pub mod Exits
mod Tests
use toothkey.Base.{
  ℕ, ◌+◌, Bool, true, false, not, ◌&&◌, ◌||◌, Option, none, some, List, [], ◌∷◌, ◌++◌, is_empty,
  is_some, if◌then◌else◌, Text, contains, strip, split_once,
}

-- how giving the file to its owner ends: a text that is no number or a refusal are caught, any
-- other `OSError` is not
pub data Chown : Type 0 where
  given : Chown
  refused : Chown
  other_error : Chown

-- SUDO_UID, SUDO_GID and TOOTHKEY_SOCKET_OWNER, where they are set
pub record Environ : Type 0 where
  pub sudo_uid : Option Text
  pub sudo_gid : Option Text
  pub socket_owner : Option Text

-- the file of the socket: its mode, as the last three octal digits, and whether it is the owner's
pub record SocketFile : Type 0 where
  pub mode : ℕ
  pub given_away : Bool

-- `x or None`, and the truth of an optional text
abbrev pub or_none : Text → Option Text
or_none [] = none
or_none (c ∷ s) = some (c ∷ s)

abbrev pub is_truthy : Option Text → Bool
is_truthy none = false
is_truthy (some s) = not (is_empty s)

abbrev pub text_or : Option Text → Text
text_or none = []
text_or (some s) = s

-- what follows the first colon, if there is one
abbrev pub split_owner : Text → Option (Option Text × Option Text)
split_owner owner =
    let (uid, rest) = split_once 58 owner in
    elim rest [ none ↦ none | some gid ↦ some (or_none (strip uid), or_none (strip gid)) ]

-- the two texts that the file is given to
unfoldable pub owner_of : Environ → Option Text × Option Text
owner_of env =
    if is_truthy env.sudo_uid && is_truthy env.sudo_gid
    then (env.sudo_uid, env.sudo_gid)
    else elim (split_owner (text_or env.socket_owner)) [
      | none ↦ (env.sudo_uid, env.sudo_gid)
      | some named ↦ named
    ]

unfoldable pub has_owner : Environ → Bool
unfolding owner_of
has_owner env = is_truthy ((owner_of env).0) && is_truthy ((owner_of env).1)

-- the file once the socket is bound, by how the chown ends if there is an owner
unfoldable pub socket_file : Chown → Bool → Option SocketFile
socket_file chown false = some (record { mode = 600; given_away = false })
socket_file given true = some (record { mode = 600; given_away = true })
socket_file refused true = some (record { mode = 666; given_away = false })
socket_file other_error true = none

-- `_setup_server_socket`: whether unlink, bind, listen and the first chmod go well, and how the
-- chown ends; `none` if it raises
unfoldable pub setup_server_socket : Bool → Chown → Environ → Option SocketFile
unfolding has_owner socket_file
setup_server_socket binds chown env = if not binds then none else socket_file chown (has_owner env)

-- one turn of the loop of `_bt_main`: `active` as it is tested, and what wait_for_client and the
-- session do: no client with `_running` after it, a session that ends, or an exception
pub data Turn : Type 0 where
  inactive : Turn
  no_client : Bool → Turn
  session : Turn
  raised : Turn

-- what the loop has done: the sessions, whether it has ended, and whether by an exception
pub record Ran : Type 0 where
  pub sessions : ℕ
  pub ended : Bool
  pub crashed : Bool

unfoldable pub bt_loop : List Turn → ℕ → Ran
bt_loop [] n = record { sessions = n; ended = false; crashed = false }
bt_loop (inactive ∷ turns) n = record { sessions = n; ended = true; crashed = false }
bt_loop (no_client true ∷ turns) n = bt_loop turns n
bt_loop (no_client false ∷ turns) n = record { sessions = n; ended = true; crashed = false }
bt_loop (session ∷ turns) n = bt_loop turns (n + 1)
bt_loop (raised ∷ turns) n = record { sessions = n; ended = true; crashed = true }

-- what the end of `_bt_main` leaves: `stop` has been called, and the shutdown event is set
pub record LoopEnd : Type 0 where
  pub stopped : Bool
  pub shut_down : Bool
  pub ran : Ran

-- `_bt_main`, with whether initialize returns; `none` while it is in its loop
unfoldable pub bt_main : Bool → List Turn → Option LoopEnd
unfolding bt_loop
bt_main initialized turns =
    let ran =
      if initialized
      then bt_loop turns 0
      else record { sessions = 0; ended = true; crashed = true } in
    if ran.ended then some (record { stopped = true; shut_down = true; ran = ran }) else none

-- how the accept of the first tray ends; it may also wait on
pub data Accepting : Type 0 where
  accepted : Accepting
  nobody : Accepting
  still_waiting : Accepting

-- what `main` leaves: its exit code, and whether the socket is closed and its file gone
pub record Exit : Type 0 where
  pub code : ℕ
  pub closed : Bool
  pub unlinked : Bool
  pub stopped : Bool

-- `main`, with whether it asked for a shutdown; `none` while it runs
unfoldable pub main : Option SocketFile → Accepting → Bool → List Turn → Bool → Option Exit
unfolding bt_main
main none accepting initialized turns asked =
    some (record { code = 2; closed = false; unlinked = false; stopped = false })
main (some file) nobody initialized turns asked =
    some (record { code = 3; closed = true; unlinked = true; stopped = false })
main (some file) still_waiting initialized turns asked = none
main (some file) accepted initialized turns asked = elim (bt_main initialized turns) [
  | none ↦ none
  | some end ↦ some (record {
    code = if asked then 42 else 0;
    closed = true;
    unlinked = true;
    stopped = end.stopped;
  })
]
