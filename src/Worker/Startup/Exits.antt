-- ===== src/Worker/Startup/Exits.antt =====
-- Who can reach the socket of the worker.
use toothkey.Base.{
  ◌≡◌, ◌⊎◌, inl, inr, refl, Bool, true, false, some, arith, Option-cases, if◌then◌else◌, List,
}
use toothkey.Worker.Startup.{
  Chown, given, refused, other_error, Environ, SocketFile, has_owner, setup_server_socket,
  socket_file, Accepting, accepted, nobody, still_waiting, Turn, Exit, main, bt_main, LoopEnd,
}

socket_file-mode :
    (chown : Chown) (named : Bool) (file : SocketFile)
    → socket_file chown named ≡ some file
    → ((file.mode ≡ 600) ⊎ ((file.mode ≡ 666) × ((named ≡ true) × (chown ≡ refused))))
      × ((file.given_away ≡ false) ⊎ (named ≡ true))
unfolding socket_file
socket_file-mode chown false file h = (inl (ground arith), inl (ground arith))
socket_file-mode given true file h = (inl (ground arith), inr refl)
socket_file-mode refused true file h = (inr (ground arith, (refl, refl)), inr refl)
socket_file-mode other_error true file h = cc

-- Whatever the environment and however the calls end: a socket that is set up is open to its
-- owner only, unless an owner is named and the file could not be given to that owner, when
-- everybody may connect; the file is given away only to an owner who is named.
pub setup_server_socket-mode :
    (binds : Bool) (chown : Chown) (env : Environ) (file : SocketFile)
    → setup_server_socket binds chown env ≡ some file
    → ((file.mode ≡ 600) ⊎ ((file.mode ≡ 666) × ((has_owner env ≡ true) × (chown ≡ refused))))
      × ((file.given_away ≡ false) ⊎ (has_owner env ≡ true))
unfolding setup_server_socket
setup_server_socket-mode true chown env file h = socket_file-mode chown (has_owner env) file h
setup_server_socket-mode false chown env file h = cc

bt_main-stopped :
    (initialized : Bool) (turns : List Turn) (end : LoopEnd)
    → bt_main initialized turns ≡ some end
    → end.stopped ≡ true
unfolding bt_main
bt_main-stopped initialized turns end h = ground arith

-- Main returns only after a socket that it bound is closed and its file gone; with a tray, also
-- only after the handler was stopped, and with 42 exactly if a tray asked for it.
pub main-exits :
    (file : SocketFile) (accepting : Accepting) (initialized : Bool) (turns : List Turn)
    (asked : Bool) (e : Exit)
    → main (some file) accepting initialized turns asked ≡ some e
    → (e.closed ≡ true)
      × ((e.unlinked ≡ true)
          × (((accepting ≡ nobody) × (e.code ≡ 3))
              ⊎ ((e.stopped ≡ true) × (e.code ≡ (if asked then 42 else 0)))))
unfolding main
main-exits file nobody initialized turns asked e h =
    (ground arith, (ground arith, inl (refl, ground arith)))
main-exits file still_waiting initialized turns asked e h = cc
main-exits file accepted initialized turns asked e h =
    elim (Option-cases (bt_main initialized turns)) [
      | inl running ↦ ground arith
      | inr (end, ended) ↦ (
        ground arith,
        (
          ground arith,
          inr (ground (arith, bt_main-stopped initialized turns end ended), ground arith),
        ),
      )
    ]
