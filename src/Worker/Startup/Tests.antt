-- ===== src/Worker/Startup/Tests.antt =====
-- Tests of the worker's start and exit.
use toothkey.Base.{◌≡◌, refl, true, false, none, some, [], ◌∷◌, text}
use toothkey.Worker.Startup.{
  Environ, SocketFile, refused, setup_server_socket, accepted, nobody, main, session, raised,
  owner_of,
}

-- as install.sh writes it
abbrev installed : Environ
installed = record { sudo_uid = none; sudo_gid = none; socket_owner = some (text "1000:1000") }

installed_owner : owner_of installed ≡ (some (text "1000"), some (text "1000"))
unfolding owner_of
installed_owner = refl

abbrev shared : SocketFile
shared = record { mode = 666; given_away = false }

shared_is_set_up : setup_server_socket true refused installed ≡ some shared
unfolding setup_server_socket
shared_is_set_up = refl

crash_exits :
    main (some shared) accepted true (session ∷ raised ∷ []) false
    ≡ some (record { code = 0; closed = true; unlinked = true; stopped = true })
unfolding main
crash_exits = refl

nobody_comes :
    main (some shared) nobody true [] false
    ≡ some (record { code = 3; closed = true; unlinked = true; stopped = false })
unfolding main
nobody_comes = refl
