-- ===== src/Tray/Link/Tests.antt =====
-- Runs of the link to the worker.
use toothkey.Base.{ℕ, ◌≡◌, refl, true, none, some, [], ◌∷◌, text}
use toothkey.Tray.Link.{
  Link, state, not_object, state_changed, worker_gone, reader_loop, start, refused, connected,
  client_hello,
}

abbrev unlinked : Link
unlinked = record { conn = none; wfh = none; worker_pid = none; readers = []; written = [] }

dials_again :
    start
      (refused ∷ connected 3 ∷ [])
      ((text "DISPLAY", some (text ":0")) ∷ (text "XAUTHORITY", none) ∷ [])
      true
      unlinked
    ≡ (
      record {
        conn = some 3;
        wfh = some 3;
        worker_pid = none;
        readers = 3 ∷ [];
        written = (3, client_hello ((text "DISPLAY", text ":0") ∷ [])) ∷ [];
      },
      true,
    )
unfolding start
dials_again = refl

-- JSON that is no object ends the reader, although the worker is there
list_ends_reader :
    reader_loop {A = ℕ} (state 1 ∷ not_object ∷ state 2 ∷ []) ≡ state_changed 1 ∷ worker_gone ∷ []
unfolding reader_loop
list_ends_reader = refl
