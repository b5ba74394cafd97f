-- ===== src/Worker/Send/Tests.antt =====
-- A line that a tray's going comes between.
use toothkey.Base.{◌≡◌, refl, false, none, some}
use toothkey.Worker.Send.{Ipc, serve_begins, serve_ends, raised, write_line}

abbrev fresh : Ipc
fresh = record { out_fh = none; is_open = λ n. false; is_read = λ n. false }

-- The poller has read the stream 1, whose tray then goes: the write raises.
late_line : (write_line (some 1) (serve_ends 1 (serve_begins 1 fresh))).1 ≡ raised
unfolding write_line serve_begins serve_ends
late_line = refl
