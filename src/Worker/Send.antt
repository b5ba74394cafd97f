-- ===== src/Worker/Send.antt =====
-- worker.py: `_send`, in the two parts that another thread may come between, and what `_serve_tray`
-- does to the stream that it writes. Streams are numbers.
pub mod Run
mod Tests
use toothkey.Base.{
  ℕ, Bool, true, false, not, Option, none, some, List, [], ◌∷◌, if◌then◌else◌, ◌==◌,
}

-- `_out_fh`, which streams are open, and behind which a tray still reads
pub record Ipc : Type 0 where
  pub out_fh : Option ℕ
  pub is_open : ℕ → Bool
  pub is_read : ℕ → Bool

abbrev pub put : (ℕ → Bool) → ℕ → Bool → ℕ → Bool
put f n b m = if m == n then b else f m

-- `_serve_tray` up to its command reader, with a stream that is new, and its `finally`
unfoldable pub serve_begins : ℕ → Ipc → Ipc
serve_begins fh s = record {
  out_fh = some fh;
  is_open = put s.is_open fh true;
  is_read = put s.is_read fh true;
}

unfoldable pub serve_ends : ℕ → Ipc → Ipc
serve_ends fh s = record s { out_fh = none; is_open = put s.is_open fh false }

-- what becomes of a line: no stream, sent, the stream given up, or a ValueError since it was closed
pub data Sent : Type 0 where
  no_stream given_up raised : Sent
  sent : ℕ → Sent

-- `_send` from the write on, with the stream that it has read from `_out_fh`
unfoldable pub write_line : Option ℕ → Ipc → Ipc × Sent
write_line none s = (s, no_stream)
write_line (some fh) s =
    if not (s.is_open fh)
    then (s, raised)
    else if s.is_read fh
    then (s, sent fh)
    else (record s { out_fh = none }, given_up)

-- `_send` with nothing in between
unfoldable pub send : Ipc → Ipc × Sent
send s = write_line s.out_fh s

-- what happens: a tray is served, its serving ends, a tray goes away, or a line is sent
pub data Happening : Type 0 where
  begins ends leaves : ℕ → Happening
  sends : Happening

unfoldable pub happen : Happening → Ipc → Ipc
happen (begins fh) s = serve_begins fh s
happen (ends fh) s = serve_ends fh s
happen (leaves fh) s = record s { is_read = put s.is_read fh false }
happen sends s = (send s).0
