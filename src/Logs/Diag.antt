-- ===== src/Logs/Diag.antt =====
-- The diagnostic logs that tray.py and worker.py write beside the common log: `_diag_rotate`, the
-- opening of the file, and `_diag` of the tray, `_wdiag` of the worker. A file is its length in bytes.
pub mod Bounded
mod Tests
use toothkey.Base.{ℕ, ◌+◌, Bool, true, false, Option, none, some, if◌then◌else◌, leb}
use toothkey.Logs.Rotate.{Dir, at, rotate_if_large}

-- `_DIAG_MAX_BYTES`, `_DIAG_KEEP`, and how much is written between two checks
abbrev pub diag_max_bytes : ℕ
diag_max_bytes = 16777216

abbrev pub diag_keep : ℕ
diag_keep = 2

abbrev pub check_every_bytes : ℕ
check_every_bytes = 1048576

-- `_diag_rotate`, with so many calls that are good
unfoldable pub diag_rotate : ℕ → Dir ℕ → Dir ℕ × Bool
diag_rotate good d = rotate_if_large ℕ (λ size. size) diag_max_bytes diag_keep good d

-- the file object: none could be opened at the start, open, or closed and not opened again
pub data File : Type 0 where
  no_file opened closed : File

-- the directory, the count of bytes since the last check, and the file
pub record Log : Type 0 where
  pub dir : Dir ℕ
  pub written : ℕ
  pub file : File

abbrev pub size_of : Option ℕ → ℕ
size_of none = 0
size_of (some size) = size

-- so many bytes appended to the file of number 0, which is made if it is missing
abbrev pub append : ℕ → Dir ℕ → Dir ℕ
append len d = at ℕ d 0 (some (size_of (d 0) + len))

-- the opening, by whether it succeeds
abbrev pub first_file : Bool → Dir ℕ → Log
first_file true d = record { dir = append 0 d; written = 0; file = opened }
first_file false d = record { dir = d; written = 0; file = no_file }

-- the module's start: the rotation, then the opening
unfoldable pub start_diag : ℕ → Bool → Dir ℕ → Log
start_diag good opens d = let (rotated, rolls) = diag_rotate good d in first_file opens rotated

-- a call: the length of its line, whether the write succeeds, how many calls of a rotation are good,
-- and whether the file can be opened again
pub record Call : Type 0 where
  pub len : ℕ
  pub writes : Bool
  pub good : ℕ
  pub reopens : Bool

-- the file after a rotation that was done or not
unfoldable pub reopen : Bool → Bool → Dir ℕ → Log
reopen false reopens d = record { dir = d; written = 0; file = opened }
reopen true true d = record { dir = append 0 d; written = 0; file = opened }
reopen true false d = record { dir = d; written = 0; file = closed }

-- the check, once enough was written
unfoldable pub check_size : Call → Dir ℕ → Log
check_size c d = let (rotated, rolls) = diag_rotate c.good d in reopen rolls c.reopens rotated

-- a line that was written
unfoldable pub count : Call → Log → Log
count c log =
    let d = append c.len log.dir in
    if leb check_every_bytes (log.written + c.len)
    then check_size c d
    else record log { dir = d; written = log.written + c.len }

abbrev pub write_to : File → Call → Log → Log
write_to no_file c log = log
write_to closed c log = log
write_to opened c log = if c.writes then count c log else log

-- `_diag`
unfoldable pub diag : Call → Log → Log
diag c log = write_to log.file c log
