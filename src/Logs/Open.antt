-- ===== src/Logs/Open.antt =====
-- logging_setup.py: `_open_log` and `_share_with_log_dir_owner`, which let the worker, as root, and the
-- tray, as the desktop user, append to one log.
pub mod Shared
mod Tests
use toothkey.Base.{
  ℕ, ◌+◌, Bool, true, false, not, ◌&&◌, ◌||◌, Option, none, some, if◌then◌else◌, is_some, ◌==◌,
}
use toothkey.Logs.Rotate.{Dir, at, rotate_if_large}

-- a log file: its length, its owner, and whether its mode lets its group write
pub record LogFile : Type 0 where
  pub size : ℕ
  pub owner : ℕ
  pub group_writes : Bool

-- What opening the log meets: the user, the log directory's owner (`none` if its stat raises), whether
-- the calls succeed that make the directory, rotate, open, chown and chmod, and whether the process's
-- umask leaves a new file writable for its group.
pub record Place : Type 0 where
  pub euid : ℕ
  pub dir_owner : Option ℕ
  pub makes_dir : Bool
  pub good : ℕ
  pub opens : Bool
  pub chowns : Bool
  pub chmods : Bool
  pub umask_group : Bool

-- `chown`, then `chmod` unless that raised
abbrev pub give_to : Place → ℕ → LogFile → LogFile
give_to p owner f =
    if p.chowns then record f { owner = owner; group_writes = p.chmods || f.group_writes } else f

-- `_share_with_log_dir_owner`
unfoldable pub share_with_log_dir_owner : Place → LogFile → LogFile
share_with_log_dir_owner p f =
    if not (p.euid == 0) then f else elim p.dir_owner [ none ↦ f | some owner ↦ give_to p owner f ]

-- the file that `open` makes where there is none
abbrev pub new_file : Place → LogFile
new_file p = record { size = 0; owner = p.euid; group_writes = p.umask_group }

abbrev pub or_new : Place → Option LogFile → LogFile
or_new p none = new_file p
or_new p (some f) = f

-- the opening, by whether the file is to be shared
abbrev pub opened : Bool → Place → Dir LogFile → Dir LogFile
opened shares p d =
    let f = or_new p (d 0) in
    at LogFile d 0 (some (if shares then share_with_log_dir_owner p f else f))

-- `MAX_LOG_BYTES` and `LOG_KEEP`
abbrev pub max_log_bytes : ℕ
max_log_bytes = 16777216

abbrev pub log_keep : ℕ
log_keep = 3

-- `_open_log`; `none` if it raises
unfoldable pub open_log : Place → Dir LogFile → Option (Dir LogFile)
open_log p d =
    let existed = is_some (d 0) in
    let (d', rotated) = rotate_if_large LogFile (λ f. f.size) max_log_bytes log_keep p.good d in
    if not (p.makes_dir && p.opens) then none else some (opened (rotated || not existed) p d')
