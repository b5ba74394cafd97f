-- ===== src/Logs/Open/Tests.antt =====
-- Openings of the log, and the theorem about its owner at one.
use toothkey.Base.{◌≡◌, refl, ◌==◌, inr, true, false, Option, none, some, if◌then◌else◌, is_some}
use toothkey.Logs.Rotate.{Dir, rotate_if_large}
use toothkey.Logs.Open.{LogFile, Place, open_log, share_with_log_dir_owner}
use toothkey.Logs.Open.Shared.{IsOwned, open_log-IsOwned}

-- root, with a directory of the user 1000
abbrev root : Place
root = record {
  euid = 0;
  dir_owner = some 1000;
  makes_dir = true;
  good = 9;
  opens = true;
  chowns = true;
  chmods = true;
  umask_group = false;
}

abbrev no_log : Dir LogFile
no_log n = none

abbrev made : Option (Dir LogFile)
made = open_log root no_log

-- the worker makes the log, and the user has it
first_log :
    elim made [ none ↦ none | some d ↦ d 0 ]
    ≡ some (record { size = 0; owner = 1000; group_writes = true })
unfolding open_log rotate_if_large share_with_log_dir_owner
first_log = refl

-- A log that root owns already, and that is not rotated, stays root's.
abbrev roots : Dir LogFile
roots n = if n == 0 then some (record { size = 5; owner = 0; group_writes = false }) else none

stays_roots :
    elim (open_log root roots) [ none ↦ none | some d ↦ d 0 ]
    ≡ some (record { size = 5; owner = 0; group_writes = false })
unfolding open_log rotate_if_large
stays_roots = refl

open_log-IsOwned_example :
    (d' : Dir LogFile) × (open_log root no_log ≡ some d')
    × (is_some (d' 0) ≡ true)
    × IsOwned 1000 d'
open_log-IsOwned_example =
    open_log-IsOwned 1000 root no_log (inr (refl, refl, refl)) (λ f e. cc) refl
