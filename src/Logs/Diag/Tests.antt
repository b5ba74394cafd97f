-- ===== src/Logs/Diag/Tests.antt =====
-- A diagnostic log near its cap, and the theorem about its size at it.
use toothkey.Base.{ℕ, ◌≡◌, refl, ◌==◌, true, none, some, List, [], ◌∷◌, arith, if◌then◌else◌}
use toothkey.Logs.Rotate.{Dir, rotate_if_large, rotate_files, roll_all, roll, call, clear}
use toothkey.Logs.Diag.{Call, start_diag, diag_rotate, diag, count, check_size, reopen}
use toothkey.Logs.Diag.Bounded.{IsBounded, diags, diags-IsBounded}

-- a log that is ten bytes below the cap, and an old one
abbrev near : Dir ℕ
near n = if n == 0 then some 16777206 else if n == 1 then some 5 else none

abbrev line : ℕ → Call
line len = record { len = len; writes = true; good = 9; reopens = true }

abbrev lines : List Call
lines = line 1048000 ∷ line 600 ∷ line 7 ∷ []

-- the second line takes the count over a megabyte, and the third is the first of a new file
rolled :
    ((diags lines (start_diag 9 true near)).dir 0 ≡ some 7)
    × ((diags lines (start_diag 9 true near)).dir 1 ≡ some 17825806)
    × ((diags lines (start_diag 9 true near)).dir 2 ≡ some 5)
unfolding diags start_diag diag_rotate diag count check_size reopen rotate_if_large rotate_files
    roll_all roll call clear
rolled = (refl, refl, refl)

diags-IsBounded_example : IsBounded 1048000 (diags lines (start_diag 9 true near))
diags-IsBounded_example =
    diags-IsBounded 1048000 9 true near lines (omega arith) (omega arith) (omega arith)
      (omega arith)
      ((omega arith, omega arith), ((omega arith, omega arith), ((omega arith, omega arith), tt)))
