-- ===== src/Logs/Install/Tests.antt =====
-- Descriptor tables, and the theorem about the pipe at one.
use toothkey.Base.{ℕ, zero, suc, ◌+◌, ◌≡◌, refl, true, false, none, some, [], ◌∷◌}
use toothkey.Logs.Install.{Table, file, read_end, write_end, get_fd, install, excepthook}
use toothkey.Logs.Install.Drained.{Piped, is_write_end, install-Piped}

-- a terminal on all three, and a free number below an open one
abbrev rest : Table
rest = some (file 8) ∷ none ∷ some (file 9) ∷ []

abbrev table : Table
table = some (file 5) ∷ some (file 6) ∷ some (file 7) ∷ rest

installed :
    (install table).table
    ≡ some (file 5)
      ∷ some write_end
      ∷ some write_end
      ∷ some (file 8)
      ∷ some (file 6)
      ∷ some (file 9)
      ∷ some (file 7)
      ∷ some read_end
      ∷ none
      ∷ []
unfolding install
installed = refl

new : (m : ℕ) → is_write_end (get_fd table m) ≡ false
new zero = refl
new (suc zero) = refl
new (suc (suc zero)) = refl
new (suc (suc (suc zero))) = refl
new (suc (suc (suc (suc zero)))) = refl
new (suc (suc (suc (suc (suc zero))))) = refl
new (suc (suc (suc (suc (suc (suc m)))))) = refl

install-Piped_example : Piped table (install table)
install-Piped_example = install-Piped (file 5) (file 6) (file 7) rest new

-- Started with both outputs closed: the read end of the pipe gets number 1 and is overwritten by the
-- write end, and 2 is closed again.
closed_outputs :
    ((install (some (file 5) ∷ [])).pipe_r ≡ 1)
    × ((install (some (file 5) ∷ [])).table ≡ some (file 5) ∷ some write_end ∷ none ∷ [])
unfolding install
closed_outputs = (refl, refl)

-- Started with only the output closed: the copy of the error output gets number 1 and is overwritten.
closed_output :
    ((install (some (file 5) ∷ none ∷ some (file 7) ∷ [])).orig_stderr ≡ some 1)
    × (get_fd (install (some (file 5) ∷ none ∷ some (file 7) ∷ [])).table 1 ≡ some write_end)
unfolding install
closed_output = (refl, refl)

-- The log takes two lines and then fails; the terminal has everything.
last_words : excepthook (λ n. n + 100) 1 (2 ∷ 3 ∷ []) 2 true ≡ (101 ∷ 102 ∷ [], 101 ∷ 2 ∷ 3 ∷ [])
unfolding excepthook
last_words = refl
