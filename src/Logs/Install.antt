-- ===== src/Logs/Install.antt =====
-- logging_setup.py, `install`, with what it makes of the process's descriptors, `_drain_on_exit` and
-- `_excepthook`. The table lists what each descriptor stands for, and the kernel gives out the lowest
-- that is free.
pub mod Drained
mod Tests
use toothkey.Base.{
  ℕ, zero, suc, Bool, true, false, Option, none, some, List, [], ◌∷◌, ◌++◌, take, map,
  if◌then◌else◌,
}

-- the two ends of the pipe of `install`, or any other file
pub data Target : Type 0 where
  read_end write_end : Target
  file : ℕ → Target

abbrev pub Table : Type 0
Table = List (Option Target)

abbrev pub get_fd : Table → ℕ → Option Target
get_fd [] n = none
get_fd (x ∷ t) zero = x
get_fd (x ∷ t) (suc n) = get_fd t n

abbrev pub set_fd : Table → ℕ → Option Target → Table
set_fd [] zero y = y ∷ []
set_fd [] (suc n) y = none ∷ set_fd [] n y
set_fd (x ∷ t) zero y = y ∷ t
set_fd (x ∷ t) (suc n) y = x ∷ set_fd t n y

-- the lowest descriptor that is free
abbrev pub lowest_free : Table → ℕ
lowest_free [] = 0
lowest_free (none ∷ t) = 0
lowest_free (some x ∷ t) = suc (lowest_free t)

-- the lowest given out for this, and the table with it
abbrev pub alloc : Table → Target → ℕ × Table
alloc t y = (lowest_free t, set_fd t (lowest_free t) (some y))

-- `os.dup` of a descriptor that stands for this; none if it raises
abbrev pub dup : Option Target → Table → Option ℕ × Table
dup none t = (none, t)
dup (some x) t = let (n, t') = alloc t x in (some n, t')

-- the process after `install`, with the numbers that `install` keeps
pub record Installed : Type 0 where
  pub table : Table
  pub orig_stdout : Option ℕ
  pub orig_stderr : Option ℕ
  pub pipe_r : ℕ
  pub pipe_w : ℕ

-- `os.pipe`, then `os.dup2` to 1 and 2, then the close of the end that was copied
abbrev pub pipe_through : Option ℕ → Option ℕ → Table → Installed
pipe_through out err t =
    let (r, t1) = alloc t read_end in
    let (w, t2) = alloc t1 write_end in
    record {
      table =
          let copied = get_fd t2 w in
          let t3 = set_fd t2 1 copied in set_fd (set_fd t3 2 (get_fd t3 w)) w none;
      orig_stdout = out;
      orig_stderr = err;
      pipe_r = r;
      pipe_w = w;
    }

-- `install`
unfoldable pub install : Table → Installed
install t =
    let (out, t1) = dup (get_fd t 1) t in
    let (err, t2) = dup (get_fd t1 2) t1 in pipe_through out err t2

-- `_drain_on_exit`, as far as the descriptors go
unfoldable pub drain_on_exit : Table → Table
drain_on_exit t = set_fd (set_fd t 1 none) 2 none

-- `_excepthook`: the lines in the log, where so many writes succeed, and those on the terminal, by
-- whether there is one. `stamp` puts the time before a line.
unfoldable pub excepthook {ℓ} : {A : Type ℓ} → (A → A) → A → List A → ℕ → Bool → List A × List A
excepthook stamp header text good terminal =
    (take good (stamp header ∷ map stamp text), if terminal then stamp header ∷ text else [])
