-- ===== src/Logs/Rotate.antt =====
-- logging_setup.py, rotate_if_large; tray.py and worker.py have a copy of it. A file of the
-- directory is its content, under 0 for the path itself and n for the path with the suffix `.n`.
use toothkey.Base.{
  ℕ, zero, suc, ◌+◌, ◌-◌, Bool, true, false, not, Option, none, some, List, [], ◌∷◌, if◌then◌else◌,
  ltb, is_some, ◌==◌,
}
pub mod Kept
pub mod Newest
pub mod Files

module _ (A : Type 0) where
  abbrev pub Dir : Type 0
  Dir = ℕ → Option A

  abbrev pub at : Dir → ℕ → Option A → Dir
  at d n a m = if m == n then a else d m

  -- `os.replace`
  abbrev pub replace : Dir → ℕ → ℕ → Dir
  replace d from to = at (at d to (d from)) from none

  -- `os.unlink`
  abbrev pub unlink : Dir → ℕ → Dir
  unlink d n = at d n none

  -- What has become of the directory, and how many calls are still good; `none` once one raised.
  abbrev pub Outcome : Type 0
  Outcome = Dir × Option ℕ

  -- A call that changes the directory, with the number of calls that are still good.
  unfoldable pub call : Dir → Dir → Option ℕ → Outcome
  call before after none = (before, none)
  call before after (some zero) = (before, none)
  call before after (some (suc good)) = (after, some good)

  -- the body of the loop, for the file of this number
  unfoldable pub roll : ℕ → Outcome → Outcome
  unfolding call
  roll n (d, good) = if is_some (d n) then call d (replace d n (suc n)) good else (d, good)

  -- `for n in range(keep - 1, 0, -1)`
  unfoldable pub roll_all : ℕ → Outcome → Outcome
  unfolding roll
  roll_all zero o = o
  roll_all (suc n) o = roll_all n (roll (suc n) o)

  -- the oldest file removed
  unfoldable pub clear : ℕ → ℕ → Dir → Outcome
  unfolding call
  clear keep good d =
      if is_some (d keep) then call d (unlink d keep) (some good) else (d, some good)

  -- the second `try` of `rotate_if_large`, with so many calls that are good
  unfoldable pub rotate_files : ℕ → ℕ → Dir → Outcome
  unfolding call roll_all clear
  rotate_files keep good d =
      let (rolled, left) = roll_all (keep - 1) (clear keep good d) in
      call rolled (replace rolled 0 1) left

  -- `rotate_if_large`, where `size` is the length of a file
  unfoldable pub rotate_if_large : (A → ℕ) → ℕ → ℕ → ℕ → Dir → Dir × Bool
  unfolding rotate_files
  rotate_if_large size max_bytes keep good d =
      let (d', left) = rotate_files keep good d in
      elim (d 0) [
        | none ↦ (d, false)
        | some a ↦ if ltb (size a) max_bytes then (d, false) else (d', is_some left)
      ]
