-- ===== src/Logs/Diag/Bounded.antt =====
-- The size of the diagnostic logs.
use toothkey.Base.{
  ℕ, ◌+◌, ◌≤◌, ◌<◌, ◌≡◌, refl, Bool, true, false, none, some, List, [], ◌∷◌, arith, All, leb, ltb,
  Bool-cases, Option-cases, inl, inr,
}
use toothkey.Logs.Rotate.{Dir, rotate_if_large}
use toothkey.Logs.Rotate.Newest.{rotated, rotate_if_large-Keeps}
use toothkey.Logs.Rotate.Files.{rotate_if_large-files}
use toothkey.Logs.Diag.{
  diag_max_bytes, check_every_bytes, diag_rotate, File, no_file, opened, closed, Log, size_of,
  append, first_file, start_diag, Call, reopen, check_size, count, write_to, diag,
}

-- A rotation whose calls succeed: nothing changes below the cap, and else every file moves up.
data Rotates (d : Dir ℕ) : Dir ℕ × Bool → Type 0 where
  small : size_of (d 0) < diag_max_bytes → Rotates d (d, false)
  large : (d' : Dir ℕ) → ((k : ℕ) → d' k ≡ rotated ℕ 1 d k) → Rotates d (d', true)

rotated-Rotates :
    (d : Dir ℕ) (o : Dir ℕ × Bool) → o.1 ≡ true → ((k : ℕ) → o.0 k ≡ rotated ℕ 1 d k) → Rotates d o
rotated-Rotates d (d', true) e moved = large d' moved
rotated-Rotates d (d', false) e moved = cc

diag_rotate-small :
    (good : ℕ) (d : Dir ℕ) → size_of (d 0) < diag_max_bytes → diag_rotate good d ≡ (d, false)
unfolding diag_rotate rotate_if_large
diag_rotate-small good d h = elim (Option-cases (d 0)) [
  | inl e ↦ rw (e, rotate_if_large) refl
  | inr (n, e) ↦
      let lt : ltb n diag_max_bytes ≡ true = ground arith in rw (e, rotate_if_large, lt) refl
]

diag_rotate-large :
    (good n : ℕ) (d : Dir ℕ)
    → 3 ≤ good
    → d 0 ≡ some n
    → diag_max_bytes ≤ n
    → Rotates d (diag_rotate good d)
unfolding diag_rotate
diag_rotate-large good n d enough e le =
    let (rolls, listed) =
      rotate_if_large-files ℕ (λ size. size) diag_max_bytes 1 good d n e le enough in
    let (next, moves, stays) = rotate_if_large-Keeps ℕ (λ size. size) diag_max_bytes 1 good d in
    rotated-Rotates d _ rolls (moves rolls)

diag_rotate-Rotates : (good : ℕ) (d : Dir ℕ) → 3 ≤ good → Rotates d (diag_rotate good d)
diag_rotate-Rotates good d enough = elim (Bool-cases (ltb (size_of (d 0)) diag_max_bytes)) [
  | inl h ↦
      let lt : size_of (d 0) < diag_max_bytes = ground arith in
      rw (diag_rotate-small good d lt) (small lt)
  | inr h ↦ elim (Option-cases (d 0)) [
    | inl e ↦ absurd (ground arith)
    | inr (n, e) ↦ diag_rotate-large good n d enough e (ground arith)
  ]
]

-- The current file is below the cap but for what was written since the last check, and the two old
-- files are below the cap but for that and a last line.
pub record IsBounded (longest : ℕ) (log : Log) : Type 0 where
  pub written : log.written < check_every_bytes
  pub current : size_of (log.dir 0) ≤ diag_max_bytes + log.written
  pub first : size_of (log.dir 1) ≤ diag_max_bytes + check_every_bytes + longest
  pub second : size_of (log.dir 2) ≤ diag_max_bytes + check_every_bytes + longest

reopen-IsBounded :
    (longest : ℕ) (rolls reopens : Bool) (d : Dir ℕ)
    → size_of (d 0) ≤ diag_max_bytes
    → (rolls ≡ true → d 0 ≡ none)
    → size_of (d 1) ≤ diag_max_bytes + check_every_bytes + longest
    → size_of (d 2) ≤ diag_max_bytes + check_every_bytes + longest
    → IsBounded longest (reopen rolls reopens d)
unfolding reopen
reopen-IsBounded longest false reopens d h free h1 h2 = record {
  written = omega arith;
  current = h;
  first = h1;
  second = h2;
}
reopen-IsBounded longest true true d h free h1 h2 = record {
  written = omega arith;
  current = ground (arith, free refl);
  first = h1;
  second = h2;
}
reopen-IsBounded longest true false d h free h1 h2 = record {
  written = omega arith;
  current = h;
  first = h1;
  second = h2;
}

rotated-IsBounded :
    (longest : ℕ) (d : Dir ℕ) (reopens : Bool) (o : Dir ℕ × Bool)
    → Rotates d o
    → size_of (d 0) ≤ diag_max_bytes + check_every_bytes + longest
    → size_of (d 1) ≤ diag_max_bytes + check_every_bytes + longest
    → size_of (d 2) ≤ diag_max_bytes + check_every_bytes + longest
    → IsBounded longest (reopen o.1 reopens o.0)
rotated-IsBounded longest d reopens o (small lt) h h1 h2 =
    reopen-IsBounded longest false reopens d (omega arith) (λ e. cc) h1 h2
rotated-IsBounded longest d reopens o (large d' moved) h h1 h2 =
    reopen-IsBounded longest true reopens d' (ground (arith, moved 0)) (λ e. moved 0)
      (ground (arith, moved 1)) (ground (arith, moved 2))

check_size-IsBounded :
    (longest : ℕ) (c : Call) (d : Dir ℕ)
    → 3 ≤ c.good
    → size_of (d 0) ≤ diag_max_bytes + check_every_bytes + longest
    → size_of (d 1) ≤ diag_max_bytes + check_every_bytes + longest
    → size_of (d 2) ≤ diag_max_bytes + check_every_bytes + longest
    → IsBounded longest (check_size c d)
unfolding check_size
check_size-IsBounded longest c d enough h h1 h2 =
    rotated-IsBounded longest d c.reopens _ (diag_rotate-Rotates c.good d enough) h h1 h2

count-IsBounded :
    (longest : ℕ) (c : Call) (log : Log)
    → 3 ≤ c.good
    → c.len ≤ longest
    → IsBounded longest log
    → IsBounded longest (count c log)
unfolding count
count-IsBounded longest c log enough short b =
    elim (Bool-cases (leb check_every_bytes (log.written + c.len))) [
      | inl due ↦ simp due (
          check_size-IsBounded longest c (append c.len log.dir) enough
            (let w = b.written in let h = b.current in omega arith) b.first b.second)
      | inr early ↦ simp early record {
        written = ground arith;
        current = (let h = b.current in omega arith);
        first = b.first;
        second = b.second;
      }
    ]

write_to-IsBounded :
    (longest : ℕ) (f : File) (c : Call) (log : Log)
    → 3 ≤ c.good
    → c.len ≤ longest
    → IsBounded longest log
    → IsBounded longest (write_to f c log)
write_to-IsBounded longest no_file c log enough short b = b
write_to-IsBounded longest closed c log enough short b = b
write_to-IsBounded longest opened c log enough short b = elim (Bool-cases c.writes) [
  | inl ok ↦ simp ok (count-IsBounded longest c log enough short b)
  | inr fails ↦ simp fails b
]

-- the log after so many calls
unfoldable pub diags : List Call → Log → Log
diags [] log = log
diags (c ∷ calls) log = diags calls (diag c log)

-- a call whose line is at most so long, and whose rotation, if there is one, succeeds
abbrev pub IsFine : ℕ → Call → Type 0
IsFine longest c = (3 ≤ c.good) × (c.len ≤ longest)

diags-kept :
    (longest : ℕ) (calls : List Call) (log : Log)
    → All (IsFine longest) calls
    → IsBounded longest log
    → IsBounded longest (diags calls log)
unfolding diags diag
diags-kept longest [] log fine b = b
diags-kept longest (c ∷ calls) log ((enough, short), fine) b =
    diags-kept longest calls (diag c log) fine
      (write_to-IsBounded longest log.file c log enough short b)

first_file-IsBounded :
    (longest : ℕ) (opens : Bool) (d : Dir ℕ)
    → size_of (d 0) ≤ diag_max_bytes
    → size_of (d 1) ≤ diag_max_bytes + check_every_bytes + longest
    → size_of (d 2) ≤ diag_max_bytes + check_every_bytes + longest
    → IsBounded longest (first_file opens d)
first_file-IsBounded longest true d h h1 h2 = record {
  written = omega arith;
  current = omega arith;
  first = h1;
  second = h2;
}
first_file-IsBounded longest false d h h1 h2 = record {
  written = omega arith;
  current = h;
  first = h1;
  second = h2;
}

rotated_first-IsBounded :
    (longest : ℕ) (d : Dir ℕ) (opens : Bool) (o : Dir ℕ × Bool)
    → Rotates d o
    → size_of (d 0) ≤ diag_max_bytes + check_every_bytes + longest
    → size_of (d 1) ≤ diag_max_bytes + check_every_bytes + longest
    → size_of (d 2) ≤ diag_max_bytes + check_every_bytes + longest
    → IsBounded longest (first_file opens o.0)
rotated_first-IsBounded longest d opens o (small lt) h h1 h2 =
    first_file-IsBounded longest opens d (omega arith) h1 h2
rotated_first-IsBounded longest d opens o (large d' moved) h h1 h2 =
    first_file-IsBounded longest opens d' (ground (arith, moved 0)) (ground (arith, moved 1))
      (ground (arith, moved 2))

start_diag-IsBounded :
    (longest good : ℕ) (opens : Bool) (d : Dir ℕ)
    → 3 ≤ good
    → size_of (d 0) ≤ diag_max_bytes + check_every_bytes + longest
    → size_of (d 1) ≤ diag_max_bytes + check_every_bytes + longest
    → size_of (d 2) ≤ diag_max_bytes + check_every_bytes + longest
    → IsBounded longest (start_diag good opens d)
unfolding start_diag
start_diag-IsBounded longest good opens d enough h h1 h2 =
    rotated_first-IsBounded longest d opens _ (diag_rotate-Rotates good d enough) h h1 h2

-- If the diagnostic log and its two old files are within the cap, a megabyte and one line each, they
-- still are after the program starts and logs any lines that are at most so long, where the rotations
-- succeed; the log itself is then below the cap and a megabyte.
pub diags-IsBounded :
    (longest good : ℕ) (opens : Bool) (d : Dir ℕ) (calls : List Call)
    → 3 ≤ good
    → size_of (d 0) ≤ diag_max_bytes + check_every_bytes + longest
    → size_of (d 1) ≤ diag_max_bytes + check_every_bytes + longest
    → size_of (d 2) ≤ diag_max_bytes + check_every_bytes + longest
    → All (IsFine longest) calls
    → IsBounded longest (diags calls (start_diag good opens d))
diags-IsBounded longest good opens d calls enough h h1 h2 fine =
    diags-kept longest calls _ fine (start_diag-IsBounded longest good opens d enough h h1 h2)
