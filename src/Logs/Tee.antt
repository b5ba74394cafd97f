-- ===== src/Logs/Tee.antt =====
-- logging_setup.py, the reader of install: bytes as they come from the pipe, lines as they are
-- written. A line is written with the time in front, which is left out here.
use toothkey.Base.{
  ℕ, zero, suc, ◌≡◌, refl, sym, ap, ◌∙◌, ◌+◌, leb, Bool, true, false, List, [], ◌∷◌, ◌++◌,
  if◌then◌else◌, length, map, ◌==◌, arith, Bool-cases, inl, inr,
}
pub mod Whole

abbrev pub newline : ℕ
newline = 10

-- the lines that are complete, and what is left of the buffer
abbrev pub Taken : Type 0
Taken = List (List ℕ) × List ℕ

unfoldable pub push : ℕ → Taken → Taken
push b ([], left) = if b == newline then ([] ∷ [], left) else ([], b ∷ left)
push b (line ∷ more, left) =
    if b == newline then ([] ∷ line ∷ more, left) else ((b ∷ line) ∷ more, left)

-- `while b'\n' in buf`
unfoldable pub take_lines : List ℕ → Taken
take_lines [] = ([], [])
take_lines (b ∷ buf) = push b (take_lines buf)

-- `_ROTATE_CHECK_EVERY_BYTES`
abbrev pub rotate_check_every_bytes : ℕ
rotate_check_every_bytes = 1048576

-- what the reader does: a line is written, or the size of the file is checked
pub data Did : Type 0 where
  wrote : List ℕ → Did
  checked : Did

-- `len(stamped)` over the lines, with the length of a stamp and its space
abbrev pub stamped : ℕ → List (List ℕ) → ℕ
stamped stamp [] = 0
stamped stamp (line ∷ more) = stamp + length line + 1 + stamped stamp more

-- `_reader` over the chunks that it reads, up to the end of the pipe: what it does, and the buffer
-- then, which it drops.
unfoldable pub reader : ℕ → List (List ℕ) → List ℕ → ℕ → List Did × List ℕ
reader stamp [] buf since = ([], buf)
reader stamp (chunk ∷ chunks) buf since =
    let (lines, left) = take_lines (buf ++ chunk) in
    let written = since + stamped stamp lines in
    let due = leb rotate_check_every_bytes written in
    let rest = reader stamp chunks left (if due then 0 else written) in
    (map wrote lines ++ ((if due then checked ∷ [] else []) ++ rest.0), rest.1)
