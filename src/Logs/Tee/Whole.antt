-- ===== src/Logs/Tee/Whole.antt =====
-- The lines of the log, against the stream as a whole.
use mathlib.Core.List.{append-nil, append_assoc}
use toothkey.Base.{
  ℕ, All, subst, ◌≡◌, refl, sym, ap, ◌∙◌, ◌+◌, leb, Bool, true, false, List, [], ◌∷◌, ◌++◌,
  if◌then◌else◌, ◌==◌, arith, Bool-cases, inl, inr, map,
}
use toothkey.Logs.Tee.{
  newline, Taken, push, take_lines, Did, wrote, checked, reader, stamped, rotate_check_every_bytes,
}

-- the lines that are written
abbrev pub lines_of : List Did → List (List ℕ)
lines_of [] = []
lines_of (wrote line ∷ more) = line ∷ lines_of more
lines_of (checked ∷ more) = lines_of more

abbrev pub joined : List (List ℕ) → List ℕ
joined [] = []
joined (chunk ∷ chunks) = chunk ++ joined chunks

-- the lines after others
abbrev after : List (List ℕ) → Taken → Taken
after lines (more, left) = (lines ++ more, left)

push-newline : (b : ℕ) (t : Taken) → (b == newline) ≡ true → push b t ≡ ([] ∷ t.0, t.1)
unfolding push
push-newline b ([], left) e = simp e refl
push-newline b (line ∷ more, left) e = simp e refl

push-after :
    (b : ℕ) (t : Taken) (ys : List ℕ)
    → push b (after t.0 (take_lines (t.1 ++ ys)))
      ≡ after (push b t).0 (take_lines ((push b t).1 ++ ys))
unfolding take_lines
push-after b ([], left) ys = elim (Bool-cases (b == newline)) [
  | inl e ↦ rw (push-newline b ([], left) e) (push-newline b (take_lines (left ++ ys)) e)
  | inr e ↦
      let keeps : push b ([], left) ≡ ([], b ∷ left) = unfold push in simp e refl in rw keeps refl
]
push-after b (line ∷ more, left) ys = unfold push in ground arith

-- Taking the lines of a buffer and then those of what is left and the bytes that follow.
take_lines-append :
    (xs ys : List ℕ)
    → let (lines, left) = take_lines xs in
      take_lines (xs ++ ys) ≡ after lines (take_lines (left ++ ys))
unfolding take_lines
take_lines-append [] ys = refl
take_lines-append (b ∷ xs) ys =
    ap (push b) (take_lines-append xs ys) ∙ push-after b (take_lines xs) ys

lines_of-append :
    (lines : List (List ℕ)) (more : List Did)
    → lines_of (map wrote lines ++ more) ≡ lines ++ lines_of more
lines_of-append [] more = refl
lines_of-append (line ∷ lines) more =
    ap (λ (l : List (List ℕ)). line ∷ l) (lines_of-append lines more)

lines_of_check :
    (due : Bool) (more : List Did)
    → lines_of ((if due then checked ∷ [] else []) ++ more) ≡ lines_of more
lines_of_check true more = refl
lines_of_check false more = refl

-- a buffer with no complete line
abbrev pub Partial : List ℕ → Type 0
Partial buf = take_lines buf ≡ ([], buf)

push-Partial : (b : ℕ) (t : Taken) → Partial t.1 → Partial (push b t).1
unfolding push take_lines
push-Partial b ([], left) e = elim (Bool-cases (b == newline)) [
  | inl n ↦ simp n e
  | inr n ↦ simp n (ap (push b) e ∙ simp n refl)
]
push-Partial b (line ∷ more, left) e = elim (Bool-cases (b == newline)) [
  | inl n ↦ simp n e
  | inr n ↦ simp n e
]

take_lines-Partial : (buf : List ℕ) → Partial (take_lines buf).1
unfolding take_lines
take_lines-Partial [] = refl
take_lines-Partial (b ∷ buf) = push-Partial b (take_lines buf) (take_lines-Partial buf)

reader_lines :
    (stamp : ℕ) (chunks : List (List ℕ)) (buf : List ℕ) (since : ℕ)
    → Partial buf
    → let (did, left) = reader stamp chunks buf since in
      (lines_of did, left) ≡ take_lines (buf ++ joined chunks)
unfolding reader
reader_lines stamp [] buf since e = sym e ∙ ap take_lines (sym (append-nil buf))
reader_lines stamp (chunk ∷ chunks) buf since e =
    let (lines, left) = take_lines (buf ++ chunk) in
    let written = since + stamped stamp lines in
    let due = leb rotate_check_every_bytes written in
    let rest = reader stamp chunks left (if due then 0 else written) in
    let here_ =
      lines_of-append lines ((if due then checked ∷ [] else []) ++ rest.0)
      ∙ ap (λ (l : List (List ℕ)). lines ++ l) (lines_of_check due rest.0) in
    ap (λ (l : List (List ℕ)). (l, rest.1)) here_
    ∙ ap (after lines) (
        reader_lines stamp chunks left (if due then 0 else written)
          (take_lines-Partial (buf ++ chunk)))
    ∙ sym (take_lines-append (buf ++ chunk) (joined chunks))
    ∙ ap take_lines (append_assoc buf chunk (joined chunks))

-- the stream that has these lines, and the rest after them
abbrev pub stream : List (List ℕ) → List ℕ → List ℕ
stream [] left = left
stream (line ∷ more) left = line ++ newline ∷ stream more left

push-stream : (b : ℕ) (t : Taken) → stream (push b t).0 (push b t).1 ≡ b ∷ stream t.0 t.1
unfolding push
push-stream b ([], left) = elim (Bool-cases (b == newline)) [
  | inl n ↦ simp n (ap (λ (x : ℕ). x ∷ left) (ground arith))
  | inr n ↦ simp n refl
]
push-stream b (line ∷ more, left) = elim (Bool-cases (b == newline)) [
  | inl n ↦ simp n (ap (λ (x : ℕ). x ∷ line ++ newline ∷ stream more left) (ground arith))
  | inr n ↦ simp n refl
]

take_lines-stream : (buf : List ℕ) → stream (take_lines buf).0 (take_lines buf).1 ≡ buf
unfolding take_lines
take_lines-stream [] = refl
take_lines-stream (b ∷ buf) =
    push-stream b (take_lines buf) ∙ ap (λ (l : List ℕ). b ∷ l) (take_lines-stream buf)

abbrev pub Unbroken : List ℕ → Type 0
Unbroken = All (λ (b : ℕ). (b == newline) ≡ false)

push-Unbroken :
    (b : ℕ) (t : Taken)
    → All Unbroken t.0 × Unbroken t.1
    → All Unbroken (push b t).0 × Unbroken (push b t).1
unfolding push
push-Unbroken b ([], left) (h, l) = elim (Bool-cases (b == newline)) [
  | inl n ↦ simp n ((tt, tt), l)
  | inr n ↦ simp n (tt, (refl, l))
]
push-Unbroken b (line ∷ more, left) (h, l) = elim (Bool-cases (b == newline)) [
  | inl n ↦ simp n ((tt, h), l)
  | inr n ↦ simp n (((refl, h.0), h.1), l)
]

take_lines-Unbroken : (buf : List ℕ) → All Unbroken (take_lines buf).0 × Unbroken (take_lines buf).1
unfolding take_lines
take_lines-Unbroken [] = (tt, tt)
take_lines-Unbroken (b ∷ buf) = push-Unbroken b (take_lines buf) (take_lines-Unbroken buf)

-- However the pipe cuts the stream into chunks, and however often the size of the file is checked
-- meanwhile: the lines that are logged, a newline after each, and then the bytes that are dropped at
-- the end of the pipe are exactly the stream, and neither a line nor what is dropped has a newline.
pub reader-stream :
    (stamp : ℕ) (chunks : List (List ℕ))
    → let (did, left) = reader stamp chunks [] 0 in
      (stream (lines_of did) left ≡ joined chunks) × All Unbroken (lines_of did) × Unbroken left
reader-stream stamp chunks =
    let e = reader_lines stamp chunks [] 0 (unfold take_lines in refl) in
    let all = joined chunks in
    let (full, open_) =
      subst (λ (t : Taken). All Unbroken t.0 × Unbroken t.1) (sym e) (take_lines-Unbroken all) in
    (ap (λ (t : Taken). stream t.0 t.1) e ∙ take_lines-stream all, full, open_)
