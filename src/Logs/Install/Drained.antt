-- ===== src/Logs/Install/Drained.antt =====
-- The pipe of the log from the process's start to its end.
use toothkey.Base.{
  ℕ, zero, suc, ◌≡◌, ◌<◌, refl, ap, ◌∙◌, Option, none, some, [], ◌∷◌, arith, ◌==◌, ==-cases, inl,
  inr, Bool, true, false, Bool-cases, ◌||◌, is_some, if◌then◌else◌,
}
use toothkey.Logs.Install.{
  Target, read_end, write_end, file, Table, get_fd, set_fd, lowest_free, alloc, pipe_through,
  Installed, install, drain_on_exit,
}

get_fd-set_fd :
    (t : Table) (n : ℕ) (y : Option Target) (m : ℕ)
    → get_fd (set_fd t n y) m ≡ (if m == n then y else get_fd t m)
get_fd-set_fd [] zero y zero = refl
get_fd-set_fd [] zero y (suc m) = ground arith
get_fd-set_fd [] (suc n) y zero = ground arith
get_fd-set_fd [] (suc n) y (suc m) = ground (arith, get_fd-set_fd [] n y m)
get_fd-set_fd (x ∷ t) zero y zero = refl
get_fd-set_fd (x ∷ t) zero y (suc m) = ground arith
get_fd-set_fd (x ∷ t) (suc n) y zero = ground arith
get_fd-set_fd (x ∷ t) (suc n) y (suc m) = ground (arith, get_fd-set_fd t n y m)

-- The descriptor that is given out was free.
get_fd-lowest_free : (t : Table) → get_fd t (lowest_free t) ≡ none
get_fd-lowest_free [] = refl
get_fd-lowest_free (none ∷ t) = refl
get_fd-lowest_free (some x ∷ t) = get_fd-lowest_free t

get_fd-alloc :
    (t : Table) (y : Target) (m : ℕ)
    → get_fd (alloc t y).1 m ≡ (if m == lowest_free t then some y else get_fd t m)
get_fd-alloc t y m = get_fd-set_fd t (lowest_free t) (some y) m

abbrev pub is_write_end : Option Target → Bool
is_write_end none = false
is_write_end (some write_end) = true
is_write_end (some read_end) = false
is_write_end (some (file n)) = false

-- what a number that `install` keeps stands for
abbrev pub target_of : Table → Option ℕ → Option Target
target_of t none = none
target_of t (some n) = get_fd t n

-- the tables on the way, as functions
abbrev Given : (ℕ → Option Target) → ℕ → Target → (ℕ → Option Target) → Type 0
Given f n y g = (f n ≡ none) × ((m : ℕ) → g m ≡ (if m == n then some y else f m))

alloc-Given : (t : Table) (y : Target) → Given (get_fd t) (lowest_free t) y (get_fd (alloc t y).1)
alloc-Given t y = (get_fd-lowest_free t, get_fd-alloc t y)

Given-got : (f g : ℕ → Option Target) (n : ℕ) (y : Target) → Given f n y g → g n ≡ some y
Given-got f g n y (free, e) = ground (arith, e n)

-- What was open stays as it is, and has another number.
Given-keeps :
    (f g : ℕ → Option Target) (n : ℕ) (y : Target) (m : ℕ)
    → Given f n y g
    → is_some (f m) ≡ true
    → ((m == n) ≡ false) × (g m ≡ f m) × (is_some (g m) ≡ true)
Given-keeps f g n y m (free, e) h = elim (==-cases m n) [
  | inl same ↦ absurd (ground (arith, ap f same))
  | inr ne ↦ ground (arith, e m)
]

Given-new :
    (f g : ℕ → Option Target) (n : ℕ) (y : Target)
    → Given f n y g
    → is_write_end (some y) ≡ false
    → ((m : ℕ) → is_write_end (f m) ≡ false)
    → (m : ℕ) → is_write_end (g m) ≡ false
Given-new f g n y (free, e) h new m = elim (Bool-cases (m == n)) [
  | inl same ↦ ground (arith, e m)
  | inr ne ↦ ground (arith, e m, new m)
]

-- the table once the pipe is in the place of 1 and 2
abbrev Joined : (ℕ → Option Target) → ℕ → (ℕ → Option Target) → Type 0
Joined f w g =
    (m : ℕ)
    → g m ≡ (
        if m == w
        then none
        else if m == 2
        then some write_end
        else if m == 1
        then some write_end
        else f m)

pipe_through-Joined :
    (out err : Option ℕ) (t : Table)
    → let i = pipe_through out err t in
      1 < i.pipe_w
      → Joined (get_fd (alloc (alloc t read_end).1 write_end).1) i.pipe_w (get_fd i.table)
pipe_through-Joined out err t h m =
    let t1 = (alloc t read_end).1 in
    let w = lowest_free t1 in
    let t2 = (alloc t1 write_end).1 in
    let t3 = set_fd t2 1 (get_fd t2 w) in
    let t4 = set_fd t3 2 (get_fd t3 w) in
    ground (
      arith,
      get_fd-set_fd t4 w none m,
      get_fd-set_fd t3 2 (get_fd t3 w) m,
      get_fd-set_fd t2 1 (get_fd t2 w) m,
      get_fd-set_fd t2 1 (get_fd t2 w) w,
      get_fd-alloc t1 write_end w,
    )

drained_new :
    (t : Table)
    → ((m : ℕ) → is_write_end (get_fd t m) ≡ (m == 1 || m == 2))
    → (m : ℕ) → is_write_end (get_fd (drain_on_exit t) m) ≡ false
unfolding drain_on_exit
drained_new t h m =
    ground (arith, h m, get_fd-set_fd t 1 none m, get_fd-set_fd (set_fd t 1 none) 2 none m)

-- Both outputs go into the pipe, the terminal is kept, and nothing else changes or holds the pipe
-- open: once both are closed, its reader finds its end.
pub record Piped (t : Table) (i : Installed) : Type 0 where
  pub stdout : get_fd i.table 1 ≡ some write_end
  pub stderr : get_fd i.table 2 ≡ some write_end
  pub reader : get_fd i.table i.pipe_r ≡ some read_end
  pub kept_stdout : target_of i.table i.orig_stdout ≡ get_fd t 1
  pub kept_stderr : target_of i.table i.orig_stderr ≡ get_fd t 2
  pub others :
      (m : ℕ)
      → is_some (get_fd t m) ≡ true
      → (m == 1 || m == 2) ≡ false
      → get_fd i.table m ≡ get_fd t m
  pub writers : (m : ℕ) → is_write_end (get_fd i.table m) ≡ (m == 1 || m == 2)
  pub drained : (m : ℕ) → is_write_end (get_fd (drain_on_exit i.table) m) ≡ false

-- What was open before the pipe was made, and is not 1 or 2, comes through.
Joined-keeps :
    (f f1 f2 g : ℕ → Option Target) (r w m : ℕ)
    → Given f r read_end f1
    → Given f1 w write_end f2
    → Joined f2 w g
    → is_some (f m) ≡ true
    → (m == 1 || m == 2) ≡ false
    → g m ≡ f m
Joined-keeps f f1 f2 g r w m g1 g2 j open_ ne =
    let (ne1, same1, open1) = Given-keeps f f1 r read_end m g1 open_ in
    let (ne2, same2, open2) = Given-keeps f1 f2 w write_end m g2 open1 in ground (arith, j m)

Joined-writers :
    (f1 f2 g : ℕ → Option Target) (w : ℕ)
    → Given f1 w write_end f2
    → Joined f2 w g
    → is_some (f1 1) ≡ true
    → is_some (f1 2) ≡ true
    → ((m : ℕ) → is_write_end (f1 m) ≡ false)
    → (m : ℕ) → is_write_end (g m) ≡ (m == 1 || m == 2)
Joined-writers f1 f2 g w (free, e) j one two new m = elim (Bool-cases (m == w)) [
  | inl same ↦
      let not1 = Given-keeps f1 f2 w write_end 1 (free, e) one in
      let not2 = Given-keeps f1 f2 w write_end 2 (free, e) two in ground (arith, j m)
  | inr ne ↦ ground (arith, j m, e m, new m)
]

-- Started with its three standard descriptors open, and none for the pipe yet, `install` leads both outputs into the pipe and keeps
-- the terminal under the numbers it notes; no other descriptor changes, and only 1 and 2 hold the pipe
-- open, so that its reader finds the end once `_drain_on_exit` has closed them.
pub install-Piped :
    (a b c : Target) (rest : Table)
    → let t = some a ∷ some b ∷ some c ∷ rest in
      ((m : ℕ) → is_write_end (get_fd t m) ≡ false) → Piped t (install t)
unfolding install
install-Piped a b c rest new =
    let t = some a ∷ some b ∷ some c ∷ rest in
    let t1 = (alloc t b).1 in
    let t2 = (alloc t1 c).1 in
    let t3 = (alloc t2 read_end).1 in
    let t4 = (alloc t3 write_end).1 in
    let out = lowest_free t in
    let err = lowest_free t1 in
    let r = lowest_free t2 in
    let w = lowest_free t3 in
    let i = pipe_through (some out) (some err) t2 in
    let g1 = alloc-Given t b in
    let g2 = alloc-Given t1 c in
    let g3 = alloc-Given t2 read_end in
    let g4 = alloc-Given t3 write_end in
    let j = pipe_through-Joined (some out) (some err) t2 (omega arith) in
    let got1 = Given-got (get_fd t) (get_fd t1) out b g1 in
    let got2 = Given-got (get_fd t1) (get_fd t2) err c g2 in
    let got3 = Given-got (get_fd t2) (get_fd t3) r read_end g3 in
    let (ne1, same1, open1) =
      Given-keeps (get_fd t1) (get_fd t2) err c out g2 (ground (arith, got1)) in
    let on =
      λ (m : ℕ). Joined-keeps (get_fd t2) (get_fd t3) (get_fd t4) (get_fd i.table) r w m g3 g4 j in
    let new1 = Given-new (get_fd t) (get_fd t1) out b g1 (new 1) new in
    let new2 = Given-new (get_fd t1) (get_fd t2) err c g2 (new 2) new1 in
    let new3 = Given-new (get_fd t2) (get_fd t3) r read_end g3 refl new2 in
    let (ner, samer, openr) =
      Given-keeps (get_fd t3) (get_fd t4) w write_end r g4 (ground (arith, got3)) in
    let writes = Joined-writers (get_fd t3) (get_fd t4) (get_fd i.table) w g4 j refl refl new3 in
    record {
      stdout = ground (arith, j 1);
      stderr = ground (arith, j 2);
      reader = ground (arith, j r);
      kept_stdout = on out (ground arith) (ground arith) ∙ same1 ∙ got1;
      kept_stderr = on err (ground (arith, got2)) (ground arith) ∙ got2;
      others = λ m h ne.
          let (n1, s1, o1) = Given-keeps (get_fd t) (get_fd t1) out b m g1 h in
          let (n2, s2, o2) = Given-keeps (get_fd t1) (get_fd t2) err c m g2 o1 in
          on m o2 ne ∙ s2 ∙ s1;
      writers = writes;
      drained = drained_new i.table writes;
    }
