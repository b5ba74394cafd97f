-- ===== src/Base/Texts.antt =====
-- Text as the list of its code points: Python's str methods that the adapter modules use.
use Prim.Native.Nat.{ℕ, ◌+◌}
use Prim.Native.Char.{code}
use Prim.Native.String.{String}
use mathlib.Core.Path.{◌≡◌, refl}
use mathlib.Core.Bool.{Bool, true, false, ◌&&◌, ◌||◌}
use mathlib.Core.Option.{Option, none, some}
use mathlib.Core.List.{List, [], ◌∷◌, map}
use native.Mathlib.Omega.{arith}
use toothkey.Base.Lists.{take, length, is_empty}
use toothkey.Base.Tests.{if◌then◌else◌, leb, ◌==◌}

abbrev pub Text : Type 0
Text = List ℕ

-- the code points of a literal
abbrev pub text : String → Text
text String.[] = []
text (String.◌∷◌ c s) = code c ∷ text s

-- `s == t`
abbrev pub same_text : Text → Text → Bool
same_text [] [] = true
same_text [] (d ∷ t) = false
same_text (c ∷ s) [] = false
same_text (c ∷ s) (d ∷ t) = c == d && same_text s t

-- `s in {...}`
abbrev pub one_of : List Text → Text → Bool
one_of [] s = false
one_of (t ∷ ts) s = same_text t s || one_of ts s

-- `s.startswith(p)`
abbrev pub starts_with : Text → Text → Bool
starts_with [] s = true
starts_with (d ∷ p) [] = false
starts_with (d ∷ p) (c ∷ s) = d == c && starts_with p s

-- `s.endswith(p)`
abbrev pub ends_with : Text → Text → Bool
ends_with p [] = is_empty p
ends_with p (c ∷ s) = same_text p (c ∷ s) || ends_with p s

-- `p in s`
abbrev pub contains : Text → Text → Bool
contains p [] = is_empty p
contains p (c ∷ s) = starts_with p (c ∷ s) || contains p s

-- `s.lower()`, on ASCII
abbrev pub lower_char : ℕ → ℕ
lower_char c = if leb 65 c && leb c 90 then c + 32 else c

abbrev pub lower : Text → Text
lower s = map lower_char s

-- the characters that `str.strip` takes off
abbrev pub is_space : ℕ → Bool
is_space c =
    (leb 9 c && leb c 13)
    || (leb 28 c && leb c 32)
    || c == 133
    || c == 160
    || c == 5760
    || (leb 8192 c && leb c 8202)
    || c == 8232
    || c == 8233
    || c == 8239
    || c == 8287
    || c == 12288

abbrev pub lstrip : Text → Text
lstrip [] = []
lstrip (c ∷ s) = let rest = lstrip s in if is_space c then rest else c ∷ s

abbrev pub rstrip : Text → Text
rstrip [] = []
rstrip (c ∷ s) = let rest = rstrip s in if is_space c && is_empty rest then [] else c ∷ rest

abbrev pub strip : Text → Text
strip s = lstrip (rstrip s)

-- `s.replace(c, '')`
abbrev pub without : ℕ → Text → Text
without d [] = []
without d (c ∷ s) = let rest = without d s in if c == d then rest else c ∷ rest

-- what stands before the first `d`, and what stands after it if there is one: `s.split(d, 1)`
abbrev pub split_once : ℕ → Text → Text × Option Text
split_once d [] = ([], none)
split_once d (c ∷ s) =
    let (before, after) = split_once d s in if c == d then ([], some s) else (c ∷ before, after)

abbrev extend : Bool → ℕ → List Text → List Text
extend here c [] = []
extend true c (part ∷ parts) = [] ∷ part ∷ parts
extend false c (part ∷ parts) = (c ∷ part) ∷ parts

-- `s.split(d)`
abbrev pub split_at : ℕ → Text → List Text
split_at d [] = [] ∷ []
split_at d (c ∷ s) = extend (c == d) c (split_at d s)

pub same_text→eq : (s t : Text) → same_text s t ≡ true → s ≡ t
same_text→eq [] [] h = refl
same_text→eq [] (d ∷ t) h = cc
same_text→eq (c ∷ s) [] h = cc
same_text→eq (c ∷ s) (d ∷ t) h = ground (arith, same_text→eq s t)

pub same_text_refl : (s : Text) → same_text s s ≡ true
same_text_refl [] = refl
same_text_refl (c ∷ s) = ground (arith, same_text_refl s)

pub take-starts_with : (p s : Text) → starts_with p s ≡ true → take (length p) s ≡ p
take-starts_with [] s h = refl
take-starts_with (d ∷ p) [] h = cc
take-starts_with (d ∷ p) (c ∷ s) h = ground (arith, take-starts_with p s)
