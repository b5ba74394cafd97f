-- ===== src/Adapter/Noplugin/Last.antt =====
-- The last option of a command line is the one that counts.
use toothkey.Base.{
  ℕ, ◌≡◌, refl, ap, ◌∙◌, false, Option, some, List, [], ◌∷◌, ◌++◌, arith, Text, text, starts_with,
  same_text, if◌then◌else◌,
}
use toothkey.Adapter.Noplugin.{noplugin_of, is_flag, attached}

-- an option as it is written: with its value as the next argument, joined by `=`, or joined to -P
-- (the value is then not empty); or another argument
pub data Arg : Type 0 where
  short_flag : Text → Arg
  long_flag : Text → Arg
  long_joined : Text → Arg
  short_joined : ℕ → Text → Arg
  other : Text → Arg

-- the command line that is written so
abbrev pub write : List Arg → List Text
write [] = []
write (short_flag v ∷ args) = text "-P" ∷ v ∷ write args
write (long_flag v ∷ args) = text "--noplugin" ∷ v ∷ write args
write (long_joined v ∷ args) = (text "--noplugin=" ++ v) ∷ write args
write (short_joined c v ∷ args) = (text "-P" ++ (c ∷ v)) ∷ write args
write (other a ∷ args) = a ∷ write args

-- the value of the last option, and `last` if there is none
abbrev pub last_value : List Arg → Option Text → Option Text
last_value [] last = last
last_value (short_flag v ∷ args) last = last_value args (some v)
last_value (long_flag v ∷ args) last = last_value args (some v)
last_value (long_joined v ∷ args) last = last_value args (some v)
last_value (short_joined c v ∷ args) last = last_value args (some (c ∷ v))
last_value (other a ∷ args) last = last_value args last

-- an argument that is no option starts with neither form
abbrev pub IsOther : Arg → Type 0
IsOther (other a) =
    (starts_with (text "-P") a ≡ false) × (starts_with (text "--noplugin") a ≡ false)
IsOther (short_flag v) = Unit
IsOther (long_flag v) = Unit
IsOther (long_joined v) = Unit
IsOther (short_joined c v) = Unit

abbrev pub AreWritten : List Arg → Type 0
AreWritten [] = Unit
AreWritten (a ∷ args) = IsOther a × AreWritten args

starts_with-same : (p s : Text) → starts_with p s ≡ false → same_text p s ≡ false
starts_with-same [] s h = cc
starts_with-same (d ∷ p) [] h = refl
starts_with-same (d ∷ p) (c ∷ s) h = ground (arith, starts_with-same p s)

starts_with-longer : (p q s : Text) → starts_with p s ≡ false → starts_with (p ++ q) s ≡ false
starts_with-longer [] q s h = cc
starts_with-longer (d ∷ p) q [] h = refl
starts_with-longer (d ∷ p) q (c ∷ s) h = ground (arith, starts_with-longer p q s)

-- an argument that is no flag is gone past on its own
noplugin_of-step :
    (a : Text) (argv : List Text) (last : Option Text)
    → is_flag a ≡ false
    → noplugin_of (a ∷ argv) last ≡ noplugin_of argv (attached a last)
unfolding noplugin_of
noplugin_of-step a [] last h = refl
noplugin_of-step a (b ∷ argv) last h =
    ap (λ t. if t then noplugin_of argv (some b) else noplugin_of (b ∷ argv) (attached a last)) h

attached-short_joined :
    (c : ℕ) (v : Text) (last : Option Text) → attached (text "-P" ++ (c ∷ v)) last ≡ some (c ∷ v)
attached-short_joined c v last = ground arith

attached-other : (a : Text) (last : Option Text) → IsOther (other a) → attached a last ≡ last
attached-other a last h =
    rw (starts_with-longer (text "--noplugin") (text "=") a (h.1)) (simp (h.0))

is_flag-other : (a : Text) → IsOther (other a) → is_flag a ≡ false
is_flag-other a h =
    simp (starts_with-same (text "-P") a (h.0), starts_with-same (text "--noplugin") a (h.1))

-- Of any command line made of options for plugins, in their four forms, and other arguments, the
-- value of the last option is taken.
pub noplugin_of-last :
    (args : List Arg) (last : Option Text)
    → AreWritten args
    → noplugin_of (write args) last ≡ last_value args last
unfolding noplugin_of
noplugin_of-last [] last h = refl
noplugin_of-last (short_flag v ∷ args) last h = noplugin_of-last args (some v) (h.1)
noplugin_of-last (long_flag v ∷ args) last h = noplugin_of-last args (some v) (h.1)
noplugin_of-last (long_joined v ∷ args) last h =
    noplugin_of-step (text "--noplugin=" ++ v) (write args) last refl
    ∙ noplugin_of-last args (some v) (h.1)
noplugin_of-last (short_joined c v ∷ args) last h =
    noplugin_of-step (text "-P" ++ (c ∷ v)) (write args) last refl
    ∙ ap (noplugin_of (write args)) (attached-short_joined c v last)
    ∙ noplugin_of-last args (some (c ∷ v)) (h.1)
noplugin_of-last (other a ∷ args) last h =
    noplugin_of-step a (write args) last (is_flag-other a (h.0))
    ∙ ap (noplugin_of (write args)) (attached-other a last (h.0))
    ∙ noplugin_of-last args last (h.1)
