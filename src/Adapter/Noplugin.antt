-- ===== src/Adapter/Noplugin.antt =====
-- _log_bluetoothd_cmdline: which plugins the command line of bluetoothd switches off.
pub mod Last
use Prim.Native.String.{String}
use toothkey.Base.{
  ℕ, Bool, true, false, not, ◌&&◌, ◌||◌, Option, none, some, List, [], ◌∷◌, ◌++◌, length, drop,
  if◌then◌else◌, ltb, Text, text, same_text, starts_with, one_of, split_at,
}
use toothkey.Adapter.Hijack.{after_equals}

abbrev pub is_flag : Text → Bool
is_flag a = one_of (text "-P" ∷ text "--noplugin" ∷ []) a

-- the values that are part of their argument
abbrev pub attached : Text → Option Text → Option Text
attached a last =
    if starts_with (text "--noplugin=") a
    then some (after_equals a)
    else if starts_with (text "-P") a && ltb 2 (length a)
    then some (drop 2 a)
    else last

-- the loop over the arguments, with `noplugin_last`
unfoldable pub noplugin_of : List Text → Option Text → Option Text
noplugin_of [] last = last
noplugin_of (a ∷ []) last = attached a last
noplugin_of (a ∷ b ∷ argv) last =
    let skipped = noplugin_of argv (some b) in
    let next = noplugin_of (b ∷ argv) (attached a last) in if is_flag a then skipped else next

abbrev pub text_or : Option Text → Text → Text
text_or none default = default
text_or (some s) default = s

-- `disabled`, without the empty name
abbrev pub names_of : List Text → List Text
names_of [] = []
names_of ([] ∷ more) = names_of more
names_of ((c ∷ s) ∷ more) = (c ∷ s) ∷ names_of more

unfoldable pub disabled_plugins : List Text → List Text
unfolding noplugin_of
disabled_plugins argv = names_of (split_at 44 (text_or (noplugin_of argv none) []))

-- whether the two warnings are printed: about the input plugin, and about the hostname plugin
unfoldable pub plugin_warnings : List Text → Bool × Bool
unfolding disabled_plugins
plugin_warnings argv = (
  not (one_of (disabled_plugins argv) (text "input")),
  not (one_of (disabled_plugins argv) (text "hostname")),
)
