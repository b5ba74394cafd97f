-- ===== src/Tray/Restart/Spawned.antt =====
-- What Restart starts when the tray was started by start.sh.
use toothkey.Base.{
  ℕ, ◌≡◌, refl, Bool, true, false, not, Option, none, some, List, [], ◌∷◌, ◌++◌, arith, All,
  if◌then◌else◌, Text, text, same_text, split_at, ◌==◌, Bool-cases, Option-cases, inl, inr, ◌⊎◌,
  all,
}
use toothkey.Tray.Restart.{
  askpass_candidates, askpass_names, first_executable, first_found, find_gui_askpass, Env, set_var,
  with_askpass, Desktop, restart_env, spawned, spawn_restart_start_sh, Asked, spawn_restart,
  is_installed_mode,
}

abbrev is_true : Option Bool → Bool
is_true none = false
is_true (some b) = b

-- A program that can be run, or that stands in PATH; or none where no candidate and no name gives one.
abbrev pub IsAskpass : (Text → Option Bool) → (Text → Option Text) → Option Text → Type 0
IsAskpass access which (some path) =
    (access path ≡ some true) ⊎ ((name : Text) × (which name ≡ some path))
IsAskpass access which none =
    All (λ (path : Text). is_true (access path) ≡ false) askpass_candidates
    × All (λ (name : Text). which name ≡ none) askpass_names

first_executable-found :
    (access : Text → Option Bool) (paths : List Text) (path : Text)
    → first_executable access paths ≡ some path
    → access path ≡ some true
first_executable-found access [] path e = cc
first_executable-found access (p ∷ paths) path e = elim (Bool-cases (is_true (access p))) [
  | inl hit ↦ elim (Option-cases (access p)) [
    | inl fails ↦ ground arith
    | inr (b, known) ↦ ground arith
  ]
  | inr miss ↦
      first_executable-found access paths path (elim (Option-cases (access p)) [
        | inl fails ↦ ground arith
        | inr (b, known) ↦ ground arith
      ])
]

first_executable-none :
    (access : Text → Option Bool) (paths : List Text)
    → first_executable access paths ≡ none
    → All (λ (path : Text). is_true (access path) ≡ false) paths
first_executable-none access [] e = tt
first_executable-none access (p ∷ paths) e = elim (Option-cases (access p)) [
  | inl fails ↦ (ground arith, first_executable-none access paths (ground arith))
  | inr (b, known) ↦ (ground arith, first_executable-none access paths (ground arith))
]

first_found-found :
    (which : Text → Option Text) (names : List Text) (path : Text)
    → first_found which names ≡ some path
    → (name : Text) × (which name ≡ some path)
first_found-found which [] path e = cc
first_found-found which (n ∷ names) path e = elim (Option-cases (which n)) [
  | inl fails ↦ first_found-found which names path (ground arith)
  | inr (p, known) ↦ (n, ground arith)
]

first_found-none :
    (which : Text → Option Text) (names : List Text)
    → first_found which names ≡ none
    → All (λ (name : Text). which name ≡ none) names
first_found-none which [] e = tt
first_found-none which (n ∷ names) e = elim (Option-cases (which n)) [
  | inl fails ↦ (fails, first_found-none which names (ground arith))
  | inr (p, known) ↦ absurd (ground arith)
]

find_gui_askpass-cases :
    (access : Text → Option Bool) (which : Text → Option Text) (first next : Option Text)
    → first_executable access askpass_candidates ≡ first
    → first_found which askpass_names ≡ next
    → IsAskpass access which (find_gui_askpass access which)
unfolding find_gui_askpass
find_gui_askpass-cases access which (some path) next e f =
    rw e (inl (first_executable-found access askpass_candidates path e))
find_gui_askpass-cases access which none (some path) e f =
    rw (e, f) (inr (first_found-found which askpass_names path f))
find_gui_askpass-cases access which none none e f =
    rw (e, f)
      (first_executable-none access askpass_candidates e, first_found-none which askpass_names f)

-- no blank stands in the text
abbrev pub is_word : Text → Bool
is_word = all λ (c : ℕ). not (c == 32)

split_at-word : (s : Text) → is_word s ≡ true → split_at 32 s ≡ s ∷ []
split_at-word [] h = refl
split_at-word (c ∷ s) h = ground (arith, split_at-word s)

abbrev pub var : Text → Text → Option Text → Option Text → Option Text
var name m value before = if same_text m name then value else before

-- what a variable is for start.sh, given what it is for the tray
abbrev pub seen_by : Option Text → Env → Env
seen_by none env m = var (text "TOOTHKEY_GUI_SUDO") m (some (text "1")) (env m)
seen_by (some path) env m =
    var (text "SUDO_ASKPASS") m (some path)
      (var (text "TOOTHKEY_GUI_SUDO") m (some (text "1")) (env m))

with_askpass-seen :
    (found : Option Text) (env : Env) (m : Text)
    → with_askpass found (set_var (text "TOOTHKEY_GUI_SUDO") (text "1") env) m ≡ seen_by found env m
with_askpass-seen none env m = refl
with_askpass-seen (some path) env m = refl

-- With start.sh there, and a program can be spawned, a restart of a tray that was not installed spawns
-- it. Split at blanks, its command ends with the path, if the path has no blank. Its environment is the tray's, with
-- TOOTHKEY_GUI_SUDO set, and SUDO_ASKPASS set to a program that can be run or stands in PATH, unless
-- none of the candidates does.
pub spawn_restart-spawned :
    (asked : Asked) (d : Desktop)
    → is_installed_mode d.environ ≡ false
    → d.has_start_sh ≡ true
    → d.spawns ≡ true
    → let command = text "sleep 1 && exec " ++ d.start_sh in
      let found = find_gui_askpass d.access d.which in
      (spawn_restart asked d ≡ spawned command (restart_env d))
      × (is_word d.start_sh ≡ true
          → split_at 32 command
            ≡ text "sleep" ∷ text "1" ∷ text "&&" ∷ text "exec" ∷ d.start_sh ∷ [])
      × ((m : Text) → restart_env d m ≡ seen_by found d.environ m)
      × IsAskpass d.access d.which found
unfolding spawn_restart spawn_restart_start_sh restart_env
spawn_restart-spawned asked d by_hand there spawns = (
  rw (by_hand, there, spawns, not, if◌then◌else◌) refl,
  λ word. rw (split_at-word d.start_sh word) refl,
  λ m. with_askpass-seen (find_gui_askpass d.access d.which) d.environ m,
  find_gui_askpass-cases d.access d.which _ _ refl refl,
)
