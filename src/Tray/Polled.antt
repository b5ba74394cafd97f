-- ===== src/Tray/Polled.antt =====
-- The tray as a listener of the worker's poller: tray.py and worker.py together.
use toothkey.Base.{ℕ, ◌+◌, ◌≡◌, ◌∙◌, ap, Option, none, some, List, [], ◌∷◌}
use toothkey.Worker.Commands.{State}
use toothkey.Worker.Poller.{state_poller}
use toothkey.Worker.Poller.Current.{latest, Changes, state_poller-latest, state_poller-Changes}
use toothkey.Tray.View.{Tray, no_state}
use toothkey.Tray.Handlers.{on_state_changed}
use toothkey.Tray.Told.{on_state_changed-shows}

-- what the tray reads from a message: a key that is missing counts as off
abbrev pub read_state : Option State → State
read_state none = no_state
read_state (some s) = s

-- the tray after these messages, the next at these times
unfoldable pub hears : (ℕ → ℕ) → ℕ → List (Option State) → Tray → Tray
hears clock n [] t = t
hears clock n (message ∷ more) t =
    hears clock (n + 1) more (on_state_changed (clock n) (read_state message) t).0

hears-latest :
    (clock : ℕ → ℕ) (n : ℕ) (messages : List (Option State)) (last : Option State) (t : Tray)
    → t.state ≡ read_state last
    → (hears clock n messages t).state ≡ read_state (latest last messages)
unfolding hears
hears-latest clock n [] last t e = e
hears-latest clock n (message ∷ more) last t e =
    let (indicator, state, pending, icon) =
      on_state_changed-shows (clock n) (read_state message) t in
    hears-latest clock (n + 1) more message _ state

-- However often the poller looks at the worker, and whatever it sees: no message repeats the one
-- before it, and a tray that hears the messages has the state of the last look (with all off for a
-- look that raised).
pub state_poller-hears :
    (clock : ℕ → ℕ) (look : Option State) (looks : List (Option State)) (t : Tray)
    → let sent = state_poller none (look ∷ looks) in
      Changes none sent × ((hears clock 0 sent t).state ≡ read_state (latest look looks))
unfolding hears state_poller
state_poller-hears clock look looks t =
    let (indicator, state, pending, icon) = on_state_changed-shows (clock 0) (read_state look) t in
    (
      state_poller-Changes none (look ∷ looks),
      hears-latest clock 1 (state_poller (some look) looks) look _ state
          ∙ ap read_state (state_poller-latest look looks),
    )
