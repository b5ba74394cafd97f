-- ===== src/Worker/Poller.antt =====
-- worker.py: _state_poller, over what its looks at the worker give. `none` is a look that raised, and
-- the dictionary of four keys that is sent then.
pub mod Current
use toothkey.Base.{
  ℕ, Bool, true, false, not, ◌&&◌, Option, none, some, List, [], ◌∷◌, ◌++◌, if◌then◌else◌, eqb,
  ◌==◌,
}
use toothkey.Worker.Commands.{State}

abbrev pub same_value : Option ℕ → Option ℕ → Bool
same_value none none = true
same_value (some a) (some b) = a == b
same_value _ _ = false

-- `==` of two states
abbrev pub same_state : State → State → Bool
same_state s t =
    eqb s.connected t.connected
    && (same_value s.name t.name
        && (same_value s.mac t.mac
            && (eqb s.grab t.grab && (eqb s.paused t.paused && eqb s.pairing t.pairing))))

-- `s == last`, where `last` is `None` before the first look
abbrev pub is_last : Option (Option State) → Option State → Bool
is_last none look = false
is_last (some none) none = true
is_last (some (some s)) (some t) = same_state s t
is_last (some _) _ = false

-- `_state_poller`: what it sends, from a last state on
unfoldable pub state_poller : Option (Option State) → List (Option State) → List (Option State)
state_poller last [] = []
state_poller last (look ∷ looks) =
    let rest = state_poller (some look) looks in if is_last last look then rest else look ∷ rest
