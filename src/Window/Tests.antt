-- ===== src/Window/Tests.antt =====
-- Tests of the window hints.
use toothkey.Base.{◌≡◌, refl, true, some, [], ◌∷◌, ℕ_discrete}
use toothkey.Window.{Atoms, Window, no_fault, skip_taskbar_and_pager}

abbrev atoms : Atoms
atoms = record { state = 1; skip_taskbar = 2; skip_pager = 3; skip_switcher = 4 }

-- a window that is to stay above, and already out of the pager
abbrev above : Window
above = record { property = some (9 ∷ 3 ∷ []); writes = 0; messages = [] }

states_are_added :
    (skip_taskbar_and_pager true (some 5) no_fault atoms above).0
    ≡ record { property = some (9 ∷ 3 ∷ 2 ∷ 4 ∷ []); writes = 1; messages = (2, 3) ∷ (4, 0) ∷ [] }
unfolding skip_taskbar_and_pager ℕ_discrete
states_are_added = refl
