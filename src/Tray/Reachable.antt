-- ===== src/Tray/Reachable.antt =====
-- What can happen to a Tray: the user's actions, the worker's messages, and the timers.
use toothkey.Base.{ℕ, ◌≡◌, Bool, true, false, ◌||◌, List, [], ◌∷◌}
use toothkey.Worker.Commands.{State}
use toothkey.Tray.View.{
  Item, Tray, hidden, on_pairing_tick, pause, unpause, grab, ungrab, exit, restart,
}
use toothkey.Tray.Handlers.{
  new_tray, start_link, on_state_changed, on_worker_gone, on_pause, on_unpause, on_toggle_grab,
  on_activated, on_indicator_clicked, begin_shutdown,
}

-- Is an action that passes the test in the menu?
unfoldable pub offers : (Item → Bool) → List Item → Bool
offers p [] = false
offers p (item ∷ menu) = p item || offers p menu

abbrev pub is_pause : Item → Bool
is_pause (pause who) = true
is_pause _ = false

abbrev pub is_unpause : Item → Bool
is_unpause (unpause who) = true
is_unpause _ = false

abbrev pub is_toggle : Item → Bool
is_toggle grab = true
is_toggle ungrab = true
is_toggle _ = false

abbrev pub is_closing : Item → Bool
is_closing exit = true
is_closing restart = true
is_closing _ = false

-- What can happen to a Tray, as long as its event loop runs. A user can only pick what the menu
-- offers; the worker's messages and the end of the connection come while there is one, and a new
-- connection is tried when there is none.
pub data Step (t : Tray) : Tray → Type 0 where
  dialled : (reached : Bool) → t.linked ≡ false → Step t (start_link reached t).0
  told : (now : ℕ) (msg : State) → t.linked ≡ true → Step t (on_state_changed now msg t).0
  gone : t.linked ≡ true → t.shutting_down ≡ false → Step t (on_worker_gone t).0
  ticked : (now : ℕ) → Step t (on_pairing_tick now t)
  clicked : (now : ℕ) (menu_visible : Bool) → Step t (on_activated now menu_visible t).0
  picked_pause : (now : ℕ) → offers is_pause t.menu ≡ true → Step t (on_pause now t).0
  picked_unpause : (now : ℕ) → offers is_unpause t.menu ≡ true → Step t (on_unpause now t).0
  picked_toggle : (now : ℕ) → offers is_toggle t.menu ≡ true → Step t (on_toggle_grab now t).0
  clicked_indicator : (now : ℕ) → (t.indicator ≡ hidden → ⊥) → Step t (on_indicator_clicked now t).0
  picked_exit :
      (restart : Bool) → offers is_closing t.menu ≡ true → Step t (begin_shutdown restart t).0

pub data Reach : Tray → Type 0 where
  here : Reach new_tray
  next : {s t : Tray} → Reach s → Step s t → Reach t
