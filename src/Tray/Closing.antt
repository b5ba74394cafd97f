-- ===== src/Tray/Closing.antt =====
-- The tray's end, once Exit or Restart was picked.
use toothkey.Base.{
  ℕ, ◌≡◌, refl, Bool, true, false, [], ◌∷◌, arith, if◌then◌else◌, Bool-cases, inl, inr, ◌∙◌,
}
use toothkey.Tray.View.{Tray}
use toothkey.Tray.Handlers.{
  send, spawn_restart, exit_with, quit_later, shutdown, start_link, on_state_changed,
  on_worker_gone, on_pause, on_unpause, on_toggle_grab, on_activated, on_indicator_clicked,
  begin_shutdown, quit_now,
}
use toothkey.Tray.Reachable.{
  Step, dialled, told, gone, ticked, clicked, picked_pause, picked_unpause, picked_toggle,
  clicked_indicator, picked_exit,
}
use toothkey.Tray.Shows.{
  Shows, refresh_ui-Shows, on_pairing_tick-Ticked, on_pairing_changed-Announced,
}

-- the states that follow, while the event loop runs
pub data Later (s : Tray) : Tray → Type 0 where
  now_ : Later s s
  later : {t u : Tray} → Later s t → Step t u → Later s u

-- A shutdown is under way, and was asked for as a restart or not.
abbrev Closes : Bool → Tray → Type 0
Closes restarts t = (t.shutting_down ≡ true) × (t.restart_on_quit ≡ restarts)

shown-Closes : {r : Bool} (s t : Tray) → Shows s t → Closes r s → Closes r t
shown-Closes s t v (c, r) = (v.shutting_down ∙ c, v.restarts ∙ r)

on_toggle_grab-Closes :
    (r : Bool) (now : ℕ) (t : Tray) → Closes r t → Closes r (on_toggle_grab now t).0
unfolding on_toggle_grab
on_toggle_grab-Closes r now t c = shown-Closes _ _ (refresh_ui-Shows now _) c

on_activated-Closes :
    (r : Bool) (now : ℕ) (menu_visible : Bool) (t : Tray)
    → Closes r t
    → Closes r (on_activated now menu_visible t).0
unfolding on_activated
on_activated-Closes r now true t c = c
on_activated-Closes r now false t c = elim (Bool-cases t.state.connected) [
  | inl peer ↦ simp peer (on_toggle_grab-Closes r now t c)
  | inr none_ ↦ simp none_ c
]

Step-Closes : (r : Bool) {s t : Tray} → Step s t → Closes r s → Closes r t
unfolding on_pause on_unpause on_indicator_clicked
Step-Closes r {s} (dialled reached unlinked) (c, e) = unfold start_link in simp c (refl, e)
Step-Closes r {s} (told now msg linked) (c, e) =
    unfold on_state_changed in
    let t0 = record s { state = msg } in
    let (state, pending, closing, link, restarts) =
      on_pairing_changed-Announced now msg.pairing t0 in
    shown-Closes _ _ (refresh_ui-Shows now _) (closing ∙ c, restarts ∙ e)
Step-Closes r {s} (gone linked open_) (c, e) = cc
Step-Closes r {s} (ticked now) (c, e) =
    let (state, i, p, closing, l, restarts, shown, m) = on_pairing_tick-Ticked now s in
    (closing ∙ c, restarts ∙ e)
Step-Closes r {s} (clicked now menu_visible) c = on_activated-Closes r now menu_visible s c
Step-Closes r {s} (picked_pause now offered) c = shown-Closes _ _ (refresh_ui-Shows now _) c
Step-Closes r {s} (picked_unpause now offered) c = shown-Closes _ _ (refresh_ui-Shows now _) c
Step-Closes r {s} (picked_toggle now offered) c = on_toggle_grab-Closes r now s c
Step-Closes r {s} (clicked_indicator now visible) c = shown-Closes _ _ (refresh_ui-Shows now _) c
Step-Closes r {s} (picked_exit restarts offered) (c, e) = unfold begin_shutdown in simp c (refl, e)

Later-Closes : (r : Bool) {s t : Tray} → Later s t → Closes r s → Closes r t
Later-Closes r now_ c = c
Later-Closes r (later more step) c = Step-Closes r step (Later-Closes r more c)

-- Picking Exit or Restart asks the worker for a shutdown, once. Whatever then happens until the
-- connection closes (messages, clicks, Exit and Restart again, attempts to dial), the tray then ends:
-- after spawning the start script and with 0 if the first pick was Restart, else with 42.
pub begin_shutdown-ends :
    (restarts : Bool) (s t : Tray)
    → s.shutting_down ≡ false
    → Later (begin_shutdown restarts s).0 t
    → ((begin_shutdown restarts s).1 ≡ send shutdown ∷ quit_later ∷ [])
      × ((on_worker_gone t).1
          ≡ (if restarts then spawn_restart ∷ exit_with 0 ∷ [] else exit_with 42 ∷ []))
      × ((quit_now t).1 ≡ (on_worker_gone t).1)
unfolding begin_shutdown on_worker_gone quit_now
begin_shutdown-ends restarts s t open_ more =
    let (c, e) = Later-Closes restarts more (simp open_ (refl, refl)) in
    (simp open_ refl, ground (arith, c, e), simp c refl)
