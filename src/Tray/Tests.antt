-- ===== src/Tray/Tests.antt =====
-- Runs of the tray, and the theorems about it at them.
use toothkey.Base.{◌≡◌, refl, ◌^◌, ◌*◌, min, Bool, true, false, not, none, some, [], ◌∷◌}
use toothkey.Policy.Handler.{running}
use toothkey.Policy.Grabbers.{grabbers}
use toothkey.Worker.Commands.{State, dispatch}
use toothkey.Worker.Commands.Released.{state_of}
use toothkey.Worker.Tests.{worker, nothing_found, handler-IsHonest}
use toothkey.Tray.View.{Tray, solid, pulsing, grabbed, rebuild_menu, icon_of, refresh_ui}
use toothkey.Tray.Handlers.{
  Request, send, toast, could_not_grab, spawn_restart, exit_with, quit_later, relink_in, new_tray,
  start_link, on_pairing_changed, on_state_changed, on_worker_gone, on_toggle_grab, on_pause,
  begin_shutdown, quit_now,
}
use toothkey.Tray.Reachable.{Reach, here, next, dialled, told, picked_toggle, offers}
use toothkey.Tray.Truthful.{IsTruthful, Reach-IsTruthful}
use toothkey.Tray.Relink.{unreached, failing, on_worker_gone-relinks}
use toothkey.Tray.Closing.{now_, later, begin_shutdown-ends}
use toothkey.Worker.Poller.{state_poller}
use toothkey.Worker.Poller.Current.{latest, Changes}
use toothkey.Tray.Polled.{hears, read_state, state_poller-hears}
use toothkey.Tray.Told.{line_of, Heard, on_toggle_grab-told}

-- a peer that is connected, with the grab or not
abbrev peer : Bool → State
peer grab = record {
  connected = true;
  name = some 5;
  mac = some 99;
  grab = grab;
  paused = false;
  pairing = false;
}

abbrev linked : Tray
linked = (start_link true new_tray).0

abbrev shown : Tray
shown = (on_state_changed 1000 (peer false) linked).0

abbrev asking : Tray
asking = (on_toggle_grab 2000 shown).0

reached : Reach asking
unfolding start_link on_state_changed on_pairing_changed refresh_ui rebuild_menu offers
reached =
    next (next (next here (dialled true refl)) (told 1000 (peer false) refl))
      (picked_toggle 2000 refl)

Reach-IsTruthful_example : IsTruthful asking
Reach-IsTruthful_example = Reach-IsTruthful reached

-- A state that was sent before the request came counts as a refusal.
stale_answer :
    (asking.indicator ≡ pulsing)
    × ((on_state_changed 2001 (peer false) asking).1 ≡ toast could_not_grab ∷ [])
unfolding start_link on_state_changed on_pairing_changed refresh_ui on_toggle_grab
stale_answer = (refl, refl)

-- After a pause with the grab on, the worker's state still has the grab, and the tooth is solid.
solid_while_paused :
    (on_state_changed 3001
      (record {
        connected = false;
        name = some 5;
        mac = none;
        grab = true;
        paused = true;
        pairing = false;
      })
      (on_pause 3000 (on_state_changed 2500 (peer true) linked).0).0).0.indicator
    ≡ solid
unfolding start_link on_state_changed on_pairing_changed refresh_ui on_pause
solid_while_paused = refl

-- A state that comes after Exit was picked brings the icon and the menu back.
back_while_closing :
    let t = (on_state_changed 2001 (peer true) (begin_shutdown false shown).0).0 in
    (t.shutting_down ≡ true) × (t.icon ≡ grabbed) × (t.menu ≡ rebuild_menu (peer true))
unfolding start_link on_state_changed on_pairing_changed refresh_ui begin_shutdown icon_of
back_while_closing = (refl, refl, refl)

on_worker_gone-relinks_example :
    ((on_worker_gone shown).1 ≡ relink_in 500 ∷ [])
    × ((start_link false (unreached 3 (on_worker_gone shown).0)).1
        ≡ failing 3 (min (1000 * 2 ^ 3) 5000))
unfolding start_link on_state_changed on_pairing_changed refresh_ui
on_worker_gone-relinks_example = on_worker_gone-relinks 3 shown refl

begin_shutdown-ends_example :
    ((begin_shutdown true shown).1 ≡ send Request.shutdown ∷ quit_later ∷ [])
    × ((on_worker_gone (on_state_changed 2001 (peer true) (begin_shutdown true shown).0).0).1
        ≡ spawn_restart ∷ exit_with 0 ∷ [])
    × ((quit_now (on_state_changed 2001 (peer true) (begin_shutdown true shown).0).0).1
        ≡ (on_worker_gone (on_state_changed 2001 (peer true) (begin_shutdown true shown).0).0).1)
unfolding start_link on_state_changed on_pairing_changed refresh_ui begin_shutdown
begin_shutdown-ends_example =
    begin_shutdown-ends true shown
      (on_state_changed 2001 (peer true) (begin_shutdown true shown).0).0 refl
      (later now_ (told 2001 (peer true) refl))

on_toggle_grab-told_example :
    let (t1, asked) = on_toggle_grab 2000 shown in
    let (w', answers, goes_on) =
      dispatch grabbers
        (line_of (Request.set_grab (not shown.state.grab)))
        2100
        nothing_found
        4
        worker in
    (asked ≡ send (Request.set_grab (not shown.state.grab)) ∷ [])
    × ((s : State) × (state_of grabbers answers ≡ some s)
        × Heard 2200 s t1 (not shown.state.grab) (running grabbers w'.handler))
on_toggle_grab-told_example =
    on_toggle_grab-told grabbers 2000 2200 2100 nothing_found 4 worker shown handler-IsHonest

state_poller-hears_example :
    let looks = some (peer false) ∷ none ∷ some (peer true) ∷ [] in
    let sent = state_poller none (some (peer false) ∷ looks) in
    Changes none sent
    × ((hears (λ n. 300 * n) 0 sent new_tray).state ≡ read_state (latest (some (peer false)) looks))
state_poller-hears_example =
    state_poller-hears (λ n. 300 * n) (some (peer false))
      (some (peer false) ∷ none ∷ some (peer true) ∷ []) new_tray
