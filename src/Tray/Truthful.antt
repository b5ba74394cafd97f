-- ===== src/Tray/Truthful.antt =====
-- What the tray shows, against its state.
use toothkey.Base.{
  ℕ, ◌≡◌, refl, Bool, true, false, not, ◌&&◌, arith, if◌then◌else◌, Bool-cases, inl, inr,
}
use toothkey.Worker.Commands.{State}
use toothkey.Tray.View.{
  Indicator, Tray, hidden, pulsing, solid, rebuild_menu, icon_of, on_pairing_tick,
}
use toothkey.Tray.Handlers.{
  start_link, schedule_relink, on_state_changed, on_worker_gone, on_pause, on_unpause,
  on_toggle_grab, on_activated, on_indicator_clicked, begin_shutdown,
}
use toothkey.Tray.Reachable.{
  offers, is_pause, is_toggle, Step, Reach, dialled, told, gone, ticked, clicked, picked_pause,
  picked_unpause, picked_toggle, clicked_indicator, picked_exit, here, next,
}
use toothkey.Tray.Shows.{
  on_pairing_tick-Ticked, Shows, refresh_ui-Shows, on_pairing_changed-Announced,
}

-- the tooth: pulsing while a grab is asked for and not confirmed, solid while the worker has it
abbrev pub indicator_of : Bool → Bool → Indicator
indicator_of grabbed pending = if grabbed then (if pending then pulsing else solid) else hidden

-- no peer, no pause and no grab
abbrev pub is_idle : State → Bool
is_idle s = not s.connected && (not s.paused && not s.grab)

pub record IsTruthful (t : Tray) : Type 0 where
  pub indicator : t.indicator ≡ indicator_of t.state.grab t.grab_pending
  pub pending : t.grab_pending ≡ true → t.state.grab ≡ true
  pub icon : t.shutting_down ≡ false → t.icon ≡ icon_of t.state
  pub menu : t.shutting_down ≡ false → t.menu ≡ rebuild_menu t.state
  pub idle : t.shutting_down ≡ false → t.linked ≡ false → is_idle t.state ≡ true

pause_connected : (s : State) → offers is_pause (rebuild_menu s) ≡ true → s.connected ≡ true
unfolding rebuild_menu offers
pause_connected s h = ground arith

toggle_connected : (s : State) → offers is_toggle (rebuild_menu s) ≡ true → s.connected ≡ true
unfolding rebuild_menu offers
toggle_connected s h = ground arith

shown-IsTruthful :
    (s t : Tray)
    → Shows s t
    → s.indicator ≡ indicator_of s.state.grab s.grab_pending
    → (s.grab_pending ≡ true → s.state.grab ≡ true)
    → (s.shutting_down ≡ false → s.linked ≡ false → is_idle s.state ≡ true)
    → IsTruthful t
shown-IsTruthful s t v i p q = record {
  indicator = rw (v.indicator, v.pending, v.state) i;
  pending = rw (v.pending, v.state) p;
  icon = λ r. rw v.state v.icon;
  menu = λ r. rw v.state v.menu;
  idle = rw (v.shutting_down, v.linked, v.state) q;
}

on_toggle_grab-IsTruthful :
    (now : ℕ) (t : Tray)
    → IsTruthful t
    → (t.shutting_down ≡ false → t.state.connected ≡ true)
    → IsTruthful (on_toggle_grab now t).0
unfolding on_toggle_grab
on_toggle_grab-IsTruthful now t v c =
    shown-IsTruthful _ _ (refresh_ui-Shows now _) (ground arith) (λ r. r)
      (λ open_ unlinked. absurd (ground (arith, c open_, v.idle open_ unlinked)))

start_link-IsTruthful :
    (reached : Bool) (t : Tray)
    → t.linked ≡ false
    → IsTruthful t
    → IsTruthful (start_link reached t).0
unfolding start_link schedule_relink icon_of
start_link-IsTruthful reached t unlinked v = elim (Bool-cases t.shutting_down) [
  | inl closing ↦ simp closing v
  | inr open_ ↦ elim (Bool-cases reached) [
    | inl yes_ ↦
        simp (open_, yes_)
          (record {
            indicator = v.indicator;
            pending = v.pending;
            icon = λ r. v.icon open_;
            menu = λ r. v.menu open_;
            idle = λ r l. cc;
          })
    | inr no_ ↦
        let idle = v.idle open_ unlinked in
        simp (open_, no_)
          (record {
            indicator = v.indicator;
            pending = v.pending;
            icon = λ r. ground (arith, idle);
            menu = λ r. v.menu open_;
            idle = λ r l. idle;
          })
  ]
]

on_state_changed-IsTruthful :
    (now : ℕ) (msg : State) (t : Tray) → t.linked ≡ true → IsTruthful (on_state_changed now msg t).0
unfolding on_state_changed
on_state_changed-IsTruthful now msg t linked =
    let t0 = record t { state = msg } in
    let (state, pending, closing, link, restarts) =
      on_pairing_changed-Announced now msg.pairing t0 in
    shown-IsTruthful _ _ (refresh_ui-Shows now _) (ground (arith, state)) (λ r. cc)
      (λ open_ unlinked. absurd (ground (arith, link)))

on_worker_gone-IsTruthful : (t : Tray) → t.shutting_down ≡ false → IsTruthful (on_worker_gone t).0
unfolding on_worker_gone schedule_relink icon_of
on_worker_gone-IsTruthful t open_ = simp open_ (record {
  indicator = refl;
  pending = λ r. cc;
  icon = λ r. refl;
  menu = λ r. refl;
  idle = λ r l. refl;
})

on_pairing_tick-IsTruthful :
    (now : ℕ) (t : Tray) → IsTruthful t → IsTruthful (on_pairing_tick now t)
on_pairing_tick-IsTruthful now t v =
    let (s, i, p, c, l, r, shown, m) = on_pairing_tick-Ticked now t in
    record {
      indicator = rw (i, s, p) v.indicator;
      pending = rw (p, s) v.pending;
      icon = rw (c, shown, s) v.icon;
      menu = rw (c, m, s) v.menu;
      idle = rw (c, l, s) v.idle;
    }

on_activated-IsTruthful :
    (now : ℕ) (menu_visible : Bool) (t : Tray)
    → IsTruthful t
    → IsTruthful (on_activated now menu_visible t).0
unfolding on_activated
on_activated-IsTruthful now true t v = v
on_activated-IsTruthful now false t v = elim (Bool-cases t.state.connected) [
  | inl peer ↦ simp peer (on_toggle_grab-IsTruthful now t v (λ r. peer))
  | inr none_ ↦ simp none_ v
]

on_pause-IsTruthful :
    (now : ℕ) (t : Tray)
    → IsTruthful t
    → (t.shutting_down ≡ false → t.state.connected ≡ true)
    → IsTruthful (on_pause now t).0
unfolding on_pause
on_pause-IsTruthful now t v c =
    shown-IsTruthful _ _ (refresh_ui-Shows now _) refl (λ r. cc)
      (λ open_ unlinked. absurd (ground (arith, c open_, v.idle open_ unlinked)))

on_unpause-IsTruthful : (now : ℕ) (t : Tray) → IsTruthful t → IsTruthful (on_unpause now t).0
unfolding on_unpause
on_unpause-IsTruthful now t v =
    shown-IsTruthful _ _ (refresh_ui-Shows now _) v.indicator v.pending
      (λ open_ unlinked. ground (arith, v.idle open_ unlinked))

on_indicator_clicked-IsTruthful :
    (now : ℕ) (t : Tray) → IsTruthful t → IsTruthful (on_indicator_clicked now t).0
unfolding on_indicator_clicked
on_indicator_clicked-IsTruthful now t v =
    shown-IsTruthful _ _ (refresh_ui-Shows now _) refl (λ r. cc)
      (λ open_ unlinked. ground (arith, v.idle open_ unlinked))

begin_shutdown-IsTruthful :
    (restarts : Bool) (t : Tray) → IsTruthful t → IsTruthful (begin_shutdown restarts t).0
unfolding begin_shutdown
begin_shutdown-IsTruthful restarts t v = elim (Bool-cases t.shutting_down) [
  | inl closing ↦ simp closing v
  | inr open_ ↦ simp open_ (record {
    indicator = v.indicator;
    pending = v.pending;
    icon = λ r. cc;
    menu = λ r. cc;
    idle = λ r. cc;
  })
]

Step-IsTruthful : {s t : Tray} → Step s t → IsTruthful s → IsTruthful t
Step-IsTruthful {s} (dialled reached unlinked) v = start_link-IsTruthful reached s unlinked v
Step-IsTruthful {s} (told now msg linked) v = on_state_changed-IsTruthful now msg s linked
Step-IsTruthful {s} (gone linked open_) v = on_worker_gone-IsTruthful s open_
Step-IsTruthful {s} (ticked now) v = on_pairing_tick-IsTruthful now s v
Step-IsTruthful {s} (clicked now menu_visible) v = on_activated-IsTruthful now menu_visible s v
Step-IsTruthful {s} (picked_pause now offered) v =
    on_pause-IsTruthful now s v (λ open_. pause_connected s.state (rw (v.menu open_) at offered))
Step-IsTruthful {s} (picked_unpause now offered) v = on_unpause-IsTruthful now s v
Step-IsTruthful {s} (picked_toggle now offered) v =
    on_toggle_grab-IsTruthful now s v
      (λ open_. toggle_connected s.state (rw (v.menu open_) at offered))
Step-IsTruthful {s} (clicked_indicator now visible) v = on_indicator_clicked-IsTruthful now s v
Step-IsTruthful {s} (picked_exit restarts offered) v = begin_shutdown-IsTruthful restarts s v

-- In every state of the tray that its handlers lead to: the indicator is hidden exactly if the
-- state has no grab, it pulses exactly while a grab is asked for and not yet answered, and is solid
-- otherwise; a grab is pending only if the state has it; and until a shutdown is asked for, the icon
-- and the menu are those of the state, which without a connection to the worker has no peer, no
-- pause and no grab.
pub Reach-IsTruthful : {t : Tray} → Reach t → IsTruthful t
unfolding icon_of
Reach-IsTruthful here = record {
  indicator = refl;
  pending = λ r. cc;
  icon = λ r. refl;
  menu = λ r. refl;
  idle = λ r l. refl;
}
Reach-IsTruthful (next reached step) = Step-IsTruthful step (Reach-IsTruthful reached)
