-- ===== src/Tray/Shows.antt =====
-- What the drawing functions of the tray change, and what they keep.
use toothkey.Base.{ℕ, ◌≡◌, refl, Bool, arith}
use toothkey.Tray.View.{Tray, rebuild_menu, icon_of, tooltip_of, refresh_ui, on_pairing_tick}
use toothkey.Tray.Handlers.{on_pairing_changed}

-- A tick of the pairing countdown changes the tooltip and the timer only.
abbrev pub Ticked : Tray → Tray → Type 0
Ticked s t =
    (t.state ≡ s.state)
    × (t.indicator ≡ s.indicator)
    × (t.grab_pending ≡ s.grab_pending)
    × (t.shutting_down ≡ s.shutting_down)
    × (t.linked ≡ s.linked)
    × (t.restart_on_quit ≡ s.restart_on_quit)
    × (t.icon ≡ s.icon)
    × (t.menu ≡ s.menu)

pub on_pairing_tick-Ticked : (now : ℕ) (t : Tray) → Ticked t (on_pairing_tick now t)
unfolding on_pairing_tick
on_pairing_tick-Ticked now t = ground arith

-- `_refresh_ui_from_state` shows the state, and changes nothing else that counts here.
pub record Shows (s : Tray) (t : Tray) : Type 0 where
  pub icon : t.icon ≡ icon_of s.state
  pub menu : t.menu ≡ rebuild_menu s.state
  pub state : t.state ≡ s.state
  pub indicator : t.indicator ≡ s.indicator
  pub pending : t.grab_pending ≡ s.grab_pending
  pub shutting_down : t.shutting_down ≡ s.shutting_down
  pub linked : t.linked ≡ s.linked
  pub restarts : t.restart_on_quit ≡ s.restart_on_quit

pub refresh_ui-Shows : (now : ℕ) (t : Tray) → Shows t (refresh_ui now t)
unfolding refresh_ui
refresh_ui-Shows now t =
    let shown = record t { icon = icon_of t.state; tooltip = tooltip_of t.state } in
    let (s, i, p, c, l, r, icon, m) = on_pairing_tick-Ticked now shown in
    record {
      icon = ground (arith, icon);
      menu = refl;
      state = ground (arith, s);
      indicator = ground (arith, i);
      pending = ground (arith, p);
      shutting_down = ground (arith, c);
      linked = ground (arith, l);
      restarts = ground (arith, r);
    }

-- `_on_pairing_changed` changes the pairing countdown only.
abbrev pub Announced : Tray → Tray → Type 0
Announced s t =
    (t.state ≡ s.state)
    × (t.grab_pending ≡ s.grab_pending)
    × (t.shutting_down ≡ s.shutting_down)
    × (t.linked ≡ s.linked)
    × (t.restart_on_quit ≡ s.restart_on_quit)

pub on_pairing_changed-Announced :
    (now : ℕ) (on : Bool) (t : Tray) → Announced t (on_pairing_changed now on t).0
unfolding on_pairing_changed
on_pairing_changed-Announced now on t = ground arith
