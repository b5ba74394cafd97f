-- ===== src/Tray/View.antt =====
-- tray.py: the icon, the menu, the tooltip and the floating indicator of Tray. A label is a name
-- or an address, and `none` the word 'device'.
use toothkey.Base.{
  ℕ, ◌-◌, ◌/◌, Bool, false, Option, none, some, List, [], ◌∷◌, ◌++◌, if◌then◌else◌, leb,
}
use toothkey.Worker.Commands.{State}

pub data Icon : Type 0 where
  disconnected connected paused grabbed shutting_down : Icon

-- the actions of the menu, `quitting` being disabled
pub data Item : Type 0 where
  unpause disconnect pause : Option ℕ → Item
  separator grab ungrab pairing_off pairing_on open_log restart exit : Item
  quitting : Bool → Item

pub data Tooltip : Type 0 where
  starting reconnecting restarting closing : Tooltip
  waiting : ℕ → Tooltip
  paused_peer : Option ℕ → Tooltip
  connected_to : Option ℕ → Bool → Tooltip
  not_connected : Bool → Tooltip
  pairing_left : ℕ → Tooltip

-- the floating tooth: hidden, pulsing (`show_pending`) or solid (`show_active`)
pub data Indicator : Type 0 where
  hidden pulsing solid : Indicator

-- `_state` as it is first, and after the worker is gone
abbrev pub no_state : State
no_state = record {
  connected = false;
  name = none;
  mac = none;
  grab = false;
  paused = false;
  pairing = false;
}

-- The attributes of a Tray. `linked` is whether there is a connection to the worker.
pub record Tray : Type 0 where
  pub state : State
  pub shutting_down : Bool
  pub restart_on_quit : Bool
  pub grab_pending : Bool
  pub indicator : Indicator
  pub icon : Icon
  pub menu : List Item
  pub tooltip : Tooltip
  pub relink_attempts : ℕ
  pub relink_delay_ms : ℕ
  pub pairing_started_at : Option ℕ
  pub pairing_timer : Bool
  pub linked : Bool

-- `s.get('name') or s.get('mac')`
abbrev pub label : State → Option ℕ
label s = elim s.name [ some n ↦ some n | none ↦ s.mac ]

abbrev pub peer_items : State → List Item
peer_items s =
    if s.paused
    then unpause (label s) ∷ separator ∷ []
    else if s.connected
    then (disconnect (label s)
        ∷ pause (label s)
        ∷ separator
        ∷ (if s.grab then ungrab else grab)
        ∷ separator
        ∷ [])
    else []

-- `_rebuild_menu`
unfoldable pub rebuild_menu : State → List Item
rebuild_menu s =
    peer_items s
    ++ (if s.pairing then pairing_off else pairing_on)
      ∷ separator
      ∷ open_log
      ∷ separator
      ∷ restart
      ∷ exit
      ∷ []

-- the icon and the tooltip of `_refresh_ui_from_state`
unfoldable pub icon_of : State → Icon
icon_of s =
    if s.paused
    then paused
    else if s.connected
    then (if s.grab then grabbed else connected)
    else disconnected

unfoldable pub tooltip_of : State → Tooltip
tooltip_of s =
    if s.paused
    then paused_peer (label s)
    else if s.connected
    then connected_to (label s) s.grab
    else not_connected s.grab

-- `PAIRING_WINDOW_S`
abbrev pub pairing_window_s : ℕ
pairing_window_s = 120

-- `_on_pairing_tick`, with the time in milliseconds
unfoldable pub on_pairing_tick : ℕ → Tray → Tray
on_pairing_tick now t = elim t.pairing_started_at [
  | none ↦ record t { pairing_timer = false }
  | some since ↦
      let elapsed = (now - since) / 1000 in
      if leb pairing_window_s elapsed
      then record t { pairing_timer = false }
      else record t { tooltip = pairing_left (pairing_window_s - elapsed) }
]

-- `_refresh_ui_from_state`
unfoldable pub refresh_ui : ℕ → Tray → Tray
refresh_ui now t =
    let shown = record t { icon = icon_of t.state; tooltip = tooltip_of t.state } in
    let ticked : Tray = elim t.pairing_started_at [
      | none ↦ shown
      | some since ↦ on_pairing_tick now shown
    ] in
    record ticked { menu = rebuild_menu t.state }
