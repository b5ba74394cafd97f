-- ===== src/Tray/Handlers.antt =====
-- tray.py: the handlers of Tray, for the user's actions and the worker's messages. Times are
-- milliseconds of the monotonic clock.
use toothkey.Base.{
  ℕ, ◌+◌, ◌*◌, Bool, true, false, not, none, some, List, [], ◌∷◌, ◌++◌, if◌then◌else◌, min, ◌==◌,
}
use toothkey.Worker.Commands.{State}
use toothkey.Tray.View.{
  Tray, no_state, disconnected, shutting_down, quitting, waiting, reconnecting, restarting, closing,
  starting, hidden, pulsing, solid, rebuild_menu, refresh_ui,
}

-- the messages that the tray sends
pub data Request : Type 0 where
  client_hello disconnect pause unpause shutdown : Request
  set_grab set_pairing : Bool → Request

pub data Toast : Type 0 where
  keyboard_grabbed could_not_grab pairing_mode_on pairing_mode_off : Toast

-- What a handler does to the outside: `link.send`, a toast, the one notification that the worker
-- cannot be reached, the menu hidden or shown at the pointer, a timer for `_start_link`, the safety net of five seconds, or the end of the
-- event loop, after start.sh or the worker's restart was spawned.
pub data Effect : Type 0 where
  send : Request → Effect
  toast : Toast → Effect
  unreachable quit_later spawn_restart hide_menu popup_menu : Effect
  relink_in : ℕ → Effect
  exit_with : ℕ → Effect

abbrev pub relink_delay_min_ms : ℕ
relink_delay_min_ms = 500

abbrev pub relink_delay_max_ms : ℕ
relink_delay_max_ms = 5000

-- `Tray.__init__`: the menu is built before the state is set, from the same default
abbrev pub new_tray : Tray
new_tray = record {
  state = no_state;
  shutting_down = false;
  restart_on_quit = false;
  grab_pending = false;
  indicator = hidden;
  icon = disconnected;
  menu = rebuild_menu no_state;
  tooltip = starting;
  relink_attempts = 0;
  relink_delay_ms = relink_delay_min_ms;
  pairing_started_at = none;
  pairing_timer = false;
  linked = false;
}

-- `_schedule_relink`
unfoldable pub schedule_relink : Tray → Tray × List Effect
schedule_relink t = if t.shutting_down then (t, []) else (
  record t { relink_delay_ms = min (t.relink_delay_ms * 2) relink_delay_max_ms },
  relink_in t.relink_delay_ms ∷ [],
)

-- `_start_link`, with whether the worker's socket could be connected
unfoldable pub start_link : Bool → Tray → Tray × List Effect
unfolding schedule_relink
start_link reached t =
    let attempts = t.relink_attempts + 1 in
    let failed = record t {
      relink_attempts = attempts;
      icon = disconnected;
      tooltip = waiting attempts;
    } in
    let (t', later) = schedule_relink failed in
    let noted = if attempts == 1 then unreachable ∷ [] else [] in
    if t.shutting_down
    then (t, [])
    else if reached
    then (
      record t { relink_attempts = 0; relink_delay_ms = relink_delay_min_ms; linked = true },
      send client_hello ∷ [],
    )
    else (t', noted ++ later)

-- `_on_pairing_changed`
unfoldable pub on_pairing_changed : ℕ → Bool → Tray → Tray × List Effect
on_pairing_changed now pairing t = elim t.pairing_started_at [
  | none ↦
      if pairing
      then (
        record t { pairing_started_at = some now; pairing_timer = true },
        toast pairing_mode_on ∷ [],
      )
      else (t, [])
  | some since ↦ if pairing then (t, []) else (
    record t { pairing_started_at = none; pairing_timer = false },
    toast pairing_mode_off ∷ [],
  )
]

-- `_on_state_changed`
unfoldable pub on_state_changed : ℕ → State → Tray → Tray × List Effect
unfolding on_pairing_changed
on_state_changed now msg t =
    let (paired, announced) = on_pairing_changed now msg.pairing (record t { state = msg }) in
    let told =
      if t.grab_pending
      then toast (if msg.grab then keyboard_grabbed else could_not_grab) ∷ []
      else [] in
    (
      refresh_ui now
          (record paired { grab_pending = false; indicator = if msg.grab then solid else hidden }),
      announced ++ told,
    )

-- `_quit_now`
unfoldable pub quit_now : Tray → Tray × List Effect
quit_now t = (
  record t { indicator = hidden },
  (if t.restart_on_quit then spawn_restart ∷ [] else [])
      ++ exit_with (if t.restart_on_quit then 0 else 42) ∷ [],
)

-- `_on_worker_gone`
unfoldable pub on_worker_gone : Tray → Tray × List Effect
unfolding quit_now schedule_relink rebuild_menu
on_worker_gone t =
    if t.shutting_down
    then quit_now t
    else schedule_relink (record t {
      state = no_state;
      grab_pending = false;
      indicator = hidden;
      icon = disconnected;
      tooltip = reconnecting;
      menu = rebuild_menu no_state;
      linked = false;
      relink_attempts = 0;
      relink_delay_ms = relink_delay_min_ms;
    })

abbrev pub on_disconnect : Tray → Tray × List Effect
on_disconnect t = (t, send disconnect ∷ [])

-- `_on_pause`
unfoldable pub on_pause : ℕ → Tray → Tray × List Effect
on_pause now t = (
  refresh_ui now (record t {
    grab_pending = false;
    indicator = hidden;
    state = record (t.state) { connected = false; paused = true; grab = false };
  }),
  send pause ∷ [],
)

-- `_on_unpause`
unfoldable pub on_unpause : ℕ → Tray → Tray × List Effect
on_unpause now t =
    (refresh_ui now (record t { state = record (t.state) { paused = false } }), send unpause ∷ [])

-- `_on_toggle_grab`
unfoldable pub on_toggle_grab : ℕ → Tray → Tray × List Effect
on_toggle_grab now t =
    let on = not t.state.grab in
    (
      refresh_ui now (record t {
        state = record (t.state) { grab = on };
        grab_pending = on;
        indicator = if on then pulsing else hidden;
      }),
      send (set_grab on) ∷ [],
    )

-- `_on_activated`, for a left or middle click
unfoldable pub on_activated : ℕ → Bool → Tray → Tray × List Effect
on_activated now menu_visible t =
    if menu_visible
    then (t, hide_menu ∷ [])
    else if t.state.connected
    then on_toggle_grab now t
    else (t, popup_menu ∷ [])

-- `_on_indicator_clicked`
unfoldable pub on_indicator_clicked : ℕ → Tray → Tray × List Effect
on_indicator_clicked now t = (
  refresh_ui now (record t {
    grab_pending = false;
    indicator = hidden;
    state = record (t.state) { grab = false };
  }),
  send (set_grab false) ∷ [],
)

-- `_on_toggle_pairing`
abbrev pub on_toggle_pairing : Tray → Tray × List Effect
on_toggle_pairing t = (t, send (set_pairing (not t.state.pairing)) ∷ [])

-- `_begin_shutdown`
unfoldable pub begin_shutdown : Bool → Tray → Tray × List Effect
begin_shutdown restart t = if t.shutting_down then (t, []) else (
  record t {
    shutting_down = true;
    restart_on_quit = restart;
    icon = shutting_down;
    tooltip = if restart then restarting else closing;
    menu = quitting restart ∷ [];
  },
  send shutdown ∷ quit_later ∷ [],
)
