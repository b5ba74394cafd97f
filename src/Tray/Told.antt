-- ===== src/Tray/Told.antt =====
-- The tray's request for the grab through the worker and back: tray.py, worker.py and
-- keyboard_handler.py together.
use toothkey.Base.{
  ℕ, ◌≡◌, refl, Bool, false, not, some, List, [], ◌∷◌, ◌++◌, ◌∙◌, ap, if◌then◌else◌,
}
use toothkey.Policy.Capture.{Capture}
use toothkey.Policy.Handler.{running}
use toothkey.Policy.Handler.Honest.{IsHonest}
use toothkey.Worker.Commands.{State, World, Line, dispatch}
use toothkey.Worker.Commands.Released.{state_of, set_grab-state}
use toothkey.Tray.View.{Tray, hidden, solid, icon_of}
use toothkey.Tray.Handlers.{
  Request, Effect, send, toast, keyboard_grabbed, could_not_grab, on_pairing_changed,
  on_state_changed, on_toggle_grab,
}
use toothkey.Tray.Shows.{on_pairing_changed-Announced, refresh_ui-Shows}

-- the line that the worker reads
abbrev pub line_of : Request → Line
line_of Request.client_hello = Line.client_hello
line_of Request.disconnect = Line.disconnect
line_of Request.pause = Line.pause
line_of Request.unpause = Line.unpause
line_of Request.shutdown = Line.shut_down
line_of (Request.set_grab on) = Line.set_grab on
line_of (Request.set_pairing on) = Line.set_pairing on

pub on_state_changed-shows :
    (now : ℕ) (msg : State) (t : Tray)
    → let t' = (on_state_changed now msg t).0 in
      (t'.indicator ≡ (if msg.grab then solid else hidden))
      × (t'.state ≡ msg)
      × (t'.grab_pending ≡ false)
      × (t'.icon ≡ icon_of msg)
unfolding on_state_changed
on_state_changed-shows now msg t =
    let (state, pending, closing, link, restarts) =
      on_pairing_changed-Announced now msg.pairing (record t { state = msg }) in
    let v = refresh_ui-Shows now _ in
    (v.indicator, v.state ∙ state, v.pending, v.icon ∙ ap icon_of state)

-- the toast that answers a pending request
abbrev pub verdict : Bool → Bool → List Effect
verdict pending got =
    if pending then toast (if got then keyboard_grabbed else could_not_grab) ∷ [] else []

on_state_changed-toasts :
    (now : ℕ) (msg : State) (t : Tray)
    → (on_state_changed now msg t).1
      ≡ (on_pairing_changed now msg.pairing (record t { state = msg })).1
        ++ verdict t.grab_pending msg.grab
unfolding on_state_changed
on_state_changed-toasts now msg t = refl

on_toggle_grab-pending :
    (now : ℕ) (t : Tray) → (on_toggle_grab now t).0.grab_pending ≡ not t.state.grab
unfolding on_toggle_grab
on_toggle_grab-pending now t = (refresh_ui-Shows now _).pending

-- A Tray that hears a state: `on` a grab was pending, and the worker has one or not.
abbrev pub Heard : ℕ → State → Tray → Bool → Bool → Type 0
Heard now s t on captured =
    ((on_state_changed now s t).0.indicator ≡ (if captured then solid else hidden))
    × ((on_state_changed now s t).0.grab_pending ≡ false)
    × ((on_state_changed now s t).1
        ≡ (on_pairing_changed now s.pairing (record t { state = s })).1 ++ verdict on captured)

on_state_changed-Heard :
    (now : ℕ) (s : State) (t : Tray) (on captured : Bool)
    → t.grab_pending ≡ on
    → s.grab ≡ captured
    → Heard now s t on captured
on_state_changed-Heard now s t on captured pends got =
    let (indicator, state, pending, icon) = on_state_changed-shows now s t in
    let toasts = on_state_changed-toasts now s t in
    let told = (on_pairing_changed now s.pairing (record t { state = s })).1 in
    (
      indicator ∙ ap (λ (g : Bool). if g then solid else hidden) got,
      pending,
      toasts
          ∙ ap (λ (p : Bool). told ++ verdict p s.grab) pends
          ∙ ap (λ (g : Bool). told ++ verdict on g) got,
    )

-- With an honest keyboard handler in the worker: when the user toggles the grab, the tray sends the
-- request, the worker answers it with a state, and once the tray has that state its indicator is
-- solid if the keyboards are captured and hidden if they are not, nothing is pending, and a request
-- to grab (and no other) is answered with a toast that says which of the two it is.
pub on_toggle_grab-told :
    (C : Capture) (sent_at answered_at now : ℕ) (scan : C.Scan) (done : ℕ) (w : World C) (t : Tray)
    → IsHonest C w.handler
    → let on = not t.state.grab in
      let (t1, asked) = on_toggle_grab sent_at t in
      let (w', answers, goes_on) = dispatch C (line_of (Request.set_grab on)) now scan done w in
      let captured = running C w'.handler in
      (asked ≡ send (Request.set_grab on) ∷ [])
      × ((s : State) × (state_of C answers ≡ some s) × Heard answered_at s t1 on captured)
unfolding on_toggle_grab
on_toggle_grab-told C sent_at answered_at now scan done w t v =
    let (s, heard, got, connected) = set_grab-state C (not t.state.grab) now scan done w v in
    let asked = on_toggle_grab-pending sent_at t in
    (refl, (s, heard, on_state_changed-Heard answered_at s _ _ _ asked got))
