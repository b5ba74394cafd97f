-- ===== src/Worker/Commands/Released.antt =====
-- The grab at the end of a tray's connection, and what the tray is told.
use toothkey.Base.{
  ℕ, ◌≡◌, refl, Bool, true, false, not, ◌&&◌, ◌||◌, Option, none, some, List, [], ◌∷◌, arith,
  if◌then◌else◌, Bool-cases, inl, inr, ◌∙◌, sym, All,
}
use toothkey.Policy.Capture.{Capture}
use toothkey.Policy.Handler.{Handler, running, start_listener, stop_listener}
use toothkey.Policy.Handler.Honest.{
  IsHonest, idle_of_accounts, set_grab_mode-Reached, stop_grab-IsHonest,
}
use toothkey.Policy.Handler.Reachable.{shutdown-IsHonest, start_listener-IsHonest}
use toothkey.Policy.Handler.Release.{set_grab_mode_off, set_grab_mode_off-Idle}
use toothkey.Worker.Commands.{
  State, Message, hello, shutdown_ack, state, World, Line, skipped, no_object, client_hello,
  disconnect, pause, unpause, shut_down, unknown, set_pairing, set_grab, Turn, current_state,
  dispatch, let_go, command_reader, run_connection_session, exit_code,
}

module _ (C : Capture) where
  open C use {Scan, Idle}

  -- The other threads leave an honest handler honest.
  abbrev pub IsFair : Turn C → Type 0
  IsFair t = (w : World C) → IsHonest C w.handler → IsHonest C (t.meanwhile w).handler

  dispatch-IsHonest :
      (line : Line) (now : ℕ) (scan : Scan) (done : ℕ) (w : World C)
      → IsHonest C w.handler
      → IsHonest C (dispatch C line now scan done w).0.handler
  unfolding dispatch
  dispatch-IsHonest (set_grab on) now scan done w v =
      (set_grab_mode-Reached C on w.session.connected scan w.handler v).honest
  dispatch-IsHonest shut_down now scan done w v = shutdown-IsHonest C w.handler v
  dispatch-IsHonest skipped now scan done w v = v
  dispatch-IsHonest no_object now scan done w v = v
  dispatch-IsHonest client_hello now scan done w v = v
  dispatch-IsHonest disconnect now scan done w v = v
  dispatch-IsHonest pause now scan done w v = v
  dispatch-IsHonest unpause now scan done w v = v
  dispatch-IsHonest unknown now scan done w v = v
  dispatch-IsHonest (set_pairing on) now scan done w v = v

  -- No grab: none is asked for, none is held, and the kernel has none.
  pub record IsReleased (h : Handler C) : Type 0 where
    pub mode : h.grab_mode ≡ false
    pub idle : running C h ≡ false
    pub kernel : Idle h.kernel

  let_go-IsReleased :
      (scan : Scan) (w : World C) → IsHonest C w.handler → IsReleased (let_go C scan w).handler
  unfolding let_go
  let_go-IsReleased scan w v = elim (Bool-cases (w.handler.grab_mode || running C w.handler)) [
    | inl held ↦
        let peer = w.session.connected in
        let r = set_grab_mode-Reached C false peer scan w.handler v in
        let off = set_grab_mode_off C peer scan w.handler in
        simp held (record {
          mode = r.mode ∙ off;
          idle = r.captured ∙ off;
          kernel = set_grab_mode_off-Idle C peer scan w.handler v;
        })
    | inr free ↦ simp free (record {
      mode = ground arith;
      idle = ground arith;
      kernel = idle_of_accounts C w.handler.grabber w.handler.kernel v.accounts (ground arith);
    })
  ]

  -- From an honest handler, which the other threads keep honest: however a tray's connection ends
  -- (it closes, breaks off, sends nonsense or asks the worker to shut down) and whatever it asked
  -- for, the keyboards are released: no grab is armed, none is held, and the kernel has none.
  pub command_reader-IsReleased :
      (turns : List (Turn C)) (scan : Scan) (w : World C)
      → IsHonest C w.handler
      → All IsFair turns
      → IsReleased (command_reader C turns scan w).0.handler
  unfolding command_reader
  command_reader-IsReleased [] scan w v fair = let_go-IsReleased scan w v
  command_reader-IsReleased (t ∷ turns) scan w v fair =
      let w0 = t.meanwhile w in
      let (w', sent, goes_on) = dispatch C t.line t.now t.scan t.done w0 in
      let v' = dispatch-IsHonest t.line t.now t.scan t.done w0 (fair.0 w v) in
      elim (Bool-cases goes_on) [
        | inl more ↦ simp more (command_reader-IsReleased turns scan w' v' fair.1)
        | inr over ↦ simp over (let_go-IsReleased scan w' v')
      ]

  abbrev pub state_of : List Message → Option State
  state_of [] = none
  state_of (hello ∷ more) = state_of more
  state_of (shutdown_ack ∷ more) = state_of more
  state_of (state s ∷ more) = some s

  -- With an honest handler, a request for the grab is answered at once with a state that is so:
  -- its grab is on exactly if capture runs, whether or not the request was honoured.
  pub set_grab-state :
      (on : Bool) (now : ℕ) (scan : Scan) (done : ℕ) (w : World C)
      → IsHonest C w.handler
      → let (w', sent, goes_on) = dispatch C (set_grab on) now scan done w in
        (s : State) × (state_of sent ≡ some s)
        × (s.grab ≡ running C w'.handler)
        × (s.connected ≡ w.session.connected)
  unfolding dispatch current_state
  set_grab-state on now scan done w v =
      let r = set_grab_mode-Reached C on w.session.connected scan w.handler v in
      (_, refl, r.mode ∙ sym r.captured, refl)

  -- From an honest handler, which what happens in the session keeps honest: when the session ends,
  -- no keyboard is held any more, the kernel has no grab, and the handler is honest.
  pub run_connection_session-released :
      (peer : Bool) (scan : Scan) (meanwhile : Handler C → Handler C) (h : Handler C)
      → ((g : Handler C) → IsHonest C g → IsHonest C (meanwhile g))
      → IsHonest C h
      → let ended = run_connection_session C peer scan meanwhile h in
        (running C ended ≡ false) × Idle ended.kernel × IsHonest C ended
  unfolding run_connection_session stop_listener
  run_connection_session-released peer scan meanwhile h fair v =
      let begun =
        if h.grab_mode && not (running C h) then (start_listener C peer scan h).0 else h in
      let honest : IsHonest C begun = elim (Bool-cases (h.grab_mode && not (running C h))) [
        | inl resumes ↦ simp resumes (start_listener-IsHonest C peer scan h v)
        | inr stays ↦ simp stays v
      ] in
      let ended = stop_grab-IsHonest C (meanwhile begun) (fair begun honest) in
      (refl, ended.accounts, ended)

  abbrev pub is_shutdown : Line → Bool
  is_shutdown shut_down = true
  is_shutdown _ = false

  abbrev pub ends : Line → Bool
  ends shut_down = true
  ends no_object = true
  ends _ = false

  -- Does the tray ask for a shutdown in a line that is read?
  abbrev pub asks_shutdown : List (Turn C) → Bool
  asks_shutdown [] = false
  asks_shutdown (t ∷ turns) = is_shutdown t.line || (not (ends t.line) && asks_shutdown turns)

  abbrev Flags : Line → World C → World C × List Message × Bool → Type 0
  Flags line w (w', sent, goes_on) =
      (w'.user_initiated_shutdown ≡ (is_shutdown line || w.user_initiated_shutdown))
      × (goes_on ≡ not (ends line))

  dispatch-Flags :
      (line : Line) (now : ℕ) (scan : Scan) (done : ℕ) (w : World C)
      → Flags line w (dispatch C line now scan done w)
  unfolding dispatch
  dispatch-Flags (set_grab on) now scan done w = (refl, refl)
  dispatch-Flags shut_down now scan done w = (refl, refl)
  dispatch-Flags skipped now scan done w = (refl, refl)
  dispatch-Flags no_object now scan done w = (refl, refl)
  dispatch-Flags client_hello now scan done w = (refl, refl)
  dispatch-Flags disconnect now scan done w = (refl, refl)
  dispatch-Flags pause now scan done w = (refl, refl)
  dispatch-Flags unpause now scan done w = (refl, refl)
  dispatch-Flags unknown now scan done w = (refl, refl)
  dispatch-Flags (set_pairing on) now scan done w = (refl, refl)

  let_go-flag :
      (scan : Scan) (w : World C)
      → (let_go C scan w).user_initiated_shutdown ≡ w.user_initiated_shutdown
  unfolding let_go
  let_go-flag scan w = ground arith

  command_reader-flag :
      (turns : List (Turn C)) (scan : Scan) (w : World C)
      → All
          (λ (t : Turn C).
            (v : World C) → (t.meanwhile v).user_initiated_shutdown ≡ v.user_initiated_shutdown)
          turns
      → (command_reader C turns scan w).0.user_initiated_shutdown
        ≡ (w.user_initiated_shutdown || asks_shutdown turns)
  unfolding command_reader
  command_reader-flag [] scan w quiet = ground (arith, let_go-flag scan w)
  command_reader-flag (t ∷ turns) scan w quiet =
      let w0 = t.meanwhile w in
      let (w', sent, goes_on) = dispatch C t.line t.now t.scan t.done w0 in
      let (flag, more) = dispatch-Flags t.line t.now t.scan t.done w0 in
      ground (
        arith,
        quiet.0 w,
        flag,
        more,
        let_go-flag scan w',
        command_reader-flag turns scan w' quiet.1,
      )

  -- The worker exits with 42, which tells systemd to leave it down, exactly if a tray asked for the
  -- shutdown in a line that was read, or had before; else with 0. Other threads do not set the flag.
  pub exit_code-asked :
      (turns : List (Turn C)) (scan : Scan) (w : World C)
      → All
          (λ (t : Turn C).
            (v : World C) → (t.meanwhile v).user_initiated_shutdown ≡ v.user_initiated_shutdown)
          turns
      → exit_code C (command_reader C turns scan w).0
        ≡ (if w.user_initiated_shutdown || asks_shutdown turns then 42 else 0)
  unfolding exit_code
  exit_code-asked turns scan w quiet = ground (arith, command_reader-flag turns scan w quiet)
