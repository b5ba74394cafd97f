-- ===== src/Worker/Commands.antt =====
-- worker.py: _command_reader and what it calls, the trays served in series, _run_connection_session
-- and the exit code, over any capture layer.
pub mod Released
use toothkey.Base.{
  ℕ, ◌+◌, Bool, true, false, not, ◌&&◌, ◌||◌, Option, none, some, List, [], ◌∷◌, ◌++◌,
  if◌then◌else◌,
}
use toothkey.Policy.Capture.{Capture}
use toothkey.Policy.Handler
use toothkey.Policy.Handler.{Handler, running, set_grab_mode, start_listener, stop_listener}
use toothkey.Bluetooth.Session
use toothkey.Bluetooth.Session.{
  Session, disconnect_client, pause_client, unpause_client, paused_device_label,
}
use toothkey.Pairing.Window.{Pairing, is_pairing, set_pairing_mode, pairing_window_s}

-- `_current_state`
pub record State : Type 0 where
  pub connected : Bool
  pub name : Option ℕ
  pub mac : Option ℕ
  pub grab : Bool
  pub paused : Bool
  pub pairing : Bool

-- the messages to the tray
pub data Message : Type 0 where
  hello shutdown_ack : Message
  state : State → Message

-- A line from the tray: blank or no JSON, JSON that is no object, or a command by its type.
pub data Line : Type 0 where
  skipped no_object client_hello disconnect pause unpause shut_down unknown : Line
  set_pairing set_grab : Bool → Line

module _ (C : Capture) where
  open C use {Scan}

  -- The worker: the keyboard handler, the peer's session, the pairing window, and the flags
  -- `_shutdown` and `_user_initiated_shutdown`.
  pub record World : Type 0 where
    pub handler : Handler C
    pub session : Session
    pub pairing : Pairing
    pub shutdown : Bool
    pub user_initiated_shutdown : Bool

  -- `name`, or the label kept by the pause where there is none
  unfoldable pub current_state : ℕ → World → State
  current_state now w = record {
    connected = w.session.connected;
    name = elim w.session.display_name [
      | some name ↦ some name
      | none ↦ if w.session.paused then paused_device_label w.session else none
    ];
    mac = w.session.mac_address;
    grab = w.handler.grab_mode;
    paused = w.session.paused;
    pairing = is_pairing w.pairing.pairing_until now;
  }

  -- A line as it is read: what the other threads did to the worker before it, the time, what a scan
  -- of /dev/input would find, and how many D-Bus calls would succeed.
  pub record Turn : Type 0 where
    pub meanwhile : World → World
    pub line : Line
    pub now : ℕ
    pub scan : Scan
    pub done : ℕ

  -- One line: the worker after it, what is sent, and whether the loop goes on. JSON that is no
  -- object raises, which the reader catches on its way out.
  unfoldable pub dispatch : Line → ℕ → Scan → ℕ → World → World × List Message × Bool
  unfolding current_state
  dispatch skipped now scan done w = (w, [], true)
  dispatch no_object now scan done w = (w, [], false)
  dispatch client_hello now scan done w = (w, [], true)
  dispatch disconnect now scan done w =
      (record w { session = disconnect_client now w.session }, [], true)
  dispatch pause now scan done w = (record w { session = pause_client w.session }, [], true)
  dispatch unpause now scan done w = (record w { session = unpause_client w.session }, [], true)
  dispatch (set_pairing on) now scan done w =
      let w' = record w { pairing = (set_pairing_mode on pairing_window_s done now w.pairing).0 } in
      (w', state (current_state now w') ∷ [], true)
  dispatch (set_grab on) now scan done w =
      let w' = record w { handler = (set_grab_mode C on w.session.connected scan w.handler).0 } in
      (w', state (current_state now w') ∷ [], true)
  dispatch shut_down now scan done w = (
    record w {
      shutdown = true;
      user_initiated_shutdown = true;
      handler = Handler.shutdown C w.handler;
      session = Session.stop w.session;
    },
    shutdown_ack ∷ [],
    false,
  )
  dispatch unknown now scan done w = (w, [], true)

  -- the `finally` of `_command_reader`
  unfoldable pub let_go : Scan → World → World
  let_go scan w =
      if w.handler.grab_mode || running C w.handler
      then record w { handler = (set_grab_mode C false w.session.connected scan w.handler).0 }
      else w

  -- `_command_reader` over the lines up to the end of the stream or its breaking off; `scan` is what
  -- a scan would find then.
  unfoldable pub command_reader : List Turn → Scan → World → World × List Message
  unfolding dispatch let_go
  command_reader [] scan w = (let_go scan w, [])
  command_reader (t ∷ turns) scan w =
      let (w', sent, goes_on) = dispatch t.line t.now t.scan t.done (t.meanwhile w) in
      let rest = command_reader turns scan w' in
      if goes_on then (rest.0, sent ++ rest.1) else (let_go scan w', sent)

  -- `_serve_tray`
  unfoldable pub serve_tray : ℕ → List Turn → Scan → World → World × List Message
  unfolding command_reader
  serve_tray now turns scan w =
      let (w', sent) = command_reader turns scan w in
      (w', hello ∷ state (current_state now w) ∷ sent)

  -- `_run_connection_session`, with whether a peer is still connected when the grab is resumed, what a
  -- scan finds and what happens until the peer is gone; the result of `start_listener` is not used
  unfoldable pub run_connection_session :
      Bool → Scan → (Handler C → Handler C) → Handler C → Handler C
  run_connection_session peer scan meanwhile h =
      let resumed = (start_listener C peer scan h).0 in
      let begun = if h.grab_mode && not (running C h) then resumed else h in
      stop_listener C (meanwhile begun)

  -- what `main` returns at its end
  unfoldable pub exit_code : World → ℕ
  exit_code w = if w.user_initiated_shutdown then 42 else 0
