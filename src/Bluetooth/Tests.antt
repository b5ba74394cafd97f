-- ===== src/Bluetooth/Tests.antt =====
-- Runs of the Bluetooth side, and the theorems about it at them.
use toothkey.Base.{
  ℕ, ◌≡◌, refl, Bool, true, false, some, none, List, [], ◌∷◌, arith, if◌then◌else◌, ◌==◌,
}
use toothkey.Bluetooth.Hid.{Turn, Look, watch_connection}
use toothkey.Bluetooth.Hid.Answers.{taken, answers, watch_connection-answers}
use toothkey.Bluetooth.Session.{
  Pair, Session, or_else, is_some_socket, paused_device_label, drop_client, disconnect_client,
  pause_client, unpause_client, stop, safe_send, promote_outbound_hid, inbound, woken,
  wait_for_client, accept_loop, accept_turn, begin_session, Early,
}
use toothkey.Bluetooth.Session
use toothkey.Bluetooth.Session.Dropped.{IsSession}

-- SET_IDLE before the sender is there, SET_PROTOCOL (report), GET_REPORT (input), and the end of the stream
abbrev setup : List Turn
setup =
    record { connected = true; received = some (0x90 ∷ []); queueing = false }
    ∷ record { connected = true; received = some (0x71 ∷ []); queueing = true }
    ∷ record { connected = true; received = some (0x41 ∷ []); queueing = true }
    ∷ record { connected = true; received = some []; queueing = true }
    ∷ []

setup-answers : answers (taken setup) ≡ (0 ∷ []) ∷ (0xA1 ∷ 0 ∷ 0 ∷ 0 ∷ 0 ∷ 0 ∷ 0 ∷ 0 ∷ 0 ∷ []) ∷ []
setup-answers = refl

watch_connection-answers_example : (watch_connection setup (some [])).0 ≡ answers (taken setup)
watch_connection-answers_example =
    watch_connection-answers setup (some []) ((omega arith, tt), ((omega arith, tt), tt))

-- a look at a session that is on and unused, at a time in milliseconds
abbrev at : ℕ → Look
at now = record { running = true; connected = true; engaged = false; now = now }

-- a worker that waits for its first peer
abbrev waiting : Session
waiting = record {
  running = true;
  connected = false;
  paused = false;
  control_socket = none;
  interrupt_socket = none;
  display_name = none;
  mac_address = none;
  paused_name = none;
  paused_mac = none;
  suppressed_until = 0;
  disconnect_event = false;
  reconnect_wake = false;
  outbound_pending = none;
  started_outbound = false;
  seen = none;
  queue = none;
  opened = λ f. false;
}

abbrev peer : Pair
peer = record { ctrl = 11; intr = 12; mac = 99 }

-- a wake-up for nothing, then the peer opens both channels
abbrev arrival : Bool → List Session.Turn
arrival paused =
    record { running = true; paused = paused; promoted = none; selected = woken }
    ∷ record { running = true; paused = paused; promoted = none; selected = inbound peer }
    ∷ record { running = false; paused = paused; promoted = none; selected = woken }
    ∷ []

-- a SET_IDLE before the sender is there
abbrev early : Early
early = record { heard = 9 ∷ []; lost = false }

abbrev begun : Bool × Session
begun = (
  true,
  record waiting {
    connected = true;
    control_socket = some 11;
    interrupt_socket = some 12;
    display_name = some 5;
    mac_address = some 99;
    seen = some (9 ∷ []);
    queue = some [];
    opened = λ f. if 12 == f then true else if 11 == f then true else false;
  },
)

abbrev refused : Bool × Session
refused = (
  false,
  record waiting {
    running = false;
    paused = true;
    opened = λ f.
        if 12 == f
        then false
        else if 11 == f
        then false
        else if 12 == f
        then true
        else if 11 == f
        then true
        else false;
  },
)

arrival-refused : wait_for_client (arrival true) true (some 5) early waiting ≡ some refused
unfolding wait_for_client accept_loop accept_turn begin_session
arrival-refused = refl

begun-IsSession : IsSession begun.1
begun-IsSession = record {
  tidy = λ f. ground arith;
  paired = refl;
  backed = λ e. refl;
  apart = λ f. refl;
}
