-- ===== src/Bluetooth/Paging/Tests.antt =====
-- Pages, and the theorem about the channels at one.
use toothkey.Base.{ℕ, ◌≡◌, ◌+◌, ◌==◌, refl, Bool, true, false, Option, none, some}
use toothkey.Bluetooth.Session.{Session}
use toothkey.Bluetooth.Paging.{Page, Attempt, no_socket, closed, held, try_outbound_reconnect}

abbrev page : Option Bool → Bool → Page
page paired connects = record {
  addressed = true;
  bus = true;
  powered = true;
  known = true;
  paired = paired;
  connected = some false;
  connects = connects;
}

-- A peer that is not bonded is never paged, and a page holds its socket exactly if it gets through.
pages :
    (try_outbound_reconnect (page (some false) true) ≡ (false, no_socket))
    × (try_outbound_reconnect (page none true) ≡ (false, no_socket))
    × (try_outbound_reconnect (page (some true) true) ≡ (true, held))
    × (try_outbound_reconnect (page (some true) false) ≡ (false, closed))
unfolding try_outbound_reconnect
pages = (refl, refl, refl, refl)

abbrev waiting : Session
waiting = record {
  running = true;
  connected = false;
  paused = false;
  control_socket = none;
  interrupt_socket = none;
  display_name = none;
  mac_address = none;
  paused_name = none;
  paused_mac = none;
  suppressed_until = 0;
  disconnect_event = false;
  reconnect_wake = false;
  outbound_pending = none;
  started_outbound = false;
  seen = none;
  queue = none;
  opened = λ f. false;
}

-- The interrupt channel is refused at first, and opens on the second attempt.
abbrev attempts : ℕ → Attempt
attempts left = record {
  connected = false;
  running = true;
  sockets = record { ctrl = 20 + left; intr = 30 + left; mac = 99 };
  control_ok = true;
  interrupt_ok = left == 1;
  acl = true;
}
