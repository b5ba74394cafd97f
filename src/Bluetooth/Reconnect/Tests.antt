-- ===== src/Bluetooth/Reconnect/Tests.antt =====
-- Turns of the watchdog, and the theorems about it at them. The numbers of the sockets are free.
use toothkey.Base.{
  ℕ, ◌≡◌, refl, ◌+◌, ◌≤◌, ◌++◌, Bool, true, false, none, some, List, [], ◌∷◌, All, arith, length,
}
use toothkey.Bluetooth.Session.{Session, promote_outbound_hid}
use toothkey.Bluetooth.Signals.{last_acl_drop_within}
use toothkey.Bluetooth.Paging.{
  Attempt, Hold, held, closed, hold_sdp_socket, try_outbound_reconnect, try_open_hid_outbound,
  open_attempts,
}
use toothkey.Bluetooth.Paging.Held.{is_over, hold_sdp_socket-closes}
use toothkey.Bluetooth.Reconnect.{
  Watch, Weather, is_refused, watchdog_turn, watchdog_loop, after_page, page_turn, quiet_turn,
  peer_turn, clear_and_wait, open_channels,
}
use toothkey.Bluetooth.Reconnect.Cadence.{IsPaced, watchdog_loop-IsPaced}
use toothkey.Bluetooth.Reconnect.Channels.{IsTidy, watchdog_turn-IsTidy}
use toothkey.Bluetooth.Reconnect.Persists.{Persists, watchdog_loop-Persists}

-- a peer that is known and away
abbrev away : Session
away = record {
  running = true;
  connected = false;
  paused = false;
  control_socket = none;
  interrupt_socket = none;
  display_name = none;
  mac_address = some 99;
  paused_name = none;
  paused_mac = none;
  suppressed_until = 0;
  disconnect_event = true;
  reconnect_wake = false;
  outbound_pending = none;
  started_outbound = false;
  seen = none;
  queue = none;
  opened = λ f. false;
}

-- both channels open at the first attempt
abbrev attempts : ℕ → Attempt
attempts left = record {
  connected = false;
  running = true;
  sockets = record { ctrl = 20 + left; intr = 30 + left; mac = 99 };
  control_ok = true;
  interrupt_ok = true;
  acl = true;
}

-- at a time, a page that gets through or not, and the time of the last drop
abbrev weather : ℕ → Bool → ℕ → Weather
weather now connects drop_at = record {
  now = now;
  powered = true;
  acl = false;
  page = record {
    addressed = true;
    bus = true;
    powered = true;
    known = true;
    paired = some true;
    connected = some false;
    connects = connects;
  };
  runs = true;
  looks = λ n. (false, true);
  connected_then = false;
  running_then = true;
  acl_then = connects;
  attempts = attempts;
  later = now + 9000;
  drop_at = drop_at;
  connected_after = false;
  woken = none;
}

abbrev fresh : Watch
fresh = record { churn_streak = 0; session_start = 1000; stuck_acl_since = none }

-- The peer has been away for ten minutes: the watchdog still pages every 30 seconds.
patient_page : (watchdog_turn (weather 601000 false 0) away fresh).timeout ≡ 30000
unfolding watchdog_turn peer_turn quiet_turn page_turn after_page try_outbound_reconnect
patient_page = refl

-- After the third refusal it waits for three minutes.
cooldown :
    (watchdog_turn (weather 601000 false 0) away (record fresh { churn_streak = 3 })).timeout
    ≡ 180000
unfolding watchdog_turn peer_turn quiet_turn
cooldown = refl

-- The page took six seconds, and the link dropped a second after it came up: no refusal is counted.
slow_page :
    (is_refused (weather 100000 true 104000) ≡ true)
    × (is_refused (weather 100000 true 107000) ≡ false)
unfolding is_refused last_acl_drop_within
slow_page = (refl, refl)

-- the second page is refused, then two that do not get through
abbrev days : List (Weather × Session)
days =
    (weather 20000 false 0, away)
    ∷ (weather 40000 true 42000, away)
    ∷ (weather 80000 false 42000, away)
    ∷ (weather 120000 false 42000, away)
    ∷ []

watchdog_loop-IsPaced_example : All IsPaced (watchdog_loop days (record fresh { churn_streak = 2 }))
watchdog_loop-IsPaced_example =
    watchdog_loop-IsPaced days (record fresh { churn_streak = 2 }) (omega arith)

watchdog_loop-Persists_example :
    (length (watchdog_loop days (record fresh { churn_streak = 2 })) ≡ 4)
    × Persists (watchdog_loop days (record fresh { churn_streak = 2 }))
watchdog_loop-Persists_example =
    watchdog_loop-Persists days (record fresh { churn_streak = 2 })
      ((refl, refl), ((refl, refl), ((refl, refl), ((refl, refl), tt))))

watchdog_turn-IsTidy_example :
    IsTidy (weather 40000 true 0) away (watchdog_turn (weather 40000 true 0) away fresh)
watchdog_turn-IsTidy_example =
    watchdog_turn-IsTidy (weather 40000 true 0) away fresh (λ n. (refl, refl))

abbrev tests : List Hold
tests =
    record { running = true; now = 1000; connected = false }
    ∷ record { running = true; now = 1250; connected = true }
    ∷ []

hold_sdp_socket-closes_example :
    (121 ≤ length tests → hold_sdp_socket 1000 tests ≡ closed)
    × ((before more : List Hold) (h : Hold)
        → tests ≡ before ++ h ∷ more
        → All (λ (k : Hold). is_over 31000 k ≡ false) before
        → (hold_sdp_socket 1000 before ≡ held)
          × (is_over 31000 h ≡ true → hold_sdp_socket 1000 tests ≡ closed))
hold_sdp_socket-closes_example = hold_sdp_socket-closes 1000 tests (omega arith, (omega arith, tt))

-- The peer is dropped three seconds into the wait of 12 seconds after a page: the wait ends then. A
-- wake-up from before the wait does not count.
woken_early :
    ((watchdog_turn (record (weather 40000 true 0) { woken = some 3000 }) away fresh).waited ≡ 3000)
    × ((watchdog_turn (weather 40000 true 0) (record away { reconnect_wake = true }) fresh).waited
        ≡ 12000)
unfolding watchdog_turn peer_turn quiet_turn page_turn after_page try_outbound_reconnect
    clear_and_wait open_channels try_open_hid_outbound open_attempts promote_outbound_hid
woken_early = (refl, refl)
