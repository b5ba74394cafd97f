-- ===== src/Bluetooth/Reconnect.antt =====
-- bluetooth_handler.py, _reconnect_watchdog_loop: when the worker pages the peer, one turn of the
-- loop at a time, and the page of a turn with what follows it. Times are milliseconds of the monotonic clock.
pub mod Quiet
pub mod Cadence
pub mod Channels
pub mod Persists
pub mod Wake
mod Tests
use toothkey.Base.{
  ℕ, zero, suc, ◌+◌, ◌-◌, ◌*◌, Bool, true, false, not, ◌&&◌, ◌||◌, Option, none, some, List, [],
  ◌∷◌, if◌then◌else◌, ltb, leb, min,
}
use toothkey.Bluetooth.Session.{Session}
use toothkey.Bluetooth.Signals.{last_acl_drop_within}
use toothkey.Bluetooth.Paging.{
  Page, Sdp, no_socket, Attempt, try_outbound_reconnect, try_open_hid_outbound,
}

-- the loop's own variables: `churn_streak`, `session_start` and `stuck_acl_since`
pub record Watch : Type 0 where
  pub churn_streak : ℕ
  pub session_start : ℕ
  pub stuck_acl_since : Option ℕ

-- What a turn meets. First the clock, whether the adapter is powered and whether the peer's ACL is
-- up; then what the page meets and `_running` after it; `connected` and `_running` at each look of
-- the wait for the host, counted down, and after them; whether the ACL is up then, and what each
-- attempt to open the channels meets; at last the clock, the time of the last drop of an ACL, whether
-- a session is on when the wait of the turn is over, and when in that wait, if at all, another thread
-- sets `_reconnect_wake`.
pub record Weather : Type 0 where
  pub now : ℕ
  pub powered : Bool
  pub acl : Bool
  pub page : Page
  pub runs : Bool
  pub looks : ℕ → Bool × Bool
  pub connected_then : Bool
  pub running_then : Bool
  pub acl_then : Bool
  pub attempts : ℕ → Attempt
  pub later : ℕ
  pub drop_at : ℕ
  pub connected_after : Bool
  pub woken : Option ℕ

pub data Action : Type 0 where
  idle power_up cycle_link page : Action

-- the variables after the turn, the session, what it does, how often it sleeps a quarter of a second,
-- the timeout of the wait before the next turn, when another thread sets the event in it, how long it
-- lasts, the socket of the page's SDP channel, and whether the loop is left instead
pub record Turned : Type 0 where
  pub watch : Watch
  pub session : Session
  pub action : Action
  pub sleeps : ℕ
  pub timeout : ℕ
  pub woken : Option ℕ
  pub waited : ℕ
  pub sdp : Sdp
  pub leaves : Bool

abbrev pub stuck_since : ℕ → Option ℕ → ℕ
stuck_since now none = now
stuck_since now (some since) = since

abbrev pub at_least : ℕ → ℕ → ℕ
at_least a b = if ltb a b then b else a

-- the pause between pages, by the time since the peer was last reached
abbrev pub retry_after : ℕ → ℕ
retry_after disconnected_for =
    if ltb disconnected_for 60000
    then 15000
    else if ltb disconnected_for 300000
    then 60000
    else 180000

-- the wait for the host to open the channels itself: how many of so many looks are followed by a
-- sleep
unfoldable pub hid_wait : ℕ → (ℕ → Bool × Bool) → ℕ
hid_wait zero looks = 0
hid_wait (suc left) looks =
    let rest = hid_wait left looks in
    let (connected, running) = looks left in if connected || not running then 0 else 1 + rest

-- the channels opened from our side, unless the host has, the worker stops or the link is down
unfoldable pub open_channels : Weather → Session → Session
open_channels x s =
    if not x.connected_then && (x.running_then && x.acl_then)
    then (try_open_hid_outbound x.connected_then x.attempts s).0
    else s

-- a drop of the link within five seconds of the page, without a session
unfoldable pub is_refused : Weather → Bool
is_refused x = not x.connected_after && last_acl_drop_within x.now 5000 x.drop_at

-- `_reconnect_wake.clear()`
unfoldable pub clear_wake : Session → Session
clear_wake s = record s { reconnect_wake = false }

-- `_reconnect_wake.wait(timeout=timeout)`, with when another thread sets the event: how long it lasts
unfoldable pub wait_wake : Option ℕ → ℕ → Session → ℕ × Session
wait_wake woken timeout s = if s.reconnect_wake then (0, s) else elim woken [
  | none ↦ (timeout, s)
  | some at ↦ if ltb at timeout then (at, record s { reconnect_wake = true }) else (timeout, s)
]

-- the turn's end, on every way through it that does not leave the loop
unfoldable pub clear_and_wait : Option ℕ → ℕ → Session → ℕ × Session
unfolding clear_wake wait_wake
clear_and_wait woken timeout s = wait_wake woken timeout (clear_wake s)

-- after the page: `_running`, and whether it got through
unfoldable pub after_page : Bool → Bool → Weather → Session → Watch → Turned
after_page false ok x s w = record {
  watch = w;
  session = s;
  action = page;
  sleeps = 0;
  timeout = 0;
  woken = x.woken;
  waited = 0;
  sdp = no_socket;
  leaves = true;
}
after_page true true x s w =
    let (waited, s') = clear_and_wait x.woken (at_least 1000 (15000 - 3000)) (open_channels x s) in
    record {
      watch = record w {
        session_start = x.later;
        churn_streak = if is_refused x then w.churn_streak + 1 else w.churn_streak;
      };
      session = s';
      action = page;
      sleeps = hid_wait 12 x.looks;
      timeout = at_least 1000 (15000 - 3000);
      woken = x.woken;
      waited = waited;
      sdp = no_socket;
      leaves = false;
    }
after_page true false x s w =
    let pause = min (retry_after (x.now - w.session_start)) 30000 in
    let (waited, s') = clear_and_wait x.woken pause s in
    record {
      watch = w;
      session = s';
      action = page;
      sleeps = 0;
      timeout = pause;
      woken = x.woken;
      waited = waited;
      sdp = no_socket;
      leaves = false;
    }

-- the part of a turn that pages; a page that gets through may leave a thread that holds its socket
unfoldable pub page_turn : Weather → Session → Watch → Turned
page_turn x s w =
    let (ok, sdp) = try_outbound_reconnect (record x.page { addressed = true }) in
    record (after_page x.runs ok x s w) { sdp = sdp }

-- a turn that does no more than this, and then waits
abbrev pub waits : Weather → Session → Watch → Action → ℕ → Turned
waits x s w action timeout =
    let (waited, s') = clear_and_wait x.woken timeout s in
    record {
      watch = w;
      session = s';
      action = action;
      sleeps = 0;
      timeout = timeout;
      woken = x.woken;
      waited = waited;
      sdp = no_socket;
      leaves = false;
    }

-- a turn with the link up
unfoldable pub link_turn : Weather → Session → Watch → Turned
link_turn x s w =
    let stuck = stuck_since x.now w.stuck_acl_since in
    if ltb (x.now - stuck) 20000
    then waits x s (record w { stuck_acl_since = some stuck }) idle (20000 - (x.now - stuck))
    else waits x s (record w { stuck_acl_since = none }) cycle_link 2000

-- a turn with the link down
unfoldable pub quiet_turn : Weather → Session → Watch → Turned
quiet_turn x s w =
    if leb 3 w.churn_streak
    then waits x s (record w { churn_streak = 1; stuck_acl_since = none }) idle
        (min (60000 * w.churn_streak) 180000)
    else page_turn x s (record w { stuck_acl_since = none })

-- a turn with a peer that is known
unfoldable pub peer_turn : Weather → Session → Watch → Turned
peer_turn x s w =
    if s.paused
    then waits x s w idle 300000
    else if ltb x.now s.suppressed_until
    then waits x s w idle (at_least 1000 (s.suppressed_until - x.now))
    else if x.acl
    then link_turn x s w
    else quiet_turn x s w

-- one turn of `_reconnect_watchdog_loop`, while `_running`
unfoldable pub watchdog_turn : Weather → Session → Watch → Turned
watchdog_turn x s w =
    if s.connected
    then waits x s (record { churn_streak = 0; session_start = x.later; stuck_acl_since = none })
        idle 60000
    else if not x.powered
    then waits x s w power_up 10000
    else elim s.mac_address [ none ↦ waits x s w idle 15000 | some mac ↦ peer_turn x s w ]

-- the loop's turns, with the session that the other threads have left at each
unfoldable pub watchdog_loop : List (Weather × Session) → Watch → List Turned
watchdog_loop [] w = []
watchdog_loop ((x, s) ∷ more) w =
    let t = watchdog_turn x s w in
    let rest = watchdog_loop more t.watch in t ∷ (if t.leaves then [] else rest)

-- `_reconnect_wake.clear()` and the `wait` after it: whether the wait runs to its timeout, by what the
-- other threads do to the session between the turn's tests and the clear, and during the wait
unfoldable pub waits_out : (Session → Session) → (Session → Session) → Session → Bool
unfolding clear_wake
waits_out before during s = not (during (clear_wake (before s))).reconnect_wake
