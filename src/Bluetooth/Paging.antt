-- ===== src/Bluetooth/Paging.antt =====
-- bluetooth_handler.py: _try_outbound_reconnect, which pages the peer, _hold_sdp_socket, which then holds
-- the link, and _try_open_hid_outbound, which opens the two HID channels from our side. What BlueZ and the sockets answer is given.
pub mod Tidy
pub mod Held
mod Tests
use toothkey.Base.{
  ℕ, zero, suc, ◌+◌, Bool, true, false, not, ◌&&◌, ◌||◌, Option, none, some, List, [], ◌∷◌,
  if◌then◌else◌, ltb,
}
use toothkey.Bluetooth.Session.{Pair, Session, open_pair, close_pair, promote_outbound_hid}

-- What paging meets: an address, a bus, power; whether BlueZ knows the device; its Paired and
-- Connected, `none` where the call fails; and whether the connect to its SDP channel succeeds.
pub record Page : Type 0 where
  pub addressed : Bool
  pub bus : Bool
  pub powered : Bool
  pub known : Bool
  pub paired : Option Bool
  pub connected : Option Bool
  pub connects : Bool

-- the SDP socket: none was made, it was closed, or a thread holds it
pub data Sdp : Type 0 where
  no_socket closed held : Sdp

abbrev pub keeps_link : Sdp → Bool
keeps_link no_socket = false
keeps_link closed = false
keeps_link held = true

abbrev pub is_yes : Option Bool → Bool
is_yes none = false
is_yes (some b) = b

-- `_try_outbound_reconnect`
unfoldable pub try_outbound_reconnect : Page → Bool × Sdp
try_outbound_reconnect r =
    if not r.addressed || (not r.bus || (not r.powered || not r.known))
    then (false, no_socket)
    else if not (elim r.paired [ none ↦ false | some b ↦ b ])
    then (false, no_socket)
    else if elim r.connected [ none ↦ false | some b ↦ b ]
    then (true, no_socket)
    else if r.connects
    then (true, held)
    else (false, closed)

-- `_HID_OUTBOUND_ATTEMPTS`
abbrev pub hid_outbound_attempts : ℕ
hid_outbound_attempts = 3

-- An attempt: the class attributes as the loop looks at them, the two new sockets, whether each
-- connects, and whether the ACL is up after it.
pub record Attempt : Type 0 where
  pub connected : Bool
  pub running : Bool
  pub sockets : Pair
  pub control_ok : Bool
  pub interrupt_ok : Bool
  pub acl : Bool

-- `_try_open_hid_outbound_once`
unfoldable pub try_open_hid_outbound_once : Attempt → Session → Session × Bool
try_open_hid_outbound_once a s =
    let both = open_pair a.sockets s.opened in
    if a.control_ok && a.interrupt_ok
    then (promote_outbound_hid a.sockets (record s { opened = both }), true)
    else (record s { opened = close_pair (some a.sockets) both }, false)

-- the loop, with so many attempts left
unfoldable pub open_attempts : ℕ → (ℕ → Attempt) → Session → Session × Bool
unfolding try_open_hid_outbound_once
open_attempts zero attempts s = (s, false)
open_attempts (suc left) attempts s =
    let a = attempts left in
    let (s', ok) = try_open_hid_outbound_once a s in
    let rest = open_attempts left attempts s' in
    if a.connected || not a.running
    then (s, false)
    else if ok
    then (s', true)
    else if not a.acl
    then (s', false)
    else rest

-- `_try_open_hid_outbound`; `attempts` counts down
unfoldable pub try_open_hid_outbound : Bool → (ℕ → Attempt) → Session → Session × Bool
unfolding open_attempts
try_open_hid_outbound connected attempts s =
    if connected then (s, false) else open_attempts hid_outbound_attempts attempts s

-- a test of the holder's loop: `_running`, the clock and `connected`
pub record Hold : Type 0 where
  pub running : Bool
  pub now : ℕ
  pub connected : Bool

-- the loop of the thread that holds the SDP socket, over its tests, a quarter of a second apart;
-- `held` is that it is still in its loop
unfoldable pub hold_turns : ℕ → List Hold → Sdp
hold_turns deadline [] = held
hold_turns deadline (h ∷ more) =
    let rest = hold_turns deadline more in
    if h.running && ltb h.now deadline then (if h.connected then closed else rest) else closed

-- `_hold_sdp_socket`, called at a time
unfoldable pub hold_sdp_socket : ℕ → List Hold → Sdp
unfolding hold_turns
hold_sdp_socket now tests = hold_turns (now + 30000) tests
