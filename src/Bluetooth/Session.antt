-- ===== src/Bluetooth/Session.antt =====
-- bluetooth_handler.py: the session with the peer, from its two sockets being accepted or adopted
-- to their being dropped, and the tray's disconnect, pause and unpause. Names and addresses are
-- only compared. What other threads and the peer do is given.
pub mod Accept
pub mod Dropped
pub mod Paused
use toothkey.Base.{
  ℕ, ◌+◌, Bool, true, false, not, ◌&&◌, ◌||◌, Option, none, some, List, [], ◌∷◌, ◌++◌,
  if◌then◌else◌, ◌==◌,
}
use toothkey.Bluetooth.Hid.{Seen, note_type}

-- a control and an interrupt socket, by their descriptors, and the peer's address
pub record Pair : Type 0 where
  pub ctrl : ℕ
  pub intr : ℕ
  pub mac : ℕ

-- The class attributes. `queue` is `_hid_send_queue`, `none` while there is no sender, and `opened`
-- tells which of the peer's sockets are open.
pub record Session : Type 0 where
  pub running : Bool
  pub connected : Bool
  pub paused : Bool
  pub control_socket : Option ℕ
  pub interrupt_socket : Option ℕ
  pub display_name : Option ℕ
  pub mac_address : Option ℕ
  pub paused_name : Option ℕ
  pub paused_mac : Option ℕ
  pub suppressed_until : ℕ
  pub disconnect_event : Bool
  pub reconnect_wake : Bool
  pub outbound_pending : Option Pair
  pub started_outbound : Bool
  pub seen : Seen
  pub queue : Option (List (Bool × List ℕ))
  pub opened : ℕ → Bool

abbrev pub put : (ℕ → Bool) → ℕ → Bool → ℕ → Bool
put m fd b f = if fd == f then b else m f

abbrev pub close_socket : Option ℕ → (ℕ → Bool) → ℕ → Bool
close_socket none m = m
close_socket (some fd) m = put m fd false

abbrev pub close_pair : Option Pair → (ℕ → Bool) → ℕ → Bool
close_pair none m = m
close_pair (some p) m = put (put m p.ctrl false) p.intr false

abbrev pub open_pair : Pair → (ℕ → Bool) → ℕ → Bool
open_pair p m = put (put m p.ctrl true) p.intr true

abbrev pub is_some_socket : Option ℕ → Bool
is_some_socket none = false
is_some_socket (some fd) = true

-- `_drop_client`; `_stop_hid_sender` leaves no queue
unfoldable pub drop_client : Session → Session
drop_client s =
    let already_dropped = not s.connected && not (is_some_socket s.control_socket) in
    if already_dropped then record s { disconnect_event = true } else record s {
      connected = false;
      display_name = none;
      control_socket = none;
      interrupt_socket = none;
      opened = close_socket s.interrupt_socket (close_socket s.control_socket s.opened);
      disconnect_event = true;
      queue = none;
      reconnect_wake = true;
    }

-- `disconnect_client`, in milliseconds; BlueZ's own disconnecting of the peer is not part of it
unfoldable pub disconnect_client : ℕ → Session → Session
unfolding drop_client
disconnect_client now s = drop_client (record s { suppressed_until = now + 60000 })

-- `client_display_name or client_mac_address`
abbrev pub or_else : Option ℕ → Option ℕ → Option ℕ
or_else none b = b
or_else (some a) b = some a

unfoldable pub pause_client : Session → Session
unfolding drop_client
pause_client s =
    let paused = record s {
      paused_name = or_else s.display_name s.mac_address;
      paused_mac = s.mac_address;
      paused = true;
    } in
    record (drop_client paused) { reconnect_wake = true }

unfoldable pub unpause_client : Session → Session
unpause_client s =
    if not s.paused
    then s
    else record s { paused = false; suppressed_until = 0; reconnect_wake = true }

-- `paused_device_label`
abbrev pub paused_device_label : Session → Option ℕ
paused_device_label s = or_else s.paused_name s.paused_mac

-- `stop`, as far as the session goes
unfoldable pub stop : Session → Session
unfolding drop_client
stop s = drop_client (record s { running = false; reconnect_wake = true })

-- `_safe_send` to the control (`true`) or the interrupt channel
unfoldable pub safe_send : Bool → List ℕ → Session → Session
safe_send control bytes s = if not s.connected then s else elim s.queue [
  | none ↦ s
  | some items ↦ record s { queue = some (items ++ (control, bytes) ∷ []) }
]

-- `_promote_outbound_hid`: a pair that waited before is closed when nothing names it any more
unfoldable pub promote_outbound_hid : Pair → Session → Session
promote_outbound_hid p s = record s {
  outbound_pending = some p;
  opened = open_pair p (close_pair s.outbound_pending s.opened);
}

-- What select and the accepts give: the wake pipe; both sockets; the control socket only, the
-- second accept failing; or a failure before that.
pub data Select : Type 0 where
  woken failed : Select
  inbound : Pair → Select
  half : ℕ → Select

-- One turn of the loop of `wait_for_client`: what the other threads did before it, and its select.
pub record Turn : Type 0 where
  pub running : Bool
  pub paused : Bool
  pub promoted : Option Pair
  pub selected : Select

abbrev pub outside : Turn → Session → Session
outside t s =
    let flags = record s { running = t.running; paused = t.paused } in
    elim t.promoted [ none ↦ flags | some p ↦ promote_outbound_hid p flags ]

-- How the loop ends: with a pair of sockets, or without.
pub data Ending : Type 0 where
  pending : Session → Ending
  given_up : Session → Ending
  adopted : Pair → Session → Ending

-- one pass through the loop; `pending` goes round again
unfoldable pub accept_turn : Turn → Session → Ending
accept_turn t s =
    let s0 = outside t s in
    if not s0.running then given_up s0 else elim s0.outbound_pending [
      | some p ↦ adopted p (record s0 { outbound_pending = none; started_outbound = true })
      | none ↦ elim t.selected [
        | woken ↦ pending s0
        | failed ↦ given_up s0
        | half ctrl ↦ given_up (record s0 { opened = put (put s0.opened ctrl true) ctrl false })
        | inbound p ↦
            let both = open_pair p s0.opened in
            if s0.paused
            then pending (record s0 { opened = close_pair (some p) both })
            else adopted p (record s0 { opened = both; started_outbound = false })
      ]
    ]

-- What the watcher and the keepalive, which start first, do before `_start_hid_sender`: the types of
-- the transactions that are heard, and whether the session is dropped.
pub record Early : Type 0 where
  pub heard : List ℕ
  pub lost : Bool

abbrev pub note_types : List ℕ → Seen → Seen
note_types [] seen = seen
note_types (t ∷ types) seen = note_types types (note_type t seen)

unfoldable pub meanwhile : Early → Session → Session
unfolding drop_client
meanwhile e s =
    let noted = record s { seen = note_types e.heard s.seen } in
    if e.lost then drop_client noted else noted

-- `_start_hid_sender`, where no sender runs
unfoldable pub start_hid_sender : Session → Session
start_hid_sender s = record s { queue = some [] }

-- The part of `wait_for_client` after the loop, with whether the descriptor could be sent and the
-- name that BlueZ has for the peer, up to the start of the sender.
unfoldable pub begin_session : Bool → Option ℕ → Early → Pair → Session → Bool × Session
unfolding drop_client meanwhile start_hid_sender
begin_session descriptor_sent name e p s =
    let held = record s { control_socket = some p.ctrl; interrupt_socket = some p.intr } in
    if not descriptor_sent then (false, drop_client held) else (
      true,
      start_hid_sender (
          meanwhile e (record held {
            mac_address = some p.mac;
            display_name = name;
            seen = some [];
            connected = true;
          })),
    )

-- `wait_for_client`; `none` while it waits
unfoldable pub accept_loop : List Turn → Session → Ending
unfolding accept_turn
accept_loop [] s = pending s
accept_loop (t ∷ turns) s = elim (accept_turn t s) [
  | pending s' ↦ accept_loop turns s'
  | given_up s' ↦ given_up s'
  | adopted p s' ↦ adopted p s'
]

unfoldable pub wait_for_client :
    List Turn → Bool → Option ℕ → Early → Session → Option (Bool × Session)
unfolding accept_loop begin_session
wait_for_client turns descriptor_sent name e s =
    elim (accept_loop turns (record s { disconnect_event = false })) [
      | pending s' ↦ none
      | given_up s' ↦ some (false, s')
      | adopted p s' ↦ some (begin_session descriptor_sent name e p s')
    ]
