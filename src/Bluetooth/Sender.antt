-- ===== src/Bluetooth/Sender.antt =====
-- bluetooth_handler.py: the queue of HID reports and the thread that sends them, over one session.
-- A report is the channel with its bytes.
pub mod Order
pub mod Drained
mod Tests
use toothkey.Base.{
  ℕ, Bool, true, false, not, ◌&&◌, ◌||◌, Option, none, some, List, [], ◌∷◌, ◌++◌, if◌then◌else◌,
  is_empty,
}

abbrev pub Report : Type 0
Report = Bool × List ℕ

-- what is in the queue: a report, or `_HID_SEND_STOP`
pub data Item : Type 0 where
  report : Report → Item
  send_stop : Item

-- Where the thread is: at the head of its loop, about to get from the queue that it read, with a
-- report that it got, in `send` with it, or at its end.
pub data Thread : Type 0 where
  at_top at_get ended : Thread
  holding sending : Report → Thread

-- The class attributes that the thread and its callers use. `queue` is the object, which
-- `_hid_send_queue` names or no longer does. `accepted` and `sent` are what was put in it and what
-- went out on the sockets in this session.
pub record Link : Type 0 where
  pub running : Bool
  pub connected : Bool
  pub named : Bool
  pub queue : List Item
  pub thread : Thread
  pub accepted : List Report
  pub sent : List Report

-- `_start_hid_sender`, when a session has begun
abbrev pub new_link : Link
new_link = record {
  running = true;
  connected = true;
  named = true;
  queue = [];
  thread = at_top;
  accepted = [];
  sent = [];
}

-- `_safe_send`
unfoldable pub safe_send : Report → Link → Link
safe_send r s =
    if s.connected && s.named
    then record s { queue = s.queue ++ report r ∷ []; accepted = s.accepted ++ r ∷ [] }
    else s

-- `_stop_hid_sender`, but for the wait for the thread
unfoldable pub stop_hid_sender : Link → Link
stop_hid_sender s =
    if s.named then record s { queue = s.queue ++ send_stop ∷ []; named = false } else s

-- `_drop_client`, as far as the sender goes
unfoldable pub drop_client : Link → Link
unfolding stop_hid_sender
drop_client s = stop_hid_sender (record s { connected = false })

-- `q.get`, or its timeout where the queue is empty
unfoldable pub get : Link → Link
get s = elim s.queue [
  | [] ↦ record s { thread = if s.running then at_top else ended }
  | send_stop ∷ more ↦ record s { thread = ended; queue = more }
  | report r ∷ more ↦ record s { thread = holding r; queue = more }
]

-- The thread goes on from this place, up to the next one where others can act. `ok` is whether
-- `send` succeeds.
unfoldable pub go_on : Thread → Bool → Link → Link
unfolding get drop_client
go_on at_top ok s = record s { thread = if s.named then at_get else ended }
go_on at_get ok s = get s
go_on (holding r) ok s = record s { thread = if s.connected then sending r else at_top }
go_on (sending r) ok s =
    if ok
    then record s { thread = at_top; sent = s.sent ++ r ∷ [] }
    else drop_client (record s { thread = at_top })
go_on ended ok s = s

-- One pass of `_hid_sender_loop`, with its `_blocking_send`, takes four of these.
unfoldable pub sender_turn : Bool → Link → Link
unfolding go_on
sender_turn ok s = go_on s.thread ok s
