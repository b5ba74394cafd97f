-- ===== src/Bluetooth/Hid.antt =====
-- bluetooth_handler.py: the control channel of a session, which answers the host's transactions,
-- and the watchdog that tells a session that the host uses from one that it ignores.
pub mod Answers
pub mod Engaged
use toothkey.Base.{
  ℕ, ◌+◌, ◌*◌, ◌/◌, ◌%◌, Bool, true, false, not, ◌&&◌, Option, none, some, List, [], ◌∷◌, ◌++◌,
  if◌then◌else◌, ◌==◌, ltb, replicate, bit_or, has, add_new, ℕ_discrete, is_empty,
}

abbrev pub t_handshake : ℕ
t_handshake = 0x0

abbrev pub t_hid_control : ℕ
t_hid_control = 0x1

abbrev pub t_get_report : ℕ
t_get_report = 0x4

abbrev pub t_set_report : ℕ
t_set_report = 0x5

abbrev pub t_get_protocol : ℕ
t_get_protocol = 0x6

abbrev pub t_set_protocol : ℕ
t_set_protocol = 0x7

abbrev pub t_get_idle : ℕ
t_get_idle = 0x8

abbrev pub t_set_idle : ℕ
t_set_idle = 0x9

abbrev pub t_data : ℕ
t_data = 0xA

abbrev pub hs_successful : ℕ
hs_successful = 0x0

abbrev pub hs_err_invalid_report : ℕ
hs_err_invalid_report = 0x2

abbrev pub hs_err_unsupported_req : ℕ
hs_err_unsupported_req = 0x3

-- `_handshake`: the bytes that it sends
unfoldable pub handshake : ℕ → List ℕ
handshake result_code = bit_or (t_handshake * 16) (result_code % 16) ∷ []

-- `_hid_data_reply`
unfoldable pub hid_data_reply : ℕ → List ℕ → List ℕ
hid_data_reply report_type report = bit_or (t_data * 16) (report_type % 16) ∷ report

-- `_EMPTY_KBD_INPUT_REPORT`
abbrev pub empty_kbd_input_report : List ℕ
empty_kbd_input_report = replicate 8 0

-- the top and the bottom four bits of a header byte
abbrev pub type_of : ℕ → ℕ
type_of header = header / 16 % 16

abbrev pub param_of : ℕ → ℕ
param_of header = header % 16

-- What `_handle_control_transaction` sends for a transaction type and its parameter.
unfoldable pub reply_to : ℕ → ℕ → Option (List ℕ)
unfolding handshake hid_data_reply
reply_to t_type t_param =
    if t_type == t_hid_control
    then none
    else if t_type == t_set_report
    then some (handshake hs_successful)
    else if t_type == t_set_protocol
    then some (handshake hs_successful)
    else if t_type == t_set_idle
    then some (handshake hs_successful)
    else if t_type == t_get_report
    then (if t_param % 4 == 1
        then some (hid_data_reply 1 empty_kbd_input_report)
        else some (handshake hs_err_invalid_report))
    else if t_type == t_get_protocol
    then some (hid_data_reply 1 [])
    else if t_type == t_get_idle
    then some (hid_data_reply 0 (0 ∷ []))
    else if t_type == t_data
    then none
    else some (handshake hs_err_unsupported_req)

-- `_session_substantive_types_seen`: `none` before the first session
abbrev pub Seen : Type 0
Seen = Option (List ℕ)

abbrev pub note_type : ℕ → Seen → Seen
note_type t_type none = none
note_type t_type (some seen) =
    if t_type == t_handshake then some seen else some (add_new ℕ_discrete seen t_type)

-- `_handle_control_transaction`: the bytes that it queues, and the types seen
unfoldable pub handle_control_transaction : List ℕ → Seen → Option (List ℕ) × Seen
unfolding reply_to
handle_control_transaction [] seen = (none, seen)
handle_control_transaction (header ∷ payload) seen =
    (reply_to (type_of header) (param_of header), note_type (type_of header) seen)

-- One turn of `_watch_connection`: whether the session is still connected, what recv gives (`none` is
-- an OSError, and no bytes the end of the stream), and whether `_safe_send` takes a reply then: it
-- drops what comes before `_start_hid_sender` has made the queue, or after the client is dropped.
pub record Turn : Type 0 where
  pub connected : Bool
  pub received : Option (List ℕ)
  pub queueing : Bool

abbrev pub sends : Option (List ℕ) → List (List ℕ) → List (List ℕ)
sends none more = more
sends (some reply) more = reply ∷ more

-- `_watch_connection` up to its `finally`: the replies in order, the types seen, and whether the
-- loop ended, after which the client is dropped.
unfoldable pub watch_connection : List Turn → Seen → List (List ℕ) × Seen × Bool
unfolding handle_control_transaction
watch_connection [] seen = ([], seen, false)
watch_connection (turn ∷ turns) seen = elim turn.connected [
  | false ↦ ([], seen, true)
  | true ↦ elim turn.received [
    | none ↦ ([], seen, true)
    | some [] ↦ ([], seen, true)
    | some (header ∷ payload) ↦
        let (reply, seen') = handle_control_transaction (header ∷ payload) seen in
        let rest = watch_connection turns seen' in
        (sends (if turn.queueing then reply else none) rest.0, rest.1, rest.2)
  ]
]

-- What `_phantom_session_watchdog` reads in one look: the flags, whether any type was seen, and
-- the clock.
pub record Look : Type 0 where
  pub running : Bool
  pub connected : Bool
  pub engaged : Bool
  pub now : ℕ

-- `_phantom_session_watchdog`, looking until the deadline and once after it: whether the link is
-- torn down. `none` is a watchdog that is still looking.
unfoldable pub phantom_session_watchdog : ℕ → List Look → Look → Option Bool
phantom_session_watchdog deadline [] after = none
phantom_session_watchdog deadline (look ∷ looks) after =
    let rest = phantom_session_watchdog deadline looks after in
    if look.running && look.connected && ltb look.now deadline
    then (if look.engaged then some false else rest)
    else if not (after.running && after.connected)
    then some false
    else if after.engaged
    then some false
    else some true
