-- ===== src/Hci/Decode.antt =====
-- hci_monitor.py: fmt_addr, decode_hci_event, decode_packet and the header of a packet. A summary is
-- what its text is made of, and a byte string a list of numbers below 256, of which `|` of parts with
-- no bit in common is the sum. A function returns `none` where the code raises an IndexError.
use toothkey.Base.{
  ℕ, zero, suc, ◌+◌, ◌*◌, ◌/◌, ◌%◌, Bool, true, false, ◌&&◌, Option, none, some, List, [], ◌∷◌,
  ◌++◌, length, take, drop, if◌then◌else◌, leb, ltb, ◌==◌,
}
pub mod Total
pub mod Packets
pub mod Read

pub data Event : Type 0 where
  malformed : (len : ℕ) → Event
  connection_complete : (status handle : ℕ) (bdaddr : List ℕ) (link_type enc : ℕ) → Event
  connection_request : (bdaddr : List ℕ) (cod link_type : ℕ) → Event
  disconnection_complete : (status handle reason : ℕ) → Event
  authentication_complete : (status handle : ℕ) → Event
  encryption_change : (status handle enabled : ℕ) → Event
  link_key_request : (bdaddr : List ℕ) → Event
  link_key_notification : (bdaddr : List ℕ) (key_type : ℕ) → Event
  io_capability_request : (bdaddr : List ℕ) → Event
  io_capability_response : (bdaddr : List ℕ) (io_cap oob auth_req : ℕ) → Event
  user_confirmation_request : (bdaddr : List ℕ) (passkey : ℕ) → Event
  user_passkey_request : (bdaddr : List ℕ) → Event
  simple_pairing_complete : (status : ℕ) (bdaddr : List ℕ) → Event
  le_connection_complete : (status handle role : ℕ) (peer : List ℕ) → Event
  le_enhanced_connection_complete : (status handle role : ℕ) (peer : List ℕ) → Event
  le_ltk_request : Event
  le_meta : (sub len : ℕ) → Event
  other : (code len : ℕ) (raw : List ℕ) → Event

-- `params[i]`
abbrev pub index : List ℕ → ℕ → Option ℕ
index [] i = none
index (x ∷ xs) zero = some x
index (x ∷ xs) (suc i) = index xs i

-- the rest of a branch, with the byte at `i`
unfoldable pub byte {ℓ} : {A : Type ℓ} → List ℕ → ℕ → (ℕ → Option A) → Option A
byte params i f = elim (index params i) [ none ↦ none | some b ↦ f b ]

-- `params[from:to]`
abbrev pub slice : ℕ → ℕ → List ℕ → List ℕ
slice from width params = take width (drop from params)

abbrev pub reverse_onto : List ℕ → List ℕ → List ℕ
reverse_onto [] done = done
reverse_onto (x ∷ xs) done = reverse_onto xs (x ∷ done)

-- `fmt_addr`, the bytes in the order of the text
abbrev pub fmt_addr : List ℕ → List ℕ
fmt_addr b = reverse_onto b []

-- `int.from_bytes(b, 'little')`
abbrev pub from_bytes : List ℕ → ℕ
from_bytes [] = 0
from_bytes (b ∷ bs) = b + 256 * from_bytes bs

-- the branches of LE_META
unfoldable pub decode_le : List ℕ → ℕ → ℕ → Option Event
unfolding byte
decode_le params sub plen =
    if sub == 1 && leb 19 (length params)
    then byte params 1 (λ status. byte params 2 (λ lo. byte params 3 (λ hi. byte params 4 (λ role.
      some (le_connection_complete status (lo + 256 * hi) role (fmt_addr (slice 6 6 params)))))))
    else if sub == 10 && leb 30 (length params)
    then byte params 1 (λ status. byte params 2 (λ lo. byte params 3 (λ hi. byte params 4 (λ role.
      some (
        le_enhanced_connection_complete status (lo + 256 * hi) role
          (fmt_addr (slice 6 6 params)))))))
    else if sub == 5
    then some le_ltk_request
    else some (le_meta sub plen)

-- the branches of `decode_hci_event` from USER_CONFIRM_REQ on
unfoldable pub decode_confirm : List ℕ → ℕ → ℕ → Option Event
unfolding byte decode_le
decode_confirm params code plen =
    let len = length params in
    let bdaddr = fmt_addr (slice 0 6 params) in
    if code == 51 && leb 10 len
    then some (user_confirmation_request bdaddr (from_bytes (slice 6 4 params)))
    else if code == 52 && leb 6 len
    then some (user_passkey_request bdaddr)
    else if code == 54 && leb 7 len
    then byte params 0
        (λ status. some (simple_pairing_complete status (fmt_addr (slice 1 6 params))))
    else if code == 62 && leb 1 len
    then byte params 0 (λ sub. decode_le params sub plen)
    else some (other code plen (take 16 params))

-- the branches from LINK_KEY_REQ on
unfoldable pub decode_keys : List ℕ → ℕ → ℕ → Option Event
unfolding byte decode_confirm
decode_keys params code plen =
    let len = length params in
    let bdaddr = fmt_addr (slice 0 6 params) in
    if code == 23 && leb 6 len
    then some (link_key_request bdaddr)
    else if code == 24 && leb 23 len
    then byte params 22 (λ key_type. some (link_key_notification bdaddr key_type))
    else if code == 49 && leb 6 len
    then some (io_capability_request bdaddr)
    else if code == 50 && leb 9 len
    then byte params 6 (λ io.
      byte params 7
        (λ oob. byte params 8 (λ auth. some (io_capability_response bdaddr io oob auth))))
    else decode_confirm params code plen

-- `decode_hci_event`, after its code, length byte and parameters are taken
unfoldable pub decode_params : List ℕ → ℕ → ℕ → Option Event
unfolding byte decode_keys
decode_params params code plen =
    let len = length params in
    if code == 3 && leb 11 len
    then byte params 0 (λ status. byte params 1 (λ lo. byte params 2 (λ hi.
      byte params 9 (λ link_type. byte params 10 (λ enc. some (
        connection_complete status (lo + 256 * hi) (fmt_addr (slice 3 6 params)) link_type enc))))))
    else if code == 4 && leb 10 len
    then byte params 9 (λ link_type.
      some (
        connection_request (fmt_addr (slice 0 6 params)) (from_bytes (slice 6 3 params)) link_type))
    else if code == 5 && leb 4 len
    then byte params 0 (λ status. byte params 1 (λ lo. byte params 2 (λ hi.
      byte params 3 (λ reason. some (disconnection_complete status (lo + 256 * hi) reason)))))
    else if code == 6 && leb 3 len
    then byte params 0 (λ status.
      byte params 1
        (λ lo. byte params 2 (λ hi. some (authentication_complete status (lo + 256 * hi)))))
    else if code == 8 && leb 4 len
    then byte params 0 (λ status. byte params 1 (λ lo.
      byte params 2
        (λ hi. byte params 3 (λ enc. some (encryption_change status (lo + 256 * hi) enc)))))
    else decode_keys params code plen

-- `decode_hci_event`
unfoldable pub decode_hci_event : List ℕ → Option Event
unfolding byte decode_params
decode_hci_event body =
    if ltb (length body) 2
    then some (malformed (length body))
    else byte body 0 (λ code. byte body 1 (λ plen. decode_params (slice 2 plen body) code plen))

pub data Summary : Type 0 where
  event : Event → Summary
  cmd : (ogf ocf plen : ℕ) (raw : List ℕ) → Summary
  packet : (monop len : ℕ) (raw : List ℕ) → Summary

-- `decode_packet`; 32 digits of a `raw` are 16 bytes
unfoldable pub decode_packet : ℕ → List ℕ → Option Summary
unfolding byte decode_hci_event
decode_packet monop body =
    let plain = some (packet monop (length body) (take 24 body)) in
    if monop == 3
    then elim (decode_hci_event body) [ none ↦ none | some e ↦ some (event e) ]
    else if monop == 2 && leb 3 (length body)
    then byte body 0 (λ b0. byte body 1 (λ b1.
      byte body 2 (λ plen.
        some (cmd (b1 / 4 % 64) (b0 + 256 * (b1 % 4)) plen (take 16 (slice 3 plen body))))))
    else plain

-- What the loop of `main` logs for a packet: nothing, or the index of the adapter with a summary,
-- which is `none` for a decode_error.
unfoldable pub log_packet : List ℕ → Option (ℕ × Option Summary)
log_packet data_ =
    let header = from_bytes in
    let plen = header (slice 4 2 data_) in
    let summary = decode_packet (header (slice 0 2 data_)) (slice 6 plen data_) in
    if ltb (length data_) 6 then none else some (header (slice 2 2 data_), summary)
