-- ===== src/Hci/Decode/Read.antt =====
-- What is read from the packets of the Bluetooth core specification.
use toothkey.Base.{
  ℕ, ◌≡◌, refl, ap, ◌∙◌, ◌+◌, ◌*◌, ◌/◌, ◌%◌, ◌<◌, Bool, true, false, Option, none, some, List, [],
  ◌∷◌, ◌++◌, length, take, leb, ltb, if◌then◌else◌, arith,
}
use toothkey.Hci.Decode.{
  Event, Summary, byte, decode_le, decode_confirm, decode_keys, decode_params, decode_hci_event,
  decode_packet, log_packet, from_bytes, cmd,
}
use toothkey.Hci.Decode.Packets.{
  text, le16, le24, le32, Sent, encode, seen, framed, connection_complete, connection_request,
  disconnection_complete, authentication_complete, encryption_change, link_key_request,
  link_key_notification, io_capability_request, io_capability_response, user_confirmation_request,
  user_passkey_request, simple_pairing_complete, le_connection_complete,
  le_enhanced_connection_complete,
}

le16_value : (n : ℕ) → n % 256 + 256 * (n / 256) ≡ n
le16_value n = omega arith

le24_value : (n : ℕ) → from_bytes (le24 n) ≡ n
le24_value n = omega arith

le32_value : (n : ℕ) → from_bytes (le32 n) ≡ n
le32_value n = omega arith

decode_hci_event-encode : (s : Sent) → decode_hci_event (encode s) ≡ some (seen s)
unfolding decode_hci_event decode_params decode_keys decode_confirm decode_le byte
decode_hci_event-encode (connection_complete status handle w link_type enc) =
    ap (λ (h : ℕ). some (Event.connection_complete status h (text w) link_type enc))
      (le16_value handle)
decode_hci_event-encode (connection_request w cod link_type) =
    ap (λ (h : ℕ). some (Event.connection_request (text w) h link_type)) (le24_value cod)
decode_hci_event-encode (disconnection_complete status handle reason) =
    ap (λ (h : ℕ). some (Event.disconnection_complete status h reason)) (le16_value handle)
decode_hci_event-encode (authentication_complete status handle) =
    ap (λ (h : ℕ). some (Event.authentication_complete status h)) (le16_value handle)
decode_hci_event-encode (encryption_change status handle enabled) =
    ap (λ (h : ℕ). some (Event.encryption_change status h enabled)) (le16_value handle)
decode_hci_event-encode (link_key_request w) = refl
decode_hci_event-encode (link_key_notification w k l m n key_type) = refl
decode_hci_event-encode (io_capability_request w) = refl
decode_hci_event-encode (io_capability_response w io_cap oob auth_req) = refl
decode_hci_event-encode (user_confirmation_request w passkey) =
    ap (λ (h : ℕ). some (Event.user_confirmation_request (text w) h)) (le32_value passkey)
decode_hci_event-encode (user_passkey_request w) = refl
decode_hci_event-encode (simple_pairing_complete status w) = refl
decode_hci_event-encode (le_connection_complete status handle role peer_type w i l t c) =
    ap (λ (h : ℕ). some (Event.le_connection_complete status h role (text w))) (le16_value handle)
decode_hci_event-encode
      (le_enhanced_connection_complete status handle role peer_type w v u i l t c) =
    ap (λ (h : ℕ). some (Event.le_enhanced_connection_complete status h role (text w)))
      (le16_value handle)

take_all : (xs : List ℕ) → take (length xs) xs ≡ xs
take_all [] = refl
take_all (x ∷ xs) = ap (λ (l : List ℕ). x ∷ l) (take_all xs)

le16_bytes : (n : ℕ) → from_bytes (le16 n) ≡ n
le16_bytes n = omega arith

log_packet-framed :
    (monop hindex : ℕ) (body : List ℕ)
    → log_packet (framed monop hindex body) ≡ some (hindex, decode_packet monop body)
unfolding log_packet
log_packet-framed monop hindex body =
    let short : ltb (length (framed monop hindex body)) 6 ≡ false = ground arith in
    let bytes : take (from_bytes (le16 (length body))) body ≡ body =
      ap (λ (n : ℕ). take n body) (le16_bytes (length body)) ∙ take_all body in
    ap
      (λ (b : Bool).
        if b
        then none
        else some (
          from_bytes (le16 hindex),
          decode_packet (from_bytes (le16 monop)) (take (from_bytes (le16 (length body))) body),
        ))
      short
    ∙ ap
        (λ (h : ℕ). some (
          h,
          decode_packet (from_bytes (le16 monop)) (take (from_bytes (le16 (length body))) body),
        ))
        (le16_bytes hindex)
    ∙ ap (λ (m : ℕ). some (hindex, decode_packet m (take (from_bytes (le16 (length body))) body)))
        (le16_bytes monop)
    ∙ ap (λ (b : List ℕ). some (hindex, decode_packet monop b)) bytes

decode_packet-event : (s : Sent) → decode_packet 3 (encode s) ≡ some (Summary.event (seen s))
unfolding decode_packet
decode_packet-event s =
    ap (λ (o : Option Event). elim o [ none ↦ none | some e ↦ some (Summary.event e) ])
      (decode_hci_event-encode s)

abbrev plain : ℕ → ℕ → List ℕ → Option Summary
plain b0 b1 params =
    let body = b0 ∷ b1 ∷ length params ∷ params in
    some (Summary.packet 2 (length body) (take 24 body))

decode_packet-cmd :
    (b0 b1 : ℕ) (params : List ℕ)
    → decode_packet 2 (b0 ∷ b1 ∷ length params ∷ params)
      ≡ some (cmd (b1 / 4 % 64) (b0 + 256 * (b1 % 4)) (length params) (take 16 params))
unfolding decode_packet byte
decode_packet-cmd b0 b1 params =
    let long : leb 3 (length (b0 ∷ b1 ∷ length params ∷ params)) ≡ true = ground arith in
    let read = some (
      cmd (b1 / 4 % 64) (b0 + 256 * (b1 % 4)) (length params)
        (take 16 (take (length params) params))) in
    ap (λ (b : Bool). if b then read else plain b0 b1 params) long
    ∙ ap
        (λ (l : List ℕ). some (cmd (b1 / 4 % 64) (b0 + 256 * (b1 % 4)) (length params) (take 16 l)))
        (take_all params)

-- Each of the fourteen kinds of event that `Sent` lists, with all the parameters that the standard
-- gives it, in a packet
-- of the monitor channel, is logged with the index of its adapter and the values that were sent:
-- status, handle, class, passkey, and the address in the order of its text.
pub log_packet-event :
    (hindex : ℕ) (s : Sent)
    → log_packet (framed 3 hindex (encode s)) ≡ some (hindex, some (Summary.event (seen s)))
log_packet-event hindex s =
    log_packet-framed 3 hindex (encode s)
    ∙ ap (λ (o : Option Summary). some (hindex, o)) (decode_packet-event s)

abbrev from_opcode : ℕ → ℕ → ℕ
from_opcode ogf ocf = (ogf * 1024 + ocf) % 256 + 256 * ((ogf * 1024 + ocf) / 256 % 4)

group_of : (ogf ocf : ℕ) → ogf < 64 → ocf < 1024 → (ogf * 1024 + ocf) / 256 / 4 % 64 ≡ ogf
group_of ogf ocf small low = omega arith

number_of : (ogf ocf : ℕ) → ogf < 64 → ocf < 1024 → from_opcode ogf ocf ≡ ocf
number_of ogf ocf small low = omega arith

-- A command, with a group below 64 and a number below 1024 in its opcode, is logged with both, the
-- length of its parameters and the first sixteen of these.
pub log_packet-cmd :
    (hindex ogf ocf : ℕ) (params : List ℕ)
    → ogf < 64
    → ocf < 1024
    → log_packet (framed 2 hindex (le16 (ogf * 1024 + ocf) ++ length params ∷ params))
      ≡ some (hindex, some (cmd ogf ocf (length params) (take 16 params)))
log_packet-cmd hindex ogf ocf params small low =
    log_packet-framed 2 hindex (le16 (ogf * 1024 + ocf) ++ length params ∷ params)
    ∙ ap (λ (o : Option Summary). some (hindex, o))
        (decode_packet-cmd ((ogf * 1024 + ocf) % 256) ((ogf * 1024 + ocf) / 256) params)
    ∙ ap
        (λ (g : ℕ).
          some (hindex, some (cmd g (from_opcode ogf ocf) (length params) (take 16 params))))
        (group_of ogf ocf small low)
    ∙ ap (λ (c : ℕ). some (hindex, some (cmd ogf c (length params) (take 16 params))))
        (number_of ogf ocf small low)
