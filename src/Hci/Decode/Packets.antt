-- ===== src/Hci/Decode/Packets.antt =====
-- The packets as the Bluetooth core specification lays them out, and what is read from them.
use toothkey.Base.{ℕ, ◌/◌, ◌%◌, List, [], ◌∷◌, ◌++◌, length}
use toothkey.Hci.Decode.{Event}

-- a device address, in the order of its text
pub record Address : Type 0 where
  pub a : ℕ
  pub b : ℕ
  pub c : ℕ
  pub d : ℕ
  pub e : ℕ
  pub f : ℕ

abbrev pub text : Address → List ℕ
text w = w.a ∷ w.b ∷ w.c ∷ w.d ∷ w.e ∷ w.f ∷ []

-- on the air, the last byte first
abbrev pub wire : Address → List ℕ
wire w = w.f ∷ w.e ∷ w.d ∷ w.c ∷ w.b ∷ w.a ∷ []

-- little-endian numbers of two, three and four bytes
abbrev pub le16 : ℕ → List ℕ
le16 n = n % 256 ∷ n / 256 ∷ []

abbrev pub le24 : ℕ → List ℕ
le24 n = n % 256 ∷ le16 (n / 256)

abbrev pub le32 : ℕ → List ℕ
le32 n = n % 256 ∷ le24 (n / 256)

-- the events of a controller that the monitor knows, with all their parameters
pub data Sent : Type 0 where
  connection_complete : (status handle : ℕ) (bdaddr : Address) (link_type enc : ℕ) → Sent
  connection_request : (bdaddr : Address) (cod link_type : ℕ) → Sent
  disconnection_complete : (status handle reason : ℕ) → Sent
  authentication_complete : (status handle : ℕ) → Sent
  encryption_change : (status handle enabled : ℕ) → Sent
  link_key_request : (bdaddr : Address) → Sent
  link_key_notification : (bdaddr : Address) (k l m n : ℕ) (key_type : ℕ) → Sent
  io_capability_request : (bdaddr : Address) → Sent
  io_capability_response : (bdaddr : Address) (io_cap oob auth_req : ℕ) → Sent
  user_confirmation_request : (bdaddr : Address) (passkey : ℕ) → Sent
  user_passkey_request : (bdaddr : Address) → Sent
  simple_pairing_complete : (status : ℕ) (bdaddr : Address) → Sent
  le_connection_complete :
      (status handle role peer_type : ℕ) (peer : Address) (interval latency timeout clock : ℕ)
      → Sent
  le_enhanced_connection_complete :
      (status handle role peer_type : ℕ) (peer local_rpa peer_rpa : Address)
      (interval latency timeout clock : ℕ)
      → Sent

-- the code of the event, the length of its parameters, and these
abbrev pub encode : Sent → List ℕ
encode (connection_complete status handle w link_type enc) =
    3 ∷ 11 ∷ status ∷ le16 handle ++ (wire w ++ link_type ∷ enc ∷ [])
encode (connection_request w cod link_type) = 4 ∷ 10 ∷ wire w ++ (le24 cod ++ link_type ∷ [])
encode (disconnection_complete status handle reason) = 5 ∷ 4 ∷ status ∷ le16 handle ++ reason ∷ []
encode (authentication_complete status handle) = 6 ∷ 3 ∷ status ∷ le16 handle
encode (encryption_change status handle enabled) = 8 ∷ 4 ∷ status ∷ le16 handle ++ enabled ∷ []
encode (link_key_request w) = 23 ∷ 6 ∷ wire w
encode (link_key_notification w k l m n key_type) =
    24 ∷ 23 ∷ wire w ++ (le32 k ++ (le32 l ++ (le32 m ++ (le32 n ++ key_type ∷ []))))
encode (io_capability_request w) = 49 ∷ 6 ∷ wire w
encode (io_capability_response w io_cap oob auth_req) =
    50 ∷ 9 ∷ wire w ++ io_cap ∷ oob ∷ auth_req ∷ []
encode (user_confirmation_request w passkey) = 51 ∷ 10 ∷ wire w ++ le32 passkey
encode (user_passkey_request w) = 52 ∷ 6 ∷ wire w
encode (simple_pairing_complete status w) = 54 ∷ 7 ∷ status ∷ wire w
encode (le_connection_complete status handle role peer_type w interval latency timeout clock) =
    62 ∷ 19 ∷ 1 ∷ status ∷ le16 handle
    ++ role ∷ peer_type ∷ wire w
    ++ (le16 interval ++ (le16 latency ++ (le16 timeout ++ clock ∷ [])))
encode
      (le_enhanced_connection_complete status handle role peer_type w v u interval latency timeout
        clock) =
    62 ∷ 31 ∷ 10 ∷ status ∷ le16 handle
    ++ role ∷ peer_type ∷ wire w
    ++ (wire v ++ (wire u ++ (le16 interval ++ (le16 latency ++ (le16 timeout ++ clock ∷ [])))))

-- what the monitor is to say of it
abbrev pub seen : Sent → Event
seen (connection_complete status handle w link_type enc) =
    Event.connection_complete status handle (text w) link_type enc
seen (connection_request w cod link_type) = Event.connection_request (text w) cod link_type
seen (disconnection_complete status handle reason) =
    Event.disconnection_complete status handle reason
seen (authentication_complete status handle) = Event.authentication_complete status handle
seen (encryption_change status handle enabled) = Event.encryption_change status handle enabled
seen (link_key_request w) = Event.link_key_request (text w)
seen (link_key_notification w k l m n key_type) = Event.link_key_notification (text w) key_type
seen (io_capability_request w) = Event.io_capability_request (text w)
seen (io_capability_response w io_cap oob auth_req) =
    Event.io_capability_response (text w) io_cap oob auth_req
seen (user_confirmation_request w passkey) = Event.user_confirmation_request (text w) passkey
seen (user_passkey_request w) = Event.user_passkey_request (text w)
seen (simple_pairing_complete status w) = Event.simple_pairing_complete status (text w)
seen (le_connection_complete status handle role peer_type w i l t c) =
    Event.le_connection_complete status handle role (text w)
seen (le_enhanced_connection_complete status handle role peer_type w v u i l t c) =
    Event.le_enhanced_connection_complete status handle role (text w)

-- a packet of the monitor channel: its kind, the index of the adapter, its length, its bytes
abbrev pub framed : ℕ → ℕ → List ℕ → List ℕ
framed monop hindex body = le16 monop ++ (le16 hindex ++ (le16 (length body) ++ body))
