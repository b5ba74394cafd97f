-- ===== src/Profile/Agent.antt =====
-- ToothkeyAgent: what it answers to BlueZ.
pub mod KeyboardOnly
use toothkey.Base.{
  ℕ, Bool, true, false, ◌||◌, List, [], ◌∷◌, if◌then◌else◌, Text, text, lower, one_of, starts_with,
}

-- `HID_UUID_SHORT`
abbrev pub hid_uuid_short : Text
hid_uuid_short = text "00001124"

-- `HID_UUID`
abbrev pub hid_uuid : Text
hid_uuid = text "00001124-0000-1000-8000-00805f9b34fb"

abbrev pub sdp_uuid : Text
sdp_uuid = text "00000001-0000-1000-8000-00805f9b34fb"

-- `ALLOWED_AUTHORIZE_UUIDS`
abbrev pub allowed_authorize_uuids : List Text
allowed_authorize_uuids = lower hid_uuid ∷ sdp_uuid ∷ []

-- what BlueZ asks of the agent; the device is not looked at
pub data Request : Type 0 where
  release : Request
  authorize : Text → Request
  request_pin_code : Request
  request_passkey : Request
  display_passkey : ℕ → ℕ → Request
  display_pin_code : Text → Request
  request_confirmation : ℕ → Request
  request_authorization : Request
  cancel : Request

-- what the call returns, or that it raises `Rejected`
pub data Answer : Type 0 where
  done : Answer
  pin : Text → Answer
  passkey : ℕ → Answer
  rejected : Answer

-- `AuthorizeService`
unfoldable pub authorize_service : Text → Answer
authorize_service uuid =
    let u = lower uuid in
    if one_of allowed_authorize_uuids u || starts_with hid_uuid_short u then done else rejected

unfoldable pub agent : Request → Answer
unfolding authorize_service
agent (authorize uuid) = authorize_service uuid
agent request_pin_code = pin (text "0000")
agent request_passkey = passkey 0
agent release = done
agent (display_passkey shown entered) = done
agent (display_pin_code shown) = done
agent (request_confirmation shown) = done
agent request_authorization = done
agent cancel = done
