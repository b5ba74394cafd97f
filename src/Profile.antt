-- ===== src/Profile.antt =====
-- bluetooth_profile.py: the pairing agent and the HID profile that BlueZ calls.
pub mod Agent
pub mod Registration
mod Tests
