-- ===== src/Bluetooth.antt =====
-- bluetooth_handler.py, ToothkeyHandler: the HID session with the peer.
pub mod Hid
pub mod Session
pub mod Sender
pub mod Keepalive
pub mod Peer
pub mod Signals
pub mod Bluez
pub mod Reconnect
pub mod Paging
mod Tests
