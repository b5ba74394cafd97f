-- ===== src/Pairing.antt =====
-- bluetooth_handler.py: who may pair, when, and how often this machine asks to.
pub mod Window
pub mod Attempts
pub mod Throttle
mod Tests
